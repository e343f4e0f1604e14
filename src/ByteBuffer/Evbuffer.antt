-- ===== src/ByteBuffer/Evbuffer.antt =====
-- The evbuffers of buffer.c keep what the interface of byte buffers promises.
use swift_event.Base.{ℕ, ◌≡◌, ap, ◌∙◌, true, false, Option, some, List, ◌++◌, take, arith}
use swift_event.Base.Int.{ℤ, pos}
use swift_event.ByteBuffer.{ByteBuffer}
use swift_event.Buffer.{Buffer, get_length}
use swift_event.Buffer.Write.{add}
use swift_event.Buffer.Read.{drain}
use swift_event.Buffer.Pull.{pullup}
use swift_event.Buffer.Valid.{contents, IsValid, SameSettings}
use swift_event.Buffer.Add.{Added, done, refused, add-Added}
use swift_event.Buffer.AddSucceeds.{add_succeeds}
use swift_event.Buffer.Drain.{drain-Drained}
use swift_event.Buffer.Pullup.{Pulled, shown, refused, pullup-Pulled}
use swift_event.Buffer.PullupSucceeds.{Shows, pullup_succeeds}

pub record IsOpen (b : Buffer) : Type 0 where
  pub valid : IsValid b
  pub start : b.freeze_start ≡ false
  pub end : b.freeze_end ≡ false
  pub memory : b.memory ≡ true

pub kept_open : (b c : Buffer) → IsOpen b → IsValid c → SameSettings b c → IsOpen c
kept_open b c o v (s, e, m) = record {
  valid = v;
  start = s ∙ o.start;
  end = e ∙ o.end;
  memory = m ∙ o.memory;
}

pub added :
    (b : Buffer) (xs : List ℕ) (r : ℤ × Buffer)
    → IsOpen b
    → Added b xs r
    → r.0 ≡ pos 0
    → (r.0 ≡ pos 0) × IsOpen r.1 × (contents r.1 ≡ contents b ++ xs)
added b xs r o (done {b'} v same settings) ok = (ok, kept_open b b' o v settings, same)
added b xs r o refused ok = absurd (cc ok)

pub pulled :
    (b : Buffer) (n : ℕ) (r : Option (List ℕ) × Buffer)
    → IsOpen b
    → Pulled b n r
    → Shows r
    → (r.0 ≡ some (take n (contents b))) × IsOpen r.1 × (contents r.1 ≡ contents b)
pulled b n r o (shown {xs} {b'} e v same settings) s =
    (ap some e, kept_open b b' o v settings, same)
pulled b n r o refused s = absurd (elim s [ ])

abbrev pub evbuffer : ByteBuffer
evbuffer = record {
  Buf = Buffer;
  IsGood = IsOpen;
  bytes = contents;
  get_length = get_length;
  add = add;
  drain = drain;
  pullup = pullup;
  get_length_lem = λ b o. o.valid.counted;
  add_lem = λ b xs o small short.
      added b xs (add b xs) o (add-Added b xs o.valid)
        (add_succeeds b xs o.valid o.end o.memory (omega (arith, o.valid.counted)) short);
  drain_lem = λ b n o.
      let d = drain-Drained b n o.valid o.start in
      (d.status, kept_open b (drain b n).1 o d.valid d.settings, d.rest);
  pullup_lem = λ b n o some_bytes there short.
      pulled b n (pullup b (pos n)) o (pullup-Pulled b (pos n) o.valid)
        (pullup_succeeds b n o.memory some_bytes (omega (arith, o.valid.counted)) short o.valid);
}
