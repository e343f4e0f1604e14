-- ===== src/Buffer/Read.antt =====
-- Reading an evbuffer: evbuffer_drain, evbuffer_copyout, evbuffer_remove and evbuffer_pullup of
-- buffer.c.
use swift_event.Base.{
  ℕ, ◌+◌, ◌-◌, ◌%◌, List, [], ◌∷◌, ◌++◌, ltb, leb, ◌==◌, if◌then◌else◌, take, drop, min,
}
use swift_event.Base.Int.{ℤ, pos, negsuc, eqb_ℤ}
use swift_event.Buffer.{Chain, Buffer, off, add_size, zero_chain, invoke_callbacks}

-- A chain that has lost its first `n` bytes.
abbrev pub advance : Chain → ℕ → Chain
advance c n = record c { misalign = c.misalign + n; bytes = drop n c.bytes }

-- The loop of evbuffer_drain frees chains from the front. A freed chain that `last_with_datap`
-- points at or stands in makes it `&buf->first`.
unfoldable pub drain_rest : List Chain → ℕ → List Chain
drain_rest [] remaining = []
drain_rest (c ∷ cs) remaining =
    let more = drain_rest cs (remaining - off c) in
    if leb (off c) remaining then more else advance c remaining ∷ cs

unfoldable pub drain_loop : List Chain → List Chain → ℕ → List Chain × List Chain
drain_loop [] rest remaining = ([], drain_rest rest remaining)
drain_loop (c ∷ cs) rest remaining =
    let more = drain_loop cs rest (remaining - off c) in
    if leb (off c) remaining then more else (advance c remaining ∷ cs, rest)

-- evbuffer_drain
unfoldable pub drain : Buffer → ℕ → ℤ × Buffer
drain b len =
    let (before, rest) = drain_loop b.before b.rest len in
    let partly = record b { before = before; rest = rest; total_len = b.total_len - len } in
    let counted = λ (n : ℕ) (c : Buffer).
      invoke_callbacks (record c { n_del_for_cb = add_size c.n_del_for_cb n }) in
    if b.total_len == 0
    then (pos 0, b)
    else if b.freeze_start
    then (negsuc 0, b)
    else if leb b.total_len len
    then (pos 0, counted b.total_len (zero_chain b))
    else (pos 0, counted len partly)

-- The loop of evbuffer_copyout_from, from the first chain on: it copies whole chains, and then a
-- part of one.
unfoldable pub copy_chains : List Chain → ℕ → List ℕ
copy_chains [] datlen = []
copy_chains (c ∷ cs) datlen =
    let more = copy_chains cs (datlen - off c) in
    if datlen == 0 then [] else if leb (off c) datlen then c.bytes ++ more else take datlen c.bytes

-- evbuffer_copyout: the number of bytes copied or -1, and the bytes
unfoldable pub copyout : Buffer → ℕ → ℤ × List ℕ
copyout b datlen =
    let n = min datlen b.total_len in
    if n == 0
    then (pos 0, [])
    else if b.freeze_start
    then (negsuc 0, [])
    else (pos n, copy_chains (b.before ++ b.rest) n)

-- the conversion of a result that is not negative, or -1, to `int`
abbrev pub int_of_ssize : ℤ → ℤ
int_of_ssize (negsuc n) = negsuc n
int_of_ssize (pos n) =
    let low = n % 4294967296 in if ltb low 2147483648 then pos low else negsuc (4294967295 - low)

-- evbuffer_remove
unfoldable pub remove : Buffer → ℕ → ℤ × List ℕ × Buffer
remove b datlen = drained (copyout b datlen)
  where
    drained : ℤ × List ℕ → ℤ × List ℕ × Buffer
    drained (negsuc n, xs) = (int_of_ssize (negsuc n), xs, b)
    drained (pos n, xs) =
        let (r, b') = drain b n in
        if n == 0
        then (int_of_ssize (pos n), xs, b)
        else if eqb_ℤ r (pos 0)
        then (int_of_ssize (pos n), xs, b')
        else (negsuc 0, xs, b')
