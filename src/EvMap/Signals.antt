-- ===== src/EvMap/Signals.antt =====
-- The map from signals to events of evmap.c.
use swift_event.Base.{
  ℕ, Bool, true, false, not, ◌&&◌, ◌||◌, Option, none, some, List, [], ◌∷◌, ltb, leb, ◌==◌,
  if◌then◌else◌, update, remove_first,
}
use swift_event.Base.Int.{ℤ, pos, negsuc}
use swift_event.EvMap.{double_entries}

-- `struct event_signal_map`; `accepts` tells whether the signal backend, evsigsel, takes the signals
-- that it is asked to add and to delete.
pub record SigMap : Type 0 where
  pub entries : ℕ → Option (List ℕ)
  pub nentries : ℕ
  pub accepts : Bool
  pub memory : Bool

-- evmap_make_space for the signals
unfoldable pub sig_space : SigMap → ℕ → Bool × SigMap
sig_space m slot =
    let n = double_entries 31 slot (if m.nentries == 0 then 32 else m.nentries) in
    if not (leb m.nentries slot)
    then (true, m)
    else if ltb 1073741823 slot || (ltb 268435455 n || not m.memory)
    then (false, m)
    else (
      true,
      record m { nentries = n; entries = λ i. if ltb i m.nentries then m.entries i else none },
    )

abbrev pub is_nil : List ℕ → Bool
is_nil [] = true
is_nil (x ∷ xs) = false

abbrev pub store_sig : SigMap → ℕ → List ℕ → SigMap
store_sig m sig es = record m { entries = update m.entries sig (some es) }

-- evmap_signal_add_ for the entry of a signal
unfoldable pub sig_add_entry : SigMap → ℕ → ℕ → List ℕ → ℤ × SigMap
sig_add_entry m sig e es =
    if is_nil es && not m.accepts then (negsuc 0, m) else (pos 1, store_sig m sig (e ∷ es))

unfoldable pub sig_add_slot : Option (List ℕ) → SigMap → ℕ → ℕ → ℤ × SigMap
sig_add_slot (some es) m sig e = sig_add_entry m sig e es
sig_add_slot none m sig e =
    if m.memory then sig_add_entry (store_sig m sig []) sig e [] else (negsuc 0, m)

unfoldable pub sig_add_spaced : Bool × SigMap → ℕ → ℕ → ℤ × SigMap
sig_add_spaced (false, m) sig e = (negsuc 0, m)
sig_add_spaced (true, m) sig e = sig_add_slot (m.entries sig) m sig e

-- evmap_signal_add_; NSIG is 65.
unfoldable pub sig_add : SigMap → ℤ → ℕ → ℤ × SigMap
sig_add m (negsuc n) e = (negsuc 0, m)
sig_add m (pos sig) e = if leb 65 sig then (negsuc 0, m) else sig_add_spaced (sig_space m sig) sig e

-- evmap_signal_del_. Without an entry the code reads through NULL: that is the result -2 here.
unfoldable pub sig_del_slot : Option (List ℕ) → SigMap → ℕ → ℕ → ℤ × SigMap
sig_del_slot none m sig e = (negsuc 1, m)
sig_del_slot (some es) m sig e =
    let left = remove_first e es in
    let m' = store_sig m sig left in
    if is_nil left && not m.accepts then (negsuc 0, m') else (pos 1, m')

unfoldable pub sig_del : SigMap → ℤ → ℕ → ℤ × SigMap
sig_del m (negsuc n) e = (negsuc 0, m)
sig_del m (pos sig) e =
    if leb m.nentries sig then (negsuc 0, m) else sig_del_slot (m.entries sig) m sig e
