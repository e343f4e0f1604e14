-- ===== src/Buffer/Pull.antt =====
-- evbuffer_pullup of buffer.c: it makes the first bytes of an evbuffer lie in one chain.
use swift_event.Base.{
  ℕ, ◌+◌, ◌-◌, Bool, true, false, ◌&&◌, ◌||◌, not, Option, none, some, List, [], ◌∷◌, ◌++◌, ltb,
  leb, ◌==◌, if◌then◌else◌, take, is_empty,
}
use swift_event.Base.Int.{ℤ, pos, negsuc}
use swift_event.Buffer.{Chain, Buffer, off, sub_size, chain_new}
use swift_event.Buffer.Read.{drain_rest, drain_loop, copy_chains}

-- Whether the loop of evbuffer_pullup, which frees chains as evbuffer_drain does, frees all of them
abbrev pub frees_all : List Chain → ℕ → Bool
frees_all [] n = true
frees_all (c ∷ cs) n = let others = frees_all cs (n - off c) in leb (off c) n && others

-- the bytes that the chains of a list hold
abbrev sum_off : List Chain → ℕ
sum_off [] = 0
sum_off (c ∷ cs) = off c + sum_off cs

-- and whether it frees the first chain from `*last_with_datap` on
abbrev pub frees_head : List Chain → List Chain → ℕ → Bool
frees_head bs [] n = false
frees_head bs (c ∷ cs) n = frees_all bs n && leb (off c) (n - sum_off bs)

-- The chains with `tmp` as the first one, when `last_with_datap` stood in or behind a freed chain
abbrev pub relink : Chain → List Chain → List Chain × List Chain
relink tmp [] = ([], tmp ∷ [])
relink tmp (d ∷ ds) = if off d == 0 then ([], tmp ∷ d ∷ ds) else (tmp ∷ [], d ∷ ds)

-- `removed_datap` says that the chain before `*last_with_datap` was freed.
unfoldable pub pulled : Chain → Bool → List Chain → List Chain → ℕ → List Chain × List Chain
pulled tmp removed_datap bs rest n =
    let (bs', rest') = drain_loop bs rest n in
    if frees_head bs rest n
    then ([], tmp ∷ rest')
    else if removed_datap
    then relink tmp rest'
    else (tmp ∷ bs', rest')

abbrev pub with_chains : Buffer → List Chain × List Chain → Buffer
with_chains b (bs, cs) = record b { before = bs; rest = cs }

-- The chains after a pullup of `size` bytes that keeps the first chain `f`, whose successors are
-- `others`, or that replaces it by the new chain `tmp`
abbrev pub extended : Chain → List Chain → ℕ → Chain
extended f others size = record f { bytes = f.bytes ++ copy_chains others (size - off f) }

abbrev pub replaced : Chain → Chain → List Chain → ℕ → Chain
replaced tmp f others size = record tmp { bytes = copy_chains (f ∷ others) size }

-- The part of evbuffer_pullup that has a first chain `f`, and a size in range. Where `f` is
-- `*last_with_datap` it stays so.
unfoldable pub pullup_first :
    Buffer → Chain → List Chain → List Chain → Bool → ℕ → Option (List ℕ) × Buffer
pullup_first b f bs rest f_is_last size =
    let n = size - off f in
    let others = bs ++ rest in
    let kept = λ (c : Chain) (gone : Bool).
      if f_is_last
      then ([], c ∷ drain_rest rest n)
      else pulled c (frees_all bs n && (gone || not (is_empty bs))) bs rest n in
    let longer = extended f others size in
    if leb size (off f)
    then (some (take size f.bytes), b)
    else if leb size (sub_size f.buffer_len f.misalign)
    then (some (take size longer.bytes), with_chains b (kept longer false))
    else elim (chain_new b.memory size) [
      | none ↦ (none, b)
      | some tmp ↦
          let c = replaced tmp f others size in
          (some (take size c.bytes), with_chains b (kept c true))
    ]

-- A negative size asks for all bytes.
abbrev pub pullup_size : Buffer → ℤ → ℕ
pullup_size b (pos n) = n
pullup_size b (negsuc n) = b.total_len

unfoldable pub pullup_on : Buffer → List Chain → List Chain → ℕ → Option (List ℕ) × Buffer
pullup_on b [] [] n = (none, b)
pullup_on b [] (f ∷ cs) n = pullup_first b f [] cs true n
pullup_on b (f ∷ bs) cs n = pullup_first b f bs cs false n

-- evbuffer_pullup: the bytes that the returned pointer shows, or NULL
unfoldable pub pullup : Buffer → ℤ → Option (List ℕ) × Buffer
pullup b size =
    let n = pullup_size b size in
    if n == 0 || ltb b.total_len n then (none, b) else pullup_on b b.before b.rest n
