-- ===== src/Buffer/Write.antt =====
-- Adding bytes to an evbuffer: the chain insertion helpers, evbuffer_add, evbuffer_prepend and
-- evbuffer_add_reference of buffer.c.
use swift_event.Base.{
  ℕ, ◌-◌, ◌*◌, ◌/◌, Bool, true, ◌&&◌, ◌||◌, none, some, List, [], ◌∷◌, ◌++◌, ltb, leb, ◌==◌,
  if◌then◌else◌, length, take, drop,
}
use swift_event.Base.Int.{ℤ, pos, negsuc}
use swift_event.Buffer.{
  Chain, Buffer, off, size_max, sub_size, add_size, chain_new, invoke_callbacks,
}

-- The chains that evbuffer_free_trailing_empty_chains keeps, of those from `*last_with_datap` on.
abbrev pub free_trailing_empty : List Chain → List Chain
free_trailing_empty [] = []
free_trailing_empty (c ∷ cs) =
    let kept = free_trailing_empty cs in if off c == 0 then [] else c ∷ kept

-- The chains after evbuffer_chain_insert, before and from `*last_with_datap` on
unfoldable pub insert_last : List Chain → List Chain → Chain → List Chain × List Chain
insert_last before [] c = (before, c ∷ [])
insert_last before (d ∷ ds) c =
    let kept = free_trailing_empty (d ∷ ds) in
    if off c == 0 then (before, kept ++ c ∷ []) else (before ++ kept, c ∷ [])

-- evbuffer_chain_insert
unfoldable pub chain_insert : Buffer → Chain → Buffer
chain_insert b c =
    let (before, rest) = insert_last b.before b.rest c in
    record b { before = before; rest = rest; total_len = add_size b.total_len (off c) }

-- evbuffer_chain_should_realign
unfoldable pub should_realign : Chain → ℕ → Bool
should_realign c datlen =
    leb datlen (sub_size c.buffer_len (off c))
    && (ltb (off c) (c.buffer_len / 2) && leb (off c) 2048)

-- `total_len` and `n_add_for_cb` after `n` more bytes
abbrev pub count_added : ℕ → Buffer → Buffer
count_added n b = record b {
  total_len = add_size b.total_len n;
  n_add_for_cb = add_size b.n_add_for_cb n;
}

-- the size of the chain that evbuffer_add appends to a chain of size `buffer_len`
abbrev pub next_size : ℕ → ℕ → ℕ
next_size buffer_len datlen =
    let doubled = if leb buffer_len 2048 then buffer_len * 2 else buffer_len in
    if ltb doubled datlen then datlen else doubled

-- The end of evbuffer_add that needs another chain: `remain` bytes still fit into `c`.
unfoldable pub add_chain : Buffer → Chain → List Chain → ℕ → List ℕ → ℤ × Buffer
add_chain b c cs remain xs = elim (chain_new b.memory (next_size c.buffer_len (length xs))) [
  | none ↦ (negsuc 0, b)
  | some tmp ↦
      let c' = record c { bytes = c.bytes ++ take remain xs } in
      let b' = count_added remain (record b { rest = c' ∷ cs }) in
      let xs' = drop remain xs in
      let b'' = chain_insert b' (record tmp { bytes = xs' }) in
      (
        pos 0,
        invoke_callbacks (record b'' { n_add_for_cb = add_size b''.n_add_for_cb (length xs') }),
      )
]

-- evbuffer_add, once `*last_with_datap` is the chain `c`
unfoldable pub add_to : Buffer → Chain → List Chain → List ℕ → ℤ × Buffer
add_to b c cs xs =
    let remain = sub_size (sub_size c.buffer_len c.misalign) (off c) in
    let n = length xs in
    let fits = record c { bytes = c.bytes ++ xs } in
    let realigned = record c { misalign = 0; bytes = c.bytes ++ xs } in
    if c.is_immutable
    then add_chain b c cs 0 xs
    else if leb n remain
    then (pos 0, invoke_callbacks (count_added n (record b { rest = fits ∷ cs })))
    else if should_realign c n
    then (pos 0, invoke_callbacks (count_added n (record b { rest = realigned ∷ cs })))
    else add_chain b c cs remain xs

-- evbuffer_add, after its checks, on the chains from `*last_with_datap` on
unfoldable pub add_on : Buffer → List Chain → List ℕ → ℤ × Buffer
add_on b [] xs = elim (chain_new b.memory (length xs)) [
  | none ↦ (negsuc 0, b)
  | some c ↦ add_to (chain_insert b c) c [] xs
]
add_on b (c ∷ cs) xs = add_to b c cs xs

-- evbuffer_add: 0, or -1
unfoldable pub add : Buffer → List ℕ → ℤ × Buffer
add b xs =
    if b.freeze_end || ltb (size_max - b.total_len) (length xs)
    then (negsuc 0, b)
    else add_on b b.rest xs

-- evbuffer_add_reference: the chain is the client's memory, and read-only. The size of the
-- bookkeeping that is allocated is that of two pointers.
unfoldable pub add_reference : Buffer → List ℕ → ℤ × Buffer
add_reference b xs = elim (chain_new b.memory 16) [
  | none ↦ (negsuc 0, b)
  | some c ↦
      let c' = record c { buffer_len = length xs; bytes = xs; is_immutable = true } in
      let b' = chain_insert b c' in
      let b'' = record b' { n_add_for_cb = add_size b'.n_add_for_cb (length xs) } in
      if b.freeze_end then (negsuc 0, b) else (pos 0, invoke_callbacks b'')
]
