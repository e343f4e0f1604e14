-- ===== src/Buffer/Reference.antt =====
-- evbuffer_add_reference appends the client's memory, or does nothing.
use swift_event.Base.{ℕ, ◌+◌, ◌-◌, ◌≤◌, refl, ◌∙◌, true, List, length, arith}
use swift_event.Buffer.{Chain, Buffer, size_max, chain_max, chain_size, add_size, chain_new}
use swift_event.Buffer.Write.{chain_insert, add_reference}
use swift_event.Buffer.Valid.{
  ChainFits, IsValid, SameSettings, chain_insert-contents, chain_insert-IsValid, invoke-IsValid,
  contents-invoke, invoke-SameSettings,
}
use swift_event.Buffer.Alloc.{chain_new-IsNew}
use swift_event.Buffer.Add.{Added, done, refused, Added-if, Added-option, count-IsValid}

chain_insert-SameSettings : (b : Buffer) (c : Chain) → SameSettings b (chain_insert b c)
unfolding chain_insert
chain_insert-SameSettings b c = (refl, refl, refl)

-- evbuffer_add_reference on a valid buffer returns 0 with exactly the given bytes appended and the
-- buffer still valid, or returns -1 with the buffer unchanged, when the new length fits into a size_t
-- and the bytes into a chain.
add_reference-Added :
    (b : Buffer) (xs : List ℕ)
    → IsValid b
    → b.total_len + length xs ≤ size_max
    → length xs ≤ chain_max - chain_size
    → Added b xs (add_reference b xs)
unfolding add_reference
add_reference-Added b xs v small short = Added-option _ (chain_new b.memory 16) refused λ c made.
    Added-if b.freeze_end (λ frozen. refused)
      λ thawed.
        let c' = record c { buffer_len = length xs; bytes = xs; is_immutable = true } in
        let fits : ChainFits c' =
          (omega (arith, (chain_new-IsNew b.memory 16 c made).start), short) in
        let b' = chain_insert b c' in
        let n = add_size b'.n_add_for_cb (length xs) in
        let b'' = record b' { n_add_for_cb = n } in
        let (s, e, m) = invoke-SameSettings b'' in
        let (s', e', m') = chain_insert-SameSettings b c' in
        done (invoke-IsValid b'' (count-IsValid b' n (chain_insert-IsValid b c' v fits small)))
          (contents-invoke b'' ∙ chain_insert-contents b c' v.last) (s ∙ s', e ∙ e', m ∙ m')
