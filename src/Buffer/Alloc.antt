-- ===== src/Buffer/Alloc.antt =====
-- evbuffer_chain_new gives a chain with room for what was asked.
use native.Mathlib.Nat.{pow-suc}
use swift_event.Base.{
  ℕ, zero, suc, ◌+◌, ◌-◌, ◌*◌, ◌/◌, ◌^◌, ◌≤◌, ◌<◌, ◌≡◌, max, true, false, some, ap, inl, inr, Bool,
  [], arith, ltb, Bool-cases,
}
use swift_event.Buffer.{
  Chain, chain_new, chain_max, chain_size, min_buffer_size, allocation, double_until,
}
use swift_event.Buffer.Valid.{ChainFits}

double_until-ge : (fuel size a : ℕ) → size ≤ a * 2 ^ fuel → size ≤ double_until fuel size a
unfolding double_until
double_until-ge zero size a h = omega arith
double_until-ge (suc fuel) size a h =
    ground (arith, double_until-ge fuel size (a * 2) (omega (arith, ap (◌*◌ a) (pow-suc 2 fuel))))

double_until-le : (fuel size a : ℕ) → double_until fuel size a ≤ max a (2 * size)
unfolding double_until
double_until-le zero size a = omega arith
double_until-le (suc fuel) size a = ground (arith, double_until-le fuel size (a * 2))

-- The allocation holds `size` bytes; where it is rounded up it stays below EVBUFFER_CHAIN_MAX.
allocation_bounds :
    (size : ℕ)
    → 0 < size
    → size ≤ chain_max
    → (size ≤ allocation size) × (allocation size ≤ chain_max)
unfolding allocation
allocation_bounds size pos h = elim (Bool-cases (ltb size (chain_max / 2))) [
  | inl small ↦ rw small (
    double_until-ge 54 size min_buffer_size (ground arith),
    ground (arith, double_until-le 54 size min_buffer_size),
  )
  | inr large ↦ rw large (omega arith, h)
]

-- What a new chain is.
pub record IsNew (size : ℕ) (c : Chain) : Type 0 where
  pub fits : ChainFits c
  pub room : size ≤ c.buffer_len
  pub start : c.misalign ≡ 0
  pub none : c.bytes ≡ []
  pub writable : c.is_immutable ≡ false

-- A chain that evbuffer_chain_new returns is empty and writable, starts at its memory, and has room
-- for the size asked for, within EVBUFFER_CHAIN_MAX.
pub chain_new-IsNew :
    (memory : Bool) (size : ℕ) (c : Chain) → chain_new memory size ≡ some c → IsNew size c
unfolding chain_new
chain_new-IsNew memory size c e = ground (arith, allocation_bounds (size + chain_size))

pub chain_new-ok :
    (size : ℕ) → size ≤ chain_max - chain_size → (c : Chain) × (chain_new true size ≡ some c)
unfolding chain_new
chain_new-ok size h = (
  record {
    buffer_len = allocation (size + chain_size) - chain_size;
    misalign = 0;
    bytes = [];
    is_immutable = false;
  },
  ground arith,
)
