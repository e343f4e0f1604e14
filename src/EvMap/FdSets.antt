-- ===== src/EvMap/FdSets.antt =====
-- A backend that keeps a set for each descriptor, as the descriptor sets of select.c do.
use swift_event.Base.{ℕ, true, false, update, update_at, update_other, ◌≡◌, arith}
use swift_event.EvMap.{Mask, both, without, Eventop}

pub never : {A : Type 0} → true ≡ false → A
never failed = absurd (ground (arith, failed))

abbrev pub fd_sets : Eventop
fd_sets = record {
  State = ℕ → Mask;
  add = λ s fd old events et. (true, update s fd (both old events));
  del = λ s fd old events et. (true, update s fd (without old events));
  interest = λ s fd. s fd;
  add_lem = λ s fd old events et same ok. update_at s fd (both old events);
  add_fails = λ s fd old events et failed. never failed;
  add_others = λ s fd old events et x ne. update_other s fd (both old events) x ne;
  del_lem = λ s fd old events et same ok. update_at s fd (without old events);
  del_others = λ s fd old events et x ne. update_other s fd (without old events) x ne;
}
