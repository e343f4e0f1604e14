-- ===== src/EvMap/Tests.antt =====
-- The maps of evmap.c on small examples.
use swift_event.Base.{
  ℕ, inl, inr, refl, true, false, Option, none, some, [], ◌∷◌, ◌==◌, if◌then◌else◌, Bool-cases,
  arith,
}
use swift_event.Base.Int.{pos}
use swift_event.Events.{Events}
use swift_event.EvMap.{EvmapIo, IoMap, make_space, io_add, io_del}
use swift_event.EvMap.FdSets.{fd_sets}
use swift_event.EvMap.Watch.{wanted, IsWatched}
use swift_event.EvMap.Space.{Spaced, make_space-Spaced}
use swift_event.EvMap.Ops.{Listens}
use swift_event.EvMap.IoAdd.{Unlistens, io_add-Listens, io_del-Unlistens}

-- All events want to read.
abbrev reads : ℕ → Events
reads e = record {
  ev_read = true;
  ev_write = false;
  ev_closed = false;
  ev_signal = false;
  ev_persist = true;
  ev_et = false;
  ev_finalize = false;
}

abbrev one_reader : EvmapIo
one_reader = record { events = 7 ∷ []; nread = 1; nwrite = 0; nclose = 0 }

-- The event 7 reads from the descriptor 3.
abbrev entries : ℕ → Option EvmapIo
entries fd = if fd == 3 then some one_reader else none

abbrev reading : IoMap fd_sets
reading = record {
  entries = entries;
  nentries = 32;
  backend = λ fd. wanted (entries fd);
  memory = true;
}

reading-IsWatched : IsWatched reads fd_sets reading
reading-IsWatched = record {
  counted = λ fd. elim (Bool-cases (fd == 3)) [
    | inl at ↦ rw at (record { reads = refl; writes = refl; closes = refl })
    | inr off ↦ rw off tt
  ];
  same = λ fd. refl;
  inside = λ fd out. elim (Bool-cases (fd == 3)) [
    | inl at ↦ absurd (ground arith)
    | inr off ↦ rw off refl
  ];
}

make_space-Spaced_example : Spaced reads fd_sets reading 40 (make_space fd_sets reading 40)
make_space-Spaced_example = make_space-Spaced reads fd_sets reading 40 reading-IsWatched

io_add-Listens_example :
    Listens reads fd_sets reading 40 5 (io_add fd_sets reading (pos 40) 5 (reads 5))
io_add-Listens_example = io_add-Listens reads fd_sets reading 40 5 reading-IsWatched

io_del-Unlistens_example :
    Unlistens reads fd_sets reading 3 7 (io_del fd_sets reading (pos 3) 7 (reads 7))
io_del-Unlistens_example =
    io_del-Unlistens reads fd_sets reading 3 7 reading-IsWatched (omega arith)
