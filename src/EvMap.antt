-- ===== src/EvMap.antt =====
-- The maps from descriptors to events of Sources/libevent/src/evmap.c. They count the events that wait
-- for a descriptor, and tell the backend when the first one comes and when the last one goes.
pub mod Watch
pub mod Ops
pub mod Space
pub mod IoAdd
pub mod Signals
pub mod FdSets
mod Tests
use swift_event.Base.{
  ℕ, zero, suc, ◌+◌, ◌-◌, ◌*◌, Bool, true, false, not, ◌&&◌, ◌||◌, Option, none, some, List, [],
  ◌∷◌, ltb, leb, ◌==◌, if◌then◌else◌, update, to_ℕ, remove_first, ◌≡◌, ◌≢◌,
}
use swift_event.Base.Int.{ℤ, pos, negsuc}
use swift_event.Events.{Events}

-- A set of EV_READ, EV_WRITE and EV_CLOSED
pub record Mask : Type 0 where
  pub read : Bool
  pub write : Bool
  pub closed : Bool

abbrev pub is_some_mask : Mask → Bool
is_some_mask m = m.read || (m.write || m.closed)

abbrev pub both : Mask → Mask → Mask
both m n = record {
  read = m.read || n.read;
  write = m.write || n.write;
  closed = m.closed || n.closed;
}

abbrev pub without : Mask → Mask → Mask
without m n = record {
  read = m.read && not n.read;
  write = m.write && not n.write;
  closed = m.closed && not n.closed;
}

-- `struct eventop` of event-internal.h: `add` and `del` of a backend tell whether they succeed.
-- `interest` is what the backend watches a descriptor for. The laws are the comments on `add` and
-- `del`, with an `old` that names what was enabled.
pub record Eventop : Type 1 where
  pub State : Type 0
  pub add : State → ℕ → Mask → Mask → Bool → Bool × State
  pub del : State → ℕ → Mask → Mask → Bool → Bool × State
  pub interest : State → ℕ → Mask
  pub add_lem :
      (s : State) (fd : ℕ) (old events : Mask) (et : Bool)
      → interest s fd ≡ old
      → (add s fd old events et).0 ≡ true
      → interest (add s fd old events et).1 fd ≡ both old events
  pub add_fails :
      (s : State) (fd : ℕ) (old events : Mask) (et : Bool)
      → (add s fd old events et).0 ≡ false
      → interest (add s fd old events et).1 fd ≡ interest s fd
  pub add_others :
      (s : State) (fd : ℕ) (old events : Mask) (et : Bool) (fd' : ℕ)
      → fd' ≢ fd
      → interest (add s fd old events et).1 fd' ≡ interest s fd'
  pub del_lem :
      (s : State) (fd : ℕ) (old events : Mask) (et : Bool)
      → interest s fd ≡ old
      → (del s fd old events et).0 ≡ true
      → interest (del s fd old events et).1 fd ≡ without old events
  pub del_others :
      (s : State) (fd : ℕ) (old events : Mask) (et : Bool) (fd' : ℕ)
      → fd' ≢ fd
      → interest (del s fd old events et).1 fd' ≡ interest s fd'

-- `struct evmap_io`: the counts are 16 bits wide.
pub record EvmapIo : Type 0 where
  pub events : List ℕ
  pub nread : ℕ
  pub nwrite : ℕ
  pub nclose : ℕ

-- evmap_io_init
abbrev pub io_init : EvmapIo
io_init = record { events = []; nread = 0; nwrite = 0; nclose = 0 }

-- `old` of evmap_io_add_ and evmap_io_del_
abbrev pub watched : EvmapIo → Mask
watched c = record {
  read = not (c.nread == 0);
  write = not (c.nwrite == 0);
  closed = not (c.nclose == 0);
}

-- `while (nentries <= slot) nentries <<= 1;` doubles at most 26 times from 32 on below INT_MAX / 2.
unfoldable pub double_entries : ℕ → ℕ → ℕ → ℕ
double_entries zero slot nentries = nentries
double_entries (suc fuel) slot nentries =
    let more = double_entries fuel slot (nentries * 2) in
    if leb nentries slot then more else nentries

module _ (E : Eventop) where
  -- `struct event_io_map`, with the state of the backend, and whether memory can be allocated
  pub record IoMap : Type 0 where
    pub entries : ℕ → Option EvmapIo
    pub nentries : ℕ
    pub backend : E.State
    pub memory : Bool

  -- evmap_make_space for pointers of 8 bytes: whether it succeeds. INT_MAX is 2147483647.
  unfoldable pub make_space : IoMap → ℕ → Bool × IoMap
  make_space m slot =
      let n = double_entries 31 slot (if m.nentries == 0 then 32 else m.nentries) in
      if not (leb m.nentries slot)
      then (true, m)
      else if ltb 1073741823 slot || (ltb 268435455 n || not m.memory)
      then (false, m)
      else (
        true,
        record m { nentries = n; entries = λ i. if ltb i m.nentries then m.entries i else none },
      )

  abbrev pub store_io : IoMap → ℕ → EvmapIo → IoMap
  store_io m fd c = record m { entries = update m.entries fd (some c) }

  -- What the backend has to be asked for: the events whose count is 1 after ++, or 0 after --
  abbrev pub gained : EvmapIo → Events → Mask
  gained c ev = record {
    read = ev.ev_read && c.nread == 0;
    write = ev.ev_write && c.nwrite == 0;
    closed = ev.ev_closed && c.nclose == 0;
  }

  abbrev pub lost : EvmapIo → Events → Mask
  lost c ev = record {
    read = ev.ev_read && c.nread == 1;
    write = ev.ev_write && c.nwrite == 1;
    closed = ev.ev_closed && c.nclose == 1;
  }

  abbrev pub listen : EvmapIo → ℕ → Events → EvmapIo
  listen c e ev = record {
    events = e ∷ c.events;
    nread = c.nread + to_ℕ ev.ev_read;
    nwrite = c.nwrite + to_ℕ ev.ev_write;
    nclose = c.nclose + to_ℕ ev.ev_closed;
  }

  abbrev pub unlisten : EvmapIo → ℕ → Events → EvmapIo
  unlisten c e ev = record {
    events = remove_first e c.events;
    nread = c.nread - to_ℕ ev.ev_read;
    nwrite = c.nwrite - to_ℕ ev.ev_write;
    nclose = c.nclose - to_ℕ ev.ev_closed;
  }

  -- evmap_io_add_ for the entry `c` of the descriptor
  unfoldable pub io_add_entry : IoMap → ℕ → ℕ → Events → EvmapIo → ℤ × IoMap
  io_add_entry m fd e ev c =
      let c' = listen c e ev in
      let (ok, s) = E.add m.backend fd (watched c) (gained c ev) ev.ev_et in
      if ltb 65535 c'.nread || (ltb 65535 c'.nwrite || ltb 65535 c'.nclose)
      then (negsuc 0, m)
      else if not (is_some_mask (gained c ev))
      then (pos 0, store_io m fd c')
      else if ok
      then (pos 1, store_io (record m { backend = s }) fd c')
      else (negsuc 0, record m { backend = s })

  -- GET_IO_SLOT_AND_CTOR
  unfoldable pub io_add_slot : Option EvmapIo → IoMap → ℕ → ℕ → Events → ℤ × IoMap
  io_add_slot (some c) m fd e ev = io_add_entry m fd e ev c
  io_add_slot none m fd e ev =
      if m.memory then io_add_entry (store_io m fd io_init) fd e ev io_init else (negsuc 0, m)

  unfoldable pub io_add_spaced : Bool × IoMap → ℕ → ℕ → Events → ℤ × IoMap
  io_add_spaced (false, m) fd e ev = (negsuc 0, m)
  io_add_spaced (true, m) fd e ev = io_add_slot (m.entries fd) m fd e ev

  -- evmap_io_add_, with the debug mode off
  unfoldable pub io_add : IoMap → ℤ → ℕ → Events → ℤ × IoMap
  io_add m (negsuc n) e ev = (pos 0, m)
  io_add m (pos fd) e ev = io_add_spaced (make_space m fd) fd e ev

  -- evmap_io_del_ for the entry `c`. A count of 0 is not decremented: there the code aborts.
  unfoldable pub io_del_entry : IoMap → ℕ → ℕ → Events → EvmapIo → ℤ × IoMap
  io_del_entry m fd e ev c =
      let c' = unlisten c e ev in
      let (ok, s) = E.del m.backend fd (watched c) (lost c ev) ev.ev_et in
      if not (is_some_mask (lost c ev))
      then (pos 0, store_io m fd c')
      else (if ok then pos 1 else negsuc 0, store_io (record m { backend = s }) fd c')

  -- Without an entry the code reads through NULL: that is the result -2 here.
  unfoldable pub io_del_slot : Option EvmapIo → IoMap → ℕ → ℕ → Events → ℤ × IoMap
  io_del_slot (some c) m fd e ev = io_del_entry m fd e ev c
  io_del_slot none m fd e ev = (negsuc 1, m)

  -- evmap_io_del_
  unfoldable pub io_del : IoMap → ℤ → ℕ → Events → ℤ × IoMap
  io_del m (negsuc n) e ev = (pos 0, m)
  io_del m (pos fd) e ev =
      if leb m.nentries fd then (negsuc 0, m) else io_del_slot (m.entries fd) m fd e ev
