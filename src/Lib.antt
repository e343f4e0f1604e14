-- ===== src/Lib.antt =====
-- A verification library for the C sources of libevent that this repository builds, under
-- Sources/libevent/src and Sources/libevent/include/event2.
--
-- Parts. libevent runs callbacks when descriptors, signals or timers are ready. Timers wait in a
-- heap (minheap-internal.h) that event.c asks for the next timeout. Bytes that are read or to be
-- written wait in evbuffers (buffer.c), strings of bytes kept in a list of chains, which the
-- buffered events, HTTP and the tagged values use. An event base (event.c) keeps which events are
-- inserted, active or waiting for a timeout; its maps (evmap.c) count the events for each descriptor
-- and tell a backend what to watch.
--
-- Files.
--   Base (Base/Tests, Base/Lists, Base/Queues, Base/Int, Base/Bits): Boolean tests, lists with lengths
--     in the native numbers, linked lists of numbered objects, signed integers, and the masks of the C
--     code.
--   Time: `struct timeval` and the macros evutil_timercmp, evutil_timeradd and evutil_timersub of
--     include/event2/util.h. Time/Order has their laws.
--   MinHeap: Sources/libevent/src/minheap-internal.h. The array `s->p` is a function, the index
--     that each event keeps is a function on events, and `unsigned` sums wrap at 2 ^ 32. Each
--     min_heap_x_ is `x`. MinHeap/Index has the invariant of the back pointers, MinHeap/Order the
--     heap order with a hole, MinHeap/Up and MinHeap/Down the two loops, MinHeap/Ops and
--     MinHeap/Remove the operations.
--   Events: `struct event` of include/event2/event_struct.h. The bits of a flag word are the fields of a
--     record, and an event pointer is a number.
--   EvMap: the maps of Sources/libevent/src/evmap.c. evmap_io_add_ and evmap_io_del_ are io_add and
--     io_del, evmap_make_space is make_space, and in EvMap/Signals the evmap_signal_x_ are sig_x. The
--     backend, `struct eventop`, is a record of operations and laws, Eventop; EvMap/FdSets is one.
--     EvMap/Watch says that the backend watches what the listeners want; EvMap/Ops, EvMap/Space and
--     EvMap/IoAdd have the operations.
--   EventBase: the queues of Sources/libevent/src/event.c, where event_queue_x is `x`. What changes in
--     an event is a function on events in the base. event_x_nolock_ is x_nolock, in EventBase/Delete,
--     EventBase/Activate and EventBase/Insert; EventBase/Loop has timeout_next and timeout_process,
--     EventBase/Dispatch has evmap_io_active_, evmap_signal_active_ and event_base_priority_init, and
--     EventBase/Run has what precedes a callback: event_persist_closure, and the removal from the queue.
--     EventBase/Process has the loops over the active events, and EventBase/Serve event_base_loop; what
--     they keep and why they end is in EventBase/Processed, Priorities, ProcessEnds, Breaks, Fuel and
--     Served, with EventBase/HeapSize, EventBase/Kinds and EventBase/StartKinds. A callback, and the
--     dispatch of the backend, are functions from a base to the base after it. The variable ncalls of
--     event_signal_closure, which ev_pncalls points to, is a field of the base.
--     EventBase/Queued and EventBase/Timed are the invariants, EventBase/Frame says what the queues of
--     active events leave alone, and EventBase/Taken and EventBase/Takes what deletions do;
--     EventBase/QueueOps and EventBase/ActiveOps have the queues, and the other files whole
--     operations. EventBase/Reach is the state machine of all of them, EventBase/Promise,
--     EventBase/Certain and EventBase/Timers are about what it promises of timers, EventBase/Samples has small bases, and
--     EventBase/Watching, EventBase/Watched and EventBase/AddWatched join it with EvMap.
--   Buffer: Sources/libevent/src/buffer.c and evbuffer-internal.h. A chain is the size of its
--     memory, the misalignment and the bytes in use; an evbuffer is its chains before and from
--     `*last_with_datap` on, its counters, flags and callbacks, and whether memory is left. Each
--     evbuffer_x is `x`, in Buffer/Write, Buffer/Read and Buffer/Pull. Buffer/Valid has the string
--     of bytes that a buffer stands for and the invariant; the other files are named for the
--     operation that they are about.
--   ByteBuffer: the interface of evbuffers, event2/buffer.h, that other parts use: a string of bytes
--     with operations and their laws. ByteBuffer/Evbuffer fills it with Buffer, for buffers that
--     are valid and not frozen, while memory is left.
--   Tagging: Sources/libevent/src/event_tagging.c, the coding of integers and of tags, and
--     the marshalling of bytes and integers. An evtag_x is evtag_x;
--     the two macros are encode_internal in Tagging and decode_internal in Tagging/Integers, for
--     their two widths, and the buffer is any ByteBuffer. Tagging/Nibbles, Tagging/Coded,
--     Tagging/RoundTrip and Tagging/Reading have the lemmas on them; Tagging/Tags has the tags, with
--     Tagging/TagRoundTrip and Tagging/TagBuffer; Tagging/Marshal has whole tagged values, with
--     Tagging/MarshalRoundTrip and Tagging/IntRoundTrip.
--   RateLimit: Sources/libevent/src/bufferevent_ratelim.c. ev_token_bucket_x_ is bucket_x, and what the
--     code does once for reading and once for writing takes a Way here. A bufferevent is its
--     suspension flags and whether its transport runs (RateLimit/Suspend); RateLimit/Limiting has the
--     limit of a bufferevent, RateLimit/Groups and RateLimit/Membership the groups, RateLimit/Api the
--     functions for each way. RateLimit/Refill, Budget and Config are about buckets; RateLimit/Runs,
--     Paced, Refilled, Configured and Limited about a bufferevent; RateLimit/Spread, Agreement,
--     Joined, Left and Grouped about groups, and RateLimit/Allowance about what may be read at a time.
--
-- Bounds. size_t is 64 bits wide, `unsigned` and `int` 32. The loops of the timer heap run on fuel:
-- the index of the hole for the way up, the number of events for the way down. Both change by at
-- least one in each round, so the fuel is enough. An index is kept in an `int`, so the heap theorems ask for at most
-- 2 ^ 30 events. The doubling of evbuffer_chain_new runs on 54 rounds, enough from 1024 to 2 ^ 63.
--
-- The loop of ENCODE_INT_INTERNAL runs on two rounds for each byte of the number, one for each nibble
-- that it can have. A 32-bit tag takes at most five rounds, and the loop that reads one ends in its
-- sixth.
--
-- timeout_process runs on as many rounds as there are timers on the heap, and each takes one off. The
-- table of descriptors doubles for 31 rounds, enough from 32 entries to beyond INT_MAX / 2. The counts
-- of events of a base are integers without a bound.
--
-- event_process_active and event_base_loop need not end, since a callback can make events active
-- again: they run on fuel and have no result where it runs out. A callback and a dispatch are assumed to
-- change the base by the calls of event.c only, so that its queues stay valid.
--
-- A refill is computed modulo 2 ^ 64 as in the code, and ticks modulo 2 ^ 32. A spending that an
-- `ev_ssize_t` cannot hold is left out, as it is undefined in C. event_add of a refill event works or not
-- as a flag says; the invariant is for where it works.
--
-- Where an event is not on the queue that it is to be taken off, the code ends the program; the model
-- leaves the base as it is. There are no common timeouts, the debug mode is off, and all calls
-- come from the thread of the loop.
--
-- Not modelled. Locks and the notification of other threads, reference counts and the freeing of
-- memory; pinned chains, file segments and multicast; a clock that cannot be read; negative amounts
-- charged to a rate limit, which add to it; what callbacks do, other than that they are called with
-- which numbers; system calls. The other components are listed in the manifest.
pub mod Base
pub mod Time
pub mod MinHeap
pub mod Events
pub mod EvMap
pub mod EventBase
pub mod Buffer
pub mod ByteBuffer
pub mod Tagging
pub mod RateLimit
