-- ===== src/Buffer.antt =====
-- The evbuffer of Sources/libevent/src/buffer.c and evbuffer-internal.h: a list of chunks of memory,
-- the chains, that hold one string of bytes. This file has the data and the helpers that the
-- operations share.
pub mod Write
pub mod Read
pub mod Pull
pub mod Valid
pub mod Alloc
pub mod Grown
pub mod Add
pub mod AddSucceeds
pub mod Reference
pub mod Drain
pub mod Taken
pub mod Unlink
pub mod Pullup
pub mod PullupSucceeds
mod Tests
use swift_event.Base.{
  ℕ, zero, suc, ◌+◌, ◌-◌, ◌*◌, ◌/◌, ◌%◌, Bool, true, false, ◌&&◌, ◌||◌, not, Option, none, some,
  List, [], ◌∷◌, ◌++◌, ltb, leb, ◌==◌, if◌then◌else◌, length,
}

-- 64-bit limits: EV_SIZE_MAX, and EVBUFFER_CHAIN_MAX, which is EV_SSIZE_MAX.
abbrev pub size_max : ℕ
size_max = 18446744073709551615

abbrev pub chain_max : ℕ
chain_max = 9223372036854775807

-- EVBUFFER_CHAIN_SIZE and MIN_BUFFER_SIZE, for 64-bit pointers
abbrev pub chain_size : ℕ
chain_size = 48

abbrev pub min_buffer_size : ℕ
min_buffer_size = 1024

-- size_t subtraction wraps.
abbrev pub sub_size : ℕ → ℕ → ℕ
sub_size a b = (a + 18446744073709551616 - b) % 18446744073709551616

abbrev pub add_size : ℕ → ℕ → ℕ
add_size a b = (a + b) % 18446744073709551616

-- `struct evbuffer_chain`: `bytes` are the `off` bytes from `buffer + misalign` on; the rest of the
-- memory is never read. No chain is pinned: only the IOCP files, which are not shipped, pin one.
pub record Chain : Type 0 where
  pub buffer_len : ℕ
  pub misalign : ℕ
  pub bytes : List ℕ
  pub is_immutable : Bool

abbrev pub off : Chain → ℕ
off c = length c.bytes

-- CHAIN_SPACE_LEN
abbrev pub space_len : Chain → ℕ
space_len c = if c.is_immutable then 0 else sub_size c.buffer_len (c.misalign + off c)

-- `struct evbuffer_cb_entry`; `cb` stands for the function and its argument.
pub record CbEntry : Type 0 where
  pub cb : ℕ
  pub enabled : Bool
  pub nodefer : Bool

-- A call of a callback with the `struct evbuffer_cb_info` that it is given.
pub record CbCall : Type 0 where
  pub cb : ℕ
  pub orig_size : ℕ
  pub n_added : ℕ
  pub n_deleted : ℕ

-- `struct evbuffer`. The chains are `before ++ rest`: `last_with_datap` is the link behind the last
-- chain of `before` (`&buf->first` if there is none), so `*last_with_datap` is the head of `rest`.
-- `memory` tells whether mm_malloc succeeds, `calls` are the callback calls made so far.
pub record Buffer : Type 0 where
  pub before : List Chain
  pub rest : List Chain
  pub total_len : ℕ
  pub n_add_for_cb : ℕ
  pub n_del_for_cb : ℕ
  pub freeze_start : Bool
  pub freeze_end : Bool
  pub deferred_cbs : Bool
  pub scheduled : Bool
  pub callbacks : List CbEntry
  pub calls : List CbCall
  pub memory : Bool

-- evbuffer_new
abbrev pub new : Bool → Buffer
new memory = record {
  before = [];
  rest = [];
  total_len = 0;
  n_add_for_cb = 0;
  n_del_for_cb = 0;
  freeze_start = false;
  freeze_end = false;
  deferred_cbs = false;
  scheduled = false;
  callbacks = [];
  calls = [];
  memory = memory;
}

abbrev pub get_length : Buffer → ℕ
get_length b = b.total_len

-- `while (to_alloc < size) to_alloc <<= 1;` doubles at most 54 times below EVBUFFER_CHAIN_MAX / 2.
unfoldable pub double_until : ℕ → ℕ → ℕ → ℕ
double_until zero size to_alloc = to_alloc
double_until (suc fuel) size to_alloc =
    let more = double_until fuel size (to_alloc * 2) in if ltb to_alloc size then more else to_alloc

unfoldable pub allocation : ℕ → ℕ
allocation size = if ltb size (chain_max / 2) then double_until 54 size min_buffer_size else size

-- evbuffer_chain_new
unfoldable pub chain_new : Bool → ℕ → Option Chain
chain_new memory size =
    if ltb (chain_max - chain_size) size || not memory
    then none
    else some (record {
      buffer_len = allocation (size + chain_size) - chain_size;
      misalign = 0;
      bytes = [];
      is_immutable = false;
    })

-- evbuffer_freeze and evbuffer_unfreeze
abbrev pub set_freeze : Bool → Bool → Buffer → Buffer
set_freeze true frozen b = record b { freeze_start = frozen }
set_freeze false frozen b = record b { freeze_end = frozen }

-- ZERO_CHAIN
abbrev pub zero_chain : Buffer → Buffer
zero_chain b = record b { before = []; rest = []; total_len = 0 }

-- The calls of the loop of evbuffer_run_callbacks. The bodies of callbacks are the client's; they
-- are taken to leave the buffer alone.
unfoldable pub callback_calls : Bool → Bool → ℕ → ℕ → ℕ → List CbEntry → List CbCall
callback_calls running_deferred deferred orig added deleted [] = []
callback_calls running_deferred deferred orig added deleted (e ∷ es) =
    let more = callback_calls running_deferred deferred orig added deleted es in
    let runs = if running_deferred then not e.nodefer else not deferred || e.nodefer in
    if e.enabled && runs
    then record { cb = e.cb; orig_size = orig; n_added = added; n_deleted = deleted } ∷ more
    else more

-- evbuffer_run_callbacks
unfoldable pub run_callbacks : Bool → Buffer → Buffer
run_callbacks running_deferred b = run b.callbacks
  where
    run : List CbEntry → Buffer
    run [] = record b { n_add_for_cb = 0; n_del_for_cb = 0 }
    run (e ∷ es) =
        let orig = sub_size (add_size b.total_len b.n_del_for_cb) b.n_add_for_cb in
        let clear = running_deferred || not b.deferred_cbs in
        let made =
          callback_calls running_deferred b.deferred_cbs orig b.n_add_for_cb b.n_del_for_cb
            (e ∷ es) in
        if b.n_add_for_cb == 0 && b.n_del_for_cb == 0 then b else record b {
          n_add_for_cb = if clear then 0 else b.n_add_for_cb;
          n_del_for_cb = if clear then 0 else b.n_del_for_cb;
          calls = b.calls ++ made;
        }

-- evbuffer_invoke_callbacks_
unfoldable pub invoke_callbacks : Buffer → Buffer
invoke_callbacks b = invoke b.callbacks
  where
    invoke : List CbEntry → Buffer
    invoke [] = record b { n_add_for_cb = 0; n_del_for_cb = 0 }
    invoke (e ∷ es) = run_callbacks false (record b { scheduled = b.scheduled || b.deferred_cbs })
