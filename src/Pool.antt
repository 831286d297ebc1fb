-- ===== src/Pool.antt =====
-- internal/streampool (streampool.go, segmenter_pool.go, segmenter.go, client_reader.go): clients that
-- ask for one stream share a segmenter. An action is one step of a client's GetReader, of its Close, of
-- the goroutine runSegmenter or of Stop; `step` gives the state after it, or `none` where it is not
-- enabled. A segmenter is known by its place in the list of all that were ever made, and a semaphore
-- by its number; a request without one has `none`. The external process that fills the segments and
-- the waiting for its files are the actions `become_ready` and `process_ends`. A client count stops at
-- 0 here, where the code's would go on below. The streams of bytes and the directories are left out.
pub mod Actions
pub mod Permits
pub mod Updates
pub mod Balance
pub mod Steps
pub mod Moves
pub mod Kept
pub mod Safety
pub mod Abandoned
pub mod Stuck
pub mod Counts
pub mod Known
pub mod Counted
pub mod Clients
pub mod Tests
use majmun.Base.{ℕ, zero, suc, ◌-◌, ◌+◌, Bool, true, false, Option, none, some, List, [], ◌∷◌, ◌++◌}
use majmun.Base.Tests.{ltb, leb, ◌==◌, if◌then◌else◌}
use majmun.Base.Lists.{length, nth, modify_at}
use majmun.Base.Text.{Text}
use majmun.Base.Maps.{Map, lookup, insert, delete}

-- The channel `ready` with `start_err`.
pub data Ready : Type 0 where
  not_ready started start_failed : Ready

-- Where runSegmenter is: not called, in seg.start, waiting for the clients to go, past the release of
-- the semaphore, past the removal from the pool.
pub data RunState : Type 0 where
  unstarted running draining released ended : RunState

pub record Segmenter : Type 0 where
  pub stream_key : Text
  pub semaphore : Option ℕ
  pub client_count : ℕ
  pub empty_closed : Bool
  pub ready : Ready
  pub cancelled : Bool
  pub run : RunState

-- Where the call of GetReader is, with its segmenter.
pub data Phase : Type 0 where
  idle failed finished : Phase
  acquiring joining waiting reading : ℕ → Phase

pub record Pool : Type 0 where
  pub segmenters : Map ℕ
  pub made : List Segmenter
  pub free : ℕ → ℕ
  pub phase : ℕ → Phase

unfoldable pub new_segmenter : Text → Option ℕ → Segmenter
new_segmenter key semaphore = record {
  stream_key = key;
  semaphore = semaphore;
  client_count = 1;
  empty_closed = false;
  ready = not_ready;
  cancelled = false;
  run = unstarted;
}

unfoldable pub notify_empty : Segmenter → Segmenter
notify_empty s = record s { empty_closed = true }

unfoldable pub add_client : Segmenter → Segmenter
add_client s = record s { client_count = s.client_count + 1 }

unfoldable pub remove_client : Segmenter → Segmenter
unfolding notify_empty
remove_client s =
    let s' = record s { client_count = s.client_count - 1 } in
    if leb s.client_count 1 then notify_empty s' else s'

unfoldable pub stop : Segmenter → Segmenter
unfolding notify_empty
stop s = notify_empty (record s { cancelled = true })

-- setReady takes effect once.
unfoldable pub set_ready : Ready → Segmenter → Segmenter
set_ready r s = elim s.ready [ not_ready ↦ record s { ready = r } | started ↦ s | start_failed ↦ s ]

unfoldable pub set_run : RunState → Segmenter → Segmenter
set_run r s = record s { run = r }

unfoldable pub set_phase : ℕ → Phase → Pool → Pool
set_phase c ph p = record p { phase = λ d. if c == d then ph else p.phase d }

unfoldable pub at_segmenter : ℕ → (Segmenter → Segmenter) → Pool → Pool
at_segmenter i f p = record p { made = modify_at i f p.made }

-- segmenterPool.remove.
unfoldable pub remove : Text → Pool → Pool
unfolding at_segmenter stop
remove key p = elim (lookup key p.segmenters) [
  | none ↦ p
  | some i ↦ at_segmenter i stop (record p { segmenters = delete key p.segmenters })
]

unfoldable pub stop_each : Map ℕ → Pool → Pool
unfolding at_segmenter stop
stop_each [] p = p
stop_each ((k, i) ∷ m) p = stop_each m (at_segmenter i stop p)

unfoldable pub stop_all : Pool → Pool
unfolding stop_each
stop_all p = stop_each p.segmenters (record p { segmenters = [] })

-- segmenterPool.getOrCreate, and the phase that it leads to.
unfoldable pub get_or_create : ℕ → Text → Option ℕ → Pool → Pool
unfolding set_phase new_segmenter
get_or_create c key semaphore p = elim (lookup key p.segmenters) [
  | some i ↦ set_phase c (joining i) p
  | none ↦ set_phase c (acquiring (length p.made)) (record p {
    segmenters = insert key (length p.made) p.segmenters;
    made = p.made ++ new_segmenter key semaphore ∷ [];
  })
]

-- A permit, if the semaphore has one.
unfoldable pub acquire : Option ℕ → (ℕ → ℕ) → Option (ℕ → ℕ)
acquire none free = some free
acquire (some q) free =
    if ltb 0 (free q) then some (λ r. if q == r then free r - 1 else free r) else none

unfoldable pub release : Option ℕ → (ℕ → ℕ) → ℕ → ℕ
release none free = free
release (some q) free = λ r. if q == r then free r + 1 else free r
