-- ===== src/SessionManager.antt =====
-- YServerCore/SessionManager.h: the sessions of the server, as pointers into a heap. A pointer is a
-- number, and a deleted session's pointer finds nothing. `AddSession` and `CloseSession` hold the mutex
-- alone; `AllMessage` shares it with other calls of it, and `HeartBeat` takes none: here each is a call
-- by itself. Calls of `AllMessage` side by side are in Programs.
pub mod Numbering
pub mod Broadcast
pub mod Replace
pub mod Heard
pub mod Kept
use yserver_core.Packet.{new_header}
use yserver_core.Packet.Layout.{header_image}
use yserver_core.Common.{
  StdThread, not_started, stopped, join, ℕ, ◌+◌, ◌-◌, List, [], ◌∷◌, ◌++◌, Option, none, some, Bool,
  true, false, Result, ok, err, Error, ◌>>=◌, ◌>>◌, require, or_fail, ltb, ◌==◌, if◌then◌else◌,
  length, set, last?, drop_last,
}
use yserver_core.Session.{Session, Outcome, send_packet}

abbrev pub Heap : Type 0
Heap = ℕ → Option Session

abbrev pub store : Heap → ℕ → Option Session → Heap
store heap p s q = if p == q then s else heap q

pub record Manager : Type 0 where
  pub heap : Heap
  pub sessions : List ℕ
  pub session_count : ℕ
  pub heart_beat_thread : StdThread
  pub running : Bool

-- The line that starts the thread of `HeartBeat` is commented out.
unfoldable pub new_manager : Heap → Manager
new_manager heap = record {
  heap = heap;
  sessions = [];
  session_count = 0;
  heart_beat_thread = not_started;
  running = true;
}

-- `Get`: the static instance is made by the first call.
unfoldable pub get : Heap → Option Manager → Manager
get heap none = new_manager heap
get heap (some m) = m

-- The destructor: the sessions are deleted behind the join.
unfoldable pub delete_each : List ℕ → Heap → Result Heap
delete_each [] heap = ok heap
delete_each (p ∷ ps) heap =
    or_fail (heap p) Error.use_after_free >>= λ _. delete_each ps (store heap p none)

unfoldable pub destroy_manager : Manager → Result Manager
destroy_manager m = do
  join (stopped m.heart_beat_thread)
  heap ← delete_each m.sessions m.heap
  ok (record m { heap = heap; running = false })

unfoldable pub add_session : ℕ → Manager → Result Manager
add_session p m = do
  s ← or_fail (m.heap p) Error.use_after_free
  ok (record m {
    heap = store m.heap p (some (record s { session_id = m.session_count }));
    sessions = m.sessions ++ p ∷ [];
    session_count = m.session_count + 1;
  })

-- The last session takes the place of the one that is closed, and keeps its number. `back` of an
-- empty vector and an index beyond the end are out of bounds.
unfoldable pub close_session : ℕ → Manager → Result Manager
close_session p m = do
  s ← or_fail (m.heap p) Error.use_after_free
  back ← or_fail (last? m.sessions) Error.out_of_bounds
  require (ltb s.session_id (length m.sessions)) Error.out_of_bounds
  ok (record m {
    heap = store m.heap p none;
    sessions = drop_last (set m.sessions s.session_id back);
    session_count = m.session_count - 1;
  })

-- What a round of `HeartBeat` sends: a new ST_IOHeader, whose padding is what the memory held.
unfoldable pub beat : List ℕ → List ℕ
beat junk = header_image (new_header junk)

module _ (last_error : Session → ℕ) where
  -- The loop of `AllMessage`, under the shared lock: a send that closes its session asks for the
  -- same mutex exclusively.
  unfoldable pub send_each : List ℕ → List ℕ → Heap → Result Heap
  send_each packet [] heap = ok heap
  send_each packet (p ∷ ps) heap = do
    s ← or_fail (heap p) Error.use_after_free
    o ← send_packet last_error (some packet) s
    require (if o.closes then false else true) Error.deadlock
    send_each packet ps (store heap p (some o.session))

  unfoldable pub all_message : List ℕ → Manager → Result Manager
  all_message packet m = do heap ← send_each packet m.sessions m.heap; ok (record m { heap = heap })

  -- A round of `HeartBeat`, behind its sleep, takes no lock: a send that closes its session changes
  -- the vector that the loop goes over.
  -- Each session has a header of its own; `junk` is the padding of each.
  unfoldable pub beat_each : (ℕ → List ℕ) → List ℕ → Heap → Result Heap
  beat_each junk [] heap = ok heap
  beat_each junk (p ∷ ps) heap = do
    s ← or_fail (heap p) Error.use_after_free
    o ← send_packet last_error (some (beat (junk p))) s
    require (if o.closes then false else true) Error.use_after_free
    beat_each junk ps (store heap p (some o.session))

  unfoldable pub heart_beat : (ℕ → List ℕ) → Manager → Result Manager
  heart_beat junk m = do heap ← beat_each junk m.sessions m.heap; ok (record m { heap = heap })
