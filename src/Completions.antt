-- ===== src/Completions.antt =====
-- `Thread::NetworkProcess` of YServerCore/Thread.cpp: what a worker does with a completion that it
-- takes from the port. The port gives the key of the socket, which is the session's pointer, and the
-- OVERLAPPED of the call that is complete, which is the start of one of the session's two buffers.
pub mod Rounds
pub mod Receives
pub mod Isolation
use yserver_core.Common.{
  ℕ, List, [], ◌∷◌, ◌++◌, Bool, true, false, Option, some, none, Result, ok, Error, ◌>>=◌, or_fail,
  ◌==◌, if◌then◌else◌, length, map,
}
use yserver_core.Framing.{IoUsage, deliver}
use yserver_core.Handlers.{Request}
use yserver_core.Session.{Session, Received, on_recv, on_send}
use yserver_core.SessionManager.{Manager, Heap, store, close_session}

pub data Slot : Type 0 where
  read_slot write_slot : Slot

-- What `GetQueuedCompletionStatus` gives.
pub record Completion : Type 0 where
  pub result : Bool
  pub transfer_size : ℕ
  pub key : ℕ
  pub slot : Slot

abbrev pub usage_of : Slot → Session → IoUsage
usage_of read_slot s = s.read.usage
usage_of write_slot s = s.write.usage

-- The requests that were started, each with the pointer of its session.
abbrev pub Started : Type 0
Started = List (ℕ × Request)

abbrev pub tagged : ℕ → List Request → Started
tagged p requests = map (λ r. (p, r)) requests

-- The switch on the usage; any other usage is left alone.
unfoldable pub by_usage : ℕ → Completion → IoUsage → Session → Manager → Result (Manager × Started)
by_usage fuel c IoUsage.read s m = on_recv fuel c.transfer_size s >>= λ (r : Received).
    ok (record m { heap = store m.heap c.key (some r.session) }, tagged c.key r.requests)
by_usage fuel c IoUsage.write s m =
    if (on_send c.transfer_size s).closes
    then (close_session c.key m >>= λ m'. ok (m', []))
    else ok (m, [])
by_usage fuel c IoUsage.error s m = ok (m, [])

-- One round of the loop: a completion that failed or transferred nothing is skipped.
unfoldable pub network_process : ℕ → Completion → Manager → Result (Manager × Started)
network_process fuel c m =
    if c.transfer_size == 0
    then ok (m, [])
    else if c.result
    then (or_fail (m.heap c.key) Error.use_after_free >>= λ s.
        by_usage fuel c (usage_of c.slot s) s m)
    else ok (m, [])

-- What happens at the sockets: bytes are received, at least one; a peer closes its end; a send of
-- some bytes is complete; a call fails.
pub data Event : Type 0 where
  received : ℕ → ℕ → List ℕ → Event
  disconnected : ℕ → Event
  sent : ℕ → ℕ → Event
  failed : ℕ → Slot → Event

abbrev pub pointer_of : Event → ℕ
pointer_of (received p b bs) = p
pointer_of (disconnected p) = p
pointer_of (sent p n) = p
pointer_of (failed p slot) = p

abbrev pub completion_of : Event → Completion
completion_of (received p b bs) = record {
  result = true;
  transfer_size = length (b ∷ bs);
  key = p;
  slot = read_slot;
}
completion_of (disconnected p) = record {
  result = true;
  transfer_size = 0;
  key = p;
  slot = read_slot;
}
completion_of (sent p n) = record { result = true; transfer_size = n; key = p; slot = write_slot }
completion_of (failed p slot) = record { result = false; transfer_size = 0; key = p; slot = slot }

-- The system's part: received bytes are in the session's buffer.
abbrev pub filled_at : ℕ → List ℕ → Heap → Option Session → Heap
filled_at p chunk heap none = heap
filled_at p chunk heap (some s) = store heap p (some (record s { read = deliver chunk s.read }))

abbrev pub arrived : Event → Heap → Heap
arrived (received p b bs) heap = filled_at p (b ∷ bs) heap (heap p)
arrived (disconnected p) heap = heap
arrived (sent p n) heap = heap
arrived (failed p slot) heap = heap

-- The completions of a list of events, one after the other.
unfoldable pub serve_one : ℕ → Event → Manager → Result (Manager × Started)
serve_one fuel e m = network_process fuel (completion_of e) (record m { heap = arrived e m.heap })

unfoldable pub serve : ℕ → List Event → Manager → Result (Manager × Started)
serve fuel [] m = ok (m, [])
serve fuel (e ∷ es) m = serve_one fuel e m >>= λ (now : Manager × Started).
    serve fuel es now.0 >>= λ (later : Manager × Started). ok (later.0, now.1 ++ later.1)
