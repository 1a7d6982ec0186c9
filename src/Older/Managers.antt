-- ===== src/Older/Managers.antt =====
-- Include/SessionManager.h: the session manager of the older headers, without a lock and a heartbeat.
use yserver_core.Common.{
  ℕ, ◌+◌, ◌-◌, List, [], ◌∷◌, ◌++◌, Option, none, some, Result, ok, Error, ◌>>=◌, ◌>>◌, require,
  or_fail, ltb, ◌==◌, if◌then◌else◌, length, set, last?, drop_last,
}
use yserver_core.Older.Sessions.{Session}

abbrev pub Heap : Type 0
Heap = ℕ → Option Session

abbrev pub store : Heap → ℕ → Option Session → Heap
store heap p s q = if p == q then s else heap q

pub record Manager : Type 0 where
  pub heap : Heap
  pub sessions : List ℕ
  pub session_count : ℕ

unfoldable pub new_manager : Heap → Manager
new_manager heap = record { heap = heap; sessions = []; session_count = 0 }

-- `Get`: the static instance is made by the first call.
unfoldable pub get : Heap → Option Manager → Manager
get heap none = new_manager heap
get heap (some m) = m

unfoldable pub delete_each : List ℕ → Heap → Result Heap
delete_each [] heap = ok heap
delete_each (p ∷ ps) heap =
    or_fail (heap p) Error.use_after_free >>= λ _. delete_each ps (store heap p none)

unfoldable pub destroy_manager : Manager → Result Manager
destroy_manager m = delete_each m.sessions m.heap >>= λ heap. ok (record m { heap = heap })

unfoldable pub add_session : ℕ → Manager → Result Manager
add_session p m = or_fail (m.heap p) Error.use_after_free >>= λ s. ok (record m {
  heap = store m.heap p (some (record s { session_id = m.session_count }));
  sessions = m.sessions ++ p ∷ [];
  session_count = m.session_count + 1;
})

unfoldable pub close_session : ℕ → Manager → Result Manager
close_session p m = do
  s ← or_fail (m.heap p) Error.use_after_free
  back ← or_fail (last? m.sessions) Error.out_of_bounds
  require (ltb s.session_id (length m.sessions)) Error.out_of_bounds
  ok (record m {
    heap = store m.heap p none;
    sessions = drop_last (set m.sessions s.session_id back);
    session_count = m.session_count - 1;
  })

-- `Session::SendPacket` is only declared: what it does to a session is an argument.
unfoldable pub send_each :
    (List ℕ → Session → Result Session) → List ℕ → List ℕ → Heap → Result Heap
send_each send_packet msg [] heap = ok heap
send_each send_packet msg (p ∷ ps) heap = do
  s ← or_fail (heap p) Error.use_after_free
  s' ← send_packet msg s
  send_each send_packet msg ps (store heap p (some s'))

unfoldable pub all_message : (List ℕ → Session → Result Session) → List ℕ → Manager → Result Manager
all_message send_packet msg m =
    send_each send_packet msg m.sessions m.heap >>= λ heap. ok (record m { heap = heap })
