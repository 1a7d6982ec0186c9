-- ===== src/Completions/Rounds.antt =====
-- One completion, as `Thread::NetworkProcess` of YServerCore/Thread.cpp takes it, and what it means
-- for the session that it is for.
use yserver_core.Common.{
  ℕ, suc, ◌≡◌, refl, ap, ◌∙◌, List, [], ◌∷◌, ◌++◌, false, some, ok, >>=-eq-ok, ◌==◌, if◌then◌else◌,
  length, arith, Bool-cases, eq→==, inl, inr,
}
use yserver_core.Framing.{IoUsage, deliver}
use yserver_core.Handlers.{Request}
use yserver_core.Session.{Session, Received, on_recv, on_send, ready_to_recieve}
use yserver_core.Session.Receive.{complete_recv, complete_recvs}
use yserver_core.Session.Hostile.{on_recv_inversion}
use yserver_core.SessionManager.{Manager, Heap, store}
use yserver_core.SessionManager.Numbering.{store_self}
use yserver_core.Completions.{
  Completion, filled_at, Event, received, disconnected, sent, failed, Started, tagged,
  network_process, by_usage, serve_one, completion_of, read_slot, usage_of,
}

-- The buffers have their usages.
pub record IsArmed (s : Session) : Type 0 where
  pub reads : s.read.usage ≡ IoUsage.read
  pub writes : s.write.usage ≡ IoUsage.write

-- The receives of one session among the events, and its requests among those that were started.
abbrev pub chunks_of : ℕ → List Event → List (List ℕ)
chunks_of p [] = []
chunks_of p (received q b bs ∷ es) =
    let rest = chunks_of p es in if q == p then (b ∷ bs) ∷ rest else rest
chunks_of p (disconnected q ∷ es) = chunks_of p es
chunks_of p (sent q n ∷ es) = chunks_of p es
chunks_of p (failed q slot ∷ es) = chunks_of p es

abbrev pub requests_of : ℕ → Started → List Request
requests_of p [] = []
requests_of p ((q, r) ∷ rs) = let rest = requests_of p rs in if q == p then r ∷ rest else rest

pub requests_of-tagged_self :
    (p : ℕ) (now : List Request) (later : Started)
    → requests_of p (tagged p now ++ later) ≡ now ++ requests_of p later
requests_of-tagged_self p [] later = refl
requests_of-tagged_self p (r ∷ now) later =
    rw (eq→== p p refl) (ap (◌∷◌ r) (requests_of-tagged_self p now later))

pub requests_of-tagged_ne :
    (p q : ℕ) (now : List Request) (later : Started)
    → (q == p) ≡ false
    → requests_of p (tagged q now ++ later) ≡ requests_of p later
requests_of-tagged_ne p q [] later ne = refl
requests_of-tagged_ne p q (r ∷ now) later ne = rw ne (requests_of-tagged_ne p q now later ne)

pub complete_recv-IsArmed :
    (fuel : ℕ) (chunk : List ℕ) (s : Session) {r : Received}
    → complete_recv fuel chunk s ≡ ok r
    → IsArmed s
    → IsArmed r.session
unfolding ready_to_recieve
complete_recv-IsArmed fuel chunk s e armed =
    let (io, _, result) = on_recv_inversion fuel chunk s e in
    record {
      reads = ap (λ (r : Received). r.session.read.usage) result;
      writes = ap (λ (r : Received). r.session.write.usage) result ∙ armed.writes;
    }

pub complete_recvs_parts :
    (fuel : ℕ) (chunk : List ℕ) (chunks : List (List ℕ)) (s : Session) {r : Session × List Request}
    → complete_recvs fuel (chunk ∷ chunks) s ≡ ok r
    → (now : Received) × (complete_recv fuel chunk s ≡ ok now)
      × ((later : Session × List Request) × (complete_recvs fuel chunks now.session ≡ ok later))
unfolding complete_recvs
complete_recvs_parts fuel chunk chunks s e =
    let (now, first, rest) = >>=-eq-ok (complete_recv fuel chunk s) _ e in
    let (later, others, _) = >>=-eq-ok (complete_recvs fuel chunks now.session) _ rest in
    (now, first, (later, others))

pub complete_recvs_join :
    (fuel : ℕ) (chunk : List ℕ) (chunks : List (List ℕ)) (s s' : Session) (now : Received)
    (later : List Request)
    → complete_recv fuel chunk s ≡ ok now
    → complete_recvs fuel chunks now.session ≡ ok (s', later)
    → complete_recvs fuel (chunk ∷ chunks) s ≡ ok (s', now.requests ++ later)
unfolding complete_recvs
complete_recvs_join fuel chunk chunks s s' now later first rest = rw (first, rest) refl

-- The heap after a receive of a session.
abbrev pub after_receive : ℕ → List ℕ → Session → Session → Heap → Heap
after_receive q chunk s s' heap =
    store (store heap q (some (record s { read = deliver chunk s.read }))) q (some s')

found_usage :
    (chunk : List ℕ) (s : Session)
    → IsArmed s
    → usage_of read_slot (record s { read = deliver chunk s.read }) ≡ IoUsage.read
unfolding deliver
found_usage chunk s armed = armed.reads

by_usage_read :
    (fuel : ℕ) (c : Completion) (t : Session) (m : Manager) {r : Received}
    → on_recv fuel c.transfer_size t ≡ ok r
    → by_usage fuel c IoUsage.read t m
      ≡ ok (record m { heap = store m.heap c.key (some r.session) }, tagged c.key r.requests)
unfolding by_usage
by_usage_read fuel c t m e = rw e refl

some_bytes : (n : ℕ) → (suc n == 0) ≡ false
some_bytes n = ground arith

process_received :
    (fuel q b : ℕ) (bs : List ℕ) (m : Manager) (t : Session) {r : Received}
    → t.read.usage ≡ IoUsage.read
    → m.heap q ≡ some t
    → on_recv fuel (length (b ∷ bs)) t ≡ ok r
    → network_process fuel (completion_of (received q b bs)) m
      ≡ ok (record m { heap = store m.heap q (some r.session) }, tagged q r.requests)
unfolding network_process
process_received fuel q b bs m t usage alive e =
    rw (some_bytes (length bs), alive)
      (ap (λ u. by_usage fuel (completion_of (received q b bs)) u t m) usage
        ∙ by_usage_read fuel (completion_of (received q b bs)) t m e)

pub serve_one_received :
    (fuel q b : ℕ) (bs : List ℕ) (m : Manager) (s : Session) {r : Received}
    → IsArmed s
    → m.heap q ≡ some s
    → complete_recv fuel (b ∷ bs) s ≡ ok r
    → serve_one fuel (received q b bs) m
      ≡ ok (record m { heap = after_receive q (b ∷ bs) s r.session m.heap }, tagged q r.requests)
unfolding serve_one complete_recv
serve_one_received fuel q b bs m s {r} armed alive e =
    let t : Session = record s { read = deliver (b ∷ bs) s.read } in
    ap
      (λ o.
        network_process fuel (completion_of (received q b bs))
          (record m { heap = filled_at q (b ∷ bs) m.heap o }))
      alive
    ∙ process_received fuel q b bs (record m { heap = store m.heap q (some t) }) t
        (found_usage (b ∷ bs) s armed) (store_self m.heap q (some t)) e

-- Every other event leaves the manager as it is.
pub serve_one_disconnected :
    (fuel q : ℕ) (m : Manager) → serve_one fuel (disconnected q) m ≡ ok (m, [])
unfolding serve_one network_process
serve_one_disconnected fuel q m = refl

pub serve_one_failed :
    (fuel q : ℕ) (slot : _) (m : Manager) → serve_one fuel (failed q slot) m ≡ ok (m, [])
unfolding serve_one network_process
serve_one_failed fuel q slot m = refl

pub serve_one_sent :
    (fuel q n : ℕ) (m : Manager) (s : Session)
    → IsArmed s
    → m.heap q ≡ some s
    → serve_one fuel (sent q n) m ≡ ok (m, [])
unfolding serve_one network_process by_usage on_send
serve_one_sent fuel q n m s armed alive = elim (Bool-cases (n == 0)) [
  | inl none_sent ↦ rw none_sent refl
  | inr some_sent ↦ rw (some_sent, alive, armed.writes, some_sent) refl
]
