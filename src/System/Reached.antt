-- ===== src/System/Reached.antt =====
-- What holds of the server in every state that it comes to.
use yserver_core.Common.{
  ℕ, ◌^◌, ◌<◌, ◌≡◌, ◌≢◌, ap, sym, ◌∙◌, [], ◌∷◌, ◌++◌, none, Bool, true, false, Result, ok, err,
  Error, append-nil, append_assoc, List, subst, All-append, inl, inr,
}
use yserver_core.Handlers.{Request}
use yserver_core.Session.{Session}
use yserver_core.SessionManager.{Manager}
use yserver_core.SessionManager.Broadcast.{Alive}
use yserver_core.SessionManager.Heard.{Quiet}
use yserver_core.SessionManager.Kept.{Ends, Ends-ok, Kept, Kept-Quiet, Alive-kept}
use yserver_core.Completions.{Started, pointer_of}
use yserver_core.Database.{Mysql}
use yserver_core.Requests.{World, Junk, run_request}
use yserver_core.Requests.Keeps.{KeptFrom, run_request-Ends}
use yserver_core.Server.{Server, Accepted, accept}
use yserver_core.Server.Accepts.{accept_lem}
use yserver_core.System.{
  System, world_of, Step, accepts, completes, runs, announces, Reach, start, next,
}
use yserver_core.System.Moves.{serve_one-Serves, announce-Kept, Ends-returns}
use yserver_core.System.Pending.{
  Answerable, Answerable-kept, Answerable-one, Answerable-parts, Answerable-others, accepted-Quiet,
  refused-Quiet,
}

-- A managed vector of idle sessions, and every pending request has its session.
pub record IsServing {db : Mysql} (s : System db) : Type 0 where
  pub quiet : Quiet s.server.manager
  pub pending : Answerable s.server.manager.heap s.pending

-- The vector only grows, at its end.
abbrev pub Grows : Manager → Manager → Type 0
Grows m m' = (joined : List ℕ) × (m'.sessions ≡ m.sessions ++ joined)

Kept-Grows : {m m' : Manager} → Kept m m' → Grows m m'
Kept-Grows {m} k = ([], k.sessions ∙ sym (append-nil m.sessions))

module _ (last_error : Session → ℕ) (documented : (s : Session) → last_error s < 2 ^ 31)
    (db : Mysql) (fuel : ℕ) where
  -- What an accept leaves for the pending requests.
  abbrev Welcomes : Server → Started → Server × Bool → Type 0
  Welcomes s pending (s', taken) =
      Quiet s'.manager × Answerable s'.manager.heap pending × Grows s.manager s'.manager

  accept-Welcomes :
      (a : Accepted) (s : Server) (pending : Started)
      → Quiet s.manager
      → Answerable s.manager.heap pending
      → s.manager.heap a.pointer ≡ none
      → Ends (Welcomes s pending) (accept a s)
  accept-Welcomes a s pending q v unused =
      let (s', branches) = accept_lem a s q.managed unused in
      elim branches [
        | inl (_, returns, joins) ↦
            Ends-ok (Welcomes s pending) (s', true) returns
              (
                accepted-Quiet a.pointer s s' q unused joins,
                Answerable-others a.pointer pending unused joins.others v,
                (a.pointer ∷ [], joins.sessions),
              )
        | inr (_, returns, refuses) ↦
            Ends-ok (Welcomes s pending) (s', false) returns
              (
                refused-Quiet a.pointer s s' q unused refuses,
                Answerable-others a.pointer pending unused refuses.others v,
                ([], refuses.sessions ∙ sym (append-nil s.manager.sessions)),
              )
      ]

  Step-IsServing :
      {s s' : System db}
      → IsServing s
      → Step last_error db fuel s s'
      → IsServing s' × Grows s.server.manager s'.server.manager
  Step-IsServing {s} v (accepts a server taken unused e) =
      let k =
        Ends-returns (Welcomes s.server s.pending) (accept a s.server) (server, taken)
          (accept-Welcomes a s.server s.pending v.quiet v.pending unused) e in
      (record { quiet = k.0; pending = k.1 }, k.2)
  Step-IsServing {s} v (completes e place m started at returns) =
      let placed = v.quiet.managed.placed place (pointer_of e) at in
      let (kept, mine) =
        serve_one-Serves fuel e placed.session s.server.manager (m, started) placed.stored
          returns in
      let alive = Alive-kept (pointer_of e) kept.heap (record {
        session = placed.session;
        stored = placed.stored;
        idle = v.quiet.idle place (pointer_of e) placed.session at placed.stored;
      }) in
      (
        record {
          quiet = Kept-Quiet kept v.quiet;
          pending =
              All-append (λ (x : ℕ × Request). Alive m.heap x.0) s.pending started
                (Answerable-kept s.pending kept.heap v.pending)
                (Answerable-one (pointer_of e) started alive mine);
        },
        Kept-Grows kept,
      )
  Step-IsServing {s} v (runs junk before after p r w is returns) =
      let (a, rest) =
        Answerable-parts before p r after (subst (Answerable s.server.manager.heap) is v.pending) in
      let kept =
        Ends-returns (KeptFrom db last_error documented (world_of db s))
          (run_request last_error db junk p r (world_of db s)) w
          (run_request-Ends db last_error documented junk p r (world_of db s) v.quiet a) returns in
      (
        record {
          quiet = Kept-Quiet kept v.quiet;
          pending = Answerable-kept (before ++ after) kept.heap rest;
        },
        Kept-Grows kept,
      )
  Step-IsServing {s} v (announces l text m returns) =
      let kept = announce-Kept last_error l text s.server.manager m documented v.quiet returns in
      (
        record {
          quiet = Kept-Quiet kept v.quiet;
          pending = Answerable-kept s.pending kept.heap v.pending;
        },
        Kept-Grows kept,
      )

  -- From a managed vector of idle sessions, with pending requests whose sessions are there, and
  -- when `WSAGetLastError` gives no negative code: in every state that the server comes to, by
  -- accepts at unused pointers, completions at sessions of the vector, the pending requests in any
  -- order, and messages of the console, each of which returns, the vector is managed, its sessions
  -- are idle, and the session of every pending request is there.
  pub Reach-IsServing :
      {begin s : System db} → IsServing begin → Reach last_error db fuel begin s → IsServing s
  Reach-IsServing v start = v
  Reach-IsServing v (next before step) = (Step-IsServing (Reach-IsServing v before) step).0

  -- In every state that such a server comes to, under the same conditions: the vector is the one it
  -- started with, with more sessions behind it at most. No completion, not even that of a client
  -- that left, no request and no message takes a session out of it.
  pub Reach-Grows :
      {begin s : System db}
      → IsServing begin
      → Reach last_error db fuel begin s
      → Grows begin.server.manager s.server.manager
  Reach-Grows {begin} v start = ([], sym (append-nil begin.server.manager.sessions))
  Reach-Grows {begin} v (next {s = s} before step) =
      let (earlier, e) = Reach-Grows v before in
      let (later, e') = (Step-IsServing (Reach-IsServing v before) step).1 in
      (
        earlier ++ later,
        e' ∙ ap (λ l. l ++ later) e ∙ append_assoc begin.server.manager.sessions earlier later,
      )

  -- In every state that such a server comes to, under the same conditions: a pending request,
  -- whichever is taken and whatever its packet, does not end in a use of a deleted session.
  pub pending-alive :
      {begin s : System db} (junk : Junk) (before after : Started) (p : ℕ) (r : Request)
      → IsServing begin
      → Reach last_error db fuel begin s
      → s.pending ≡ before ++ (p, r) ∷ after
      → run_request last_error db junk p r (world_of db s) ≢ err Error.use_after_free
  pending-alive {s = s} junk before after p r v reached is fails =
      let now = Reach-IsServing v reached in
      let (a, _) =
        Answerable-parts before p r after
          (subst (Answerable s.server.manager.heap) is now.pending) in
      apart (run_request last_error db junk p r (world_of db s))
        (run_request-Ends db last_error documented junk p r (world_of db s) now.quiet a) fails
    where
      apart :
          (k : Result (World db))
          → Ends (KeptFrom db last_error documented (world_of db s)) k
          → k ≢ err Error.use_after_free
      apart (ok w) h e = absurd (cc)
      apart (err fault) h e = h (fault_of e)
        where
          fault_of :
              ◌≡◌ {A = Result (World db)} (err fault) (err Error.use_after_free)
              → fault ≡ Error.use_after_free
          fault_of e = cc
