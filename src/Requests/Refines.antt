-- ===== src/Requests/Refines.antt =====
-- The requests for accounts and logins of YServerCore/PacketProcess.cpp against the store of accounts.
use yserver_core.Common.{
  ℕ, ◌^◌, ◌<◌, ◌≤◌, ◌≡◌, refl, ap, sym, ◌∙◌, List, [], ◌∷◌, some, Bool, true, false, Result, ok,
  ◌>>=◌, take, get_elem?, subst, if◌then◌else◌, Bool-cases, inl, inr, Option-cases,
}
use yserver_core.Packet.{UserInfo, user_info_size}
use yserver_core.Packet.Layout.{IsUserInfo, user_info_image}
use yserver_core.Handlers.{Request, create_account, login}
use yserver_core.Session.{Session, SessionState}
use yserver_core.Session.Send.{Sent}
use yserver_core.SessionManager.{Manager}
use yserver_core.SessionManager.Numbering.{store_self}
use yserver_core.SessionManager.Replace.{with_session, with_session-IsManaged, with_session-AllIdle}
use yserver_core.SessionManager.Heard.{Quiet, Heard, Heard-Quiet}
use yserver_core.Database.{Mysql, is_valid_account}
use yserver_core.Database.Store.{
  Store, IsTable, Names, add, register, register_new, register_known, is_known, opens,
  is_valid_id-Finds, is_valid_account-Finds, create_account-Finds,
}
use yserver_core.Requests.{World, Junk, run_request}
use yserver_core.Requests.Accounts.{
  IsJunk, recv_create_account_request_exists, recv_create_account_request_new,
}
use yserver_core.Requests.Logins.{logged_in, recv_login_request_valid, recv_login_request_invalid}

-- Requests run one after the other, each from a session.
unfoldable pub run_requests :
    (Session → ℕ) → (db : Mysql) → Junk → List (ℕ × Request) → World db → Result (World db)
run_requests last_error db junk [] w = ok w
run_requests last_error db junk ((p, r) ∷ rs) w =
    run_request last_error db junk p r w >>= run_requests last_error db junk rs

-- A request for an account, from a session of the vector.
pub record Asks (sessions : List ℕ) (p : ℕ) (u : UserInfo) (id pw : List ℕ) : Type 0 where
  pub place : ℕ
  pub placed : get_elem? sessions place ≡ some p
  pub is_user_info : IsUserInfo u
  pub small : u.header.size ≤ user_info_size
  pub names : Names u id pw

-- Requests for accounts and logins, and the store before and after them.
pub data Conversation (sessions : List ℕ) : List (ℕ × Request) → Store → Store → Type 0 where
  nothing : {st : Store} → Conversation sessions [] st st
  creates :
      {p : ℕ} {u : UserInfo} {id pw : List ℕ} {rs : List (ℕ × Request)} {st st' : Store}
      → Asks sessions p u id pw
      → Conversation sessions rs (register id pw st) st'
      → Conversation sessions ((p, create_account u) ∷ rs) st st'
  logs_in :
      {p : ℕ} {u : UserInfo} {id pw : List ℕ} {rs : List (ℕ × Request)} {st st' : Store}
      → Asks sessions p u id pw
      → Conversation sessions rs st st'
      → Conversation sessions ((p, login u) ∷ rs) st st'

module _ (last_error : Session → ℕ) (documented : (s : Session) → last_error s < 2 ^ 31)
    (db : Mysql) (t : IsTable db) (j : Junk) (junk : IsJunk j) where
  -- The world after a request, with a store in its database.
  pub record Served (w : World db) (r : Result (World db)) (st : Store) : Type 0 where
    pub world : World db
    pub returns : r ≡ ok world
    pub quiet : Quiet world.manager
    pub sessions : world.manager.sessions ≡ w.manager.sessions
    pub stored : t.table world.conn ≡ st

  -- One session was sent bytes, and the others are as they were.
  Sent-Quiet :
      (m : Manager) (p : ℕ) {s s' : Session} {out : List ℕ}
      → m.heap p ≡ some s
      → Sent s out s'
      → Quiet m
      → Quiet (with_session p s' m)
  Sent-Quiet m p {s} {s'} alive sent q = record {
    managed = with_session-IsManaged p m s s' alive sent.session_id q.managed;
    idle = with_session-AllIdle p m s s' alive sent.idle q.idle;
  }

  creates-Served :
      (p : ℕ) (u : UserInfo) (id pw : List ℕ) (w : World db)
      → Quiet w.manager
      → Asks w.manager.sessions p u id pw
      → Served w
          (run_request last_error db j p (create_account u) w)
          (register id pw (t.table w.conn))
  unfolding run_request
  creates-Served p u id pw w q a =
      let at = q.managed.placed a.place p a.placed in
      let idle = q.idle a.place p at.session a.placed at.stored in
      let (conn, looks, keeps) = is_valid_id-Finds db t id w.conn a.names.id_literal in
      elim (Option-cases (t.table w.conn id)) [
        | inl free ↦
            let (conn', makes, added) =
              create_account-Finds db t u id pw conn a.names
                (ap (λ (st : Store). st id) keeps ∙ free) in
            let (s', returns, answer) =
              recv_create_account_request_new last_error documented db j junk p u w at.session true
                at.stored idle a.names.reads_id (looks ∙ ap (λ o. ok (conn, is_known o)) free)
                makes in
            record {
              world = record w { conn = conn'; manager = with_session p s' w.manager };
              returns = returns;
              quiet = Sent-Quiet w.manager p at.stored answer.sent q;
              sessions = refl;
              stored =
                  added ∙ ap (add id pw) keeps ∙ sym (register_new id pw (t.table w.conn) free);
            }
        | inr (known, taken) ↦
            let (s', returns, answer) =
              recv_create_account_request_exists last_error documented db j junk p u w at.session
                at.stored idle a.names.reads_id (looks ∙ ap (λ o. ok (conn, is_known o)) taken) in
            record {
              world = record w { conn = conn; manager = with_session p s' w.manager };
              returns = returns;
              quiet = Sent-Quiet w.manager p at.stored answer.sent q;
              sessions = refl;
              stored = keeps ∙ sym (register_known id pw known (t.table w.conn) taken);
            }
      ]

  -- A login's answer: the session is logged in if its password opens the account, else as it was.
  pub record LogsIn (w : World db) (p : ℕ) (u : UserInfo) (found : Bool) : Type 0 where
    pub served : Served w (run_request last_error db j p (login u) w) (t.table w.conn)
    pub before : Session
    pub was : w.manager.heap p ≡ some before
    pub after : Session
    pub is_now : served.world.manager.heap p ≡ some after
    pub state : after.session_state ≡ (if found then SessionState.login else before.session_state)

  module _ (p : ℕ) (u : UserInfo) (id pw : List ℕ) (w : World db) (q : Quiet w.manager)
      (a : Asks w.manager.sessions p u id pw) (conn : db.Conn)
      (keeps : t.table conn ≡ t.table w.conn) where
    opens-LogsIn : is_valid_account db u w.conn ≡ ok (conn, true) → LogsIn w p u true
    unfolding run_request
    opens-LogsIn checks =
        let at = q.managed.placed a.place p a.placed in
        let s = at.session in
        let idle = q.idle a.place p s a.placed at.stored in
        let (h, w', returns, _, same, count, now, b) =
          recv_login_request_valid last_error documented db p u w s q.managed q.idle at.stored idle
            a.is_user_info a.small checks in
        let s' : Session = logged_in (record u { header = h }) s in
        let m : Manager = with_session p s' w.manager in
        let heard : Heard (take u.header.size (user_info_image (record u { header = h }))) m
            w'.manager =
          record { sessions = same; session_count = count; reached = b.reached } in
        let logged : Quiet m = record {
          managed = with_session-IsManaged p w.manager s s' at.stored refl q.managed;
          idle =
              with_session-AllIdle p w.manager s s' at.stored
                (record { counted = idle.counted; sized = idle.sized }) q.idle;
        } in
        let mine = heard.reached a.place p s' a.placed (store_self w.manager.heap p (some s')) in
        record {
          served = record {
            world = w';
            returns = returns;
            quiet = Heard-Quiet heard logged;
            sessions = same;
            stored = ap t.table now ∙ keeps;
          };
          before = s;
          was = at.stored;
          after = mine.session;
          is_now = mine.stored;
          state = mine.sent.session_state;
        }

    shut-LogsIn : is_valid_account db u w.conn ≡ ok (conn, false) → LogsIn w p u false
    unfolding run_request
    shut-LogsIn checks =
        let at = q.managed.placed a.place p a.placed in
        let idle = q.idle a.place p at.session a.placed at.stored in
        let (_, s', returns, _, sent) =
          recv_login_request_invalid last_error documented db p u w at.session at.stored idle
            a.is_user_info a.small checks in
        record {
          served = record {
            world = record w { conn = conn; manager = with_session p s' w.manager };
            returns = returns;
            quiet = Sent-Quiet w.manager p at.stored sent q;
            sessions = refl;
            stored = keeps;
          };
          before = at.session;
          was = at.stored;
          after = s';
          is_now = store_self w.manager.heap p (some s');
          state = sent.session_state;
        }

  -- A request for a login, under the same conditions: it returns, the vector stays the same,
  -- managed and idle, the table stays, and the session's state becomes that of a login if the
  -- table's password for the id is the request's; else it is as it was.
  pub login-LogsIn :
      (p : ℕ) (u : UserInfo) (id pw : List ℕ) (w : World db)
      → Quiet w.manager
      → Asks w.manager.sessions p u id pw
      → LogsIn w p u (opens (t.table w.conn id) pw)
  login-LogsIn p u id pw w q a =
      let (conn, checks, keeps) = is_valid_account-Finds db t u id pw w.conn a.names in
      elim (Bool-cases (opens (t.table w.conn id) pw)) [
        | inl found ↦
            subst (LogsIn w p u) (sym found)
              (opens-LogsIn p u id pw w q a conn keeps (checks ∙ ap (λ b. ok (conn, b)) found))
        | inr missing ↦
            subst (LogsIn w p u) (sym missing)
              (shut-LogsIn p u id pw w q a conn keeps (checks ∙ ap (λ b. ok (conn, b)) missing))
      ]

  run_requests_step :
      (p : ℕ) (r : Request) (rs : List (ℕ × Request)) (w w' : World db)
      → run_request last_error db j p r w ≡ ok w'
      → run_requests last_error db j ((p, r) ∷ rs) w ≡ run_requests last_error db j rs w'
  unfolding run_requests
  run_requests_step p r rs w w' returns = rw returns refl

  -- Requests for accounts and logins, one after the other, from sessions of a managed vector of
  -- idle sessions, over a database that keeps the laws of a table, with ids and passwords that are
  -- literals in a statement, packets of the right layout and size, and no negative error code. They
  -- refine a store of passwords: every request returns, the vector stays the same, managed and
  -- idle, and at the end the table holds what it held with the first request for each new id added,
  -- and nothing else.
  pub run_requests-Conversation :
      (sessions : List ℕ) (rs : List (ℕ × Request)) {st st' : Store} (w : World db)
      → Conversation sessions rs st st'
      → w.manager.sessions ≡ sessions
      → Quiet w.manager
      → t.table w.conn ≡ st
      → (w' : World db) × (run_requests last_error db j rs w ≡ ok w')
        × (w'.manager.sessions ≡ sessions)
        × Quiet w'.manager
        × (t.table w'.conn ≡ st')
  run_requests-Conversation sessions [] w nothing same q e =
      (w, unfold run_requests in refl, same, q, e)
  run_requests-Conversation sessions ((p, r) ∷ rs) w (creates {u = u} {id = id} {pw = pw} a rest)
        same q e =
      let now = creates-Served p u id pw w q (subst (λ l. Asks l p u id pw) (sym same) a) in
      let (w', later, same', q', e') =
        run_requests-Conversation sessions rs now.world rest (now.sessions ∙ same) now.quiet
          (now.stored ∙ ap (register id pw) e) in
      (w', run_requests_step p (create_account u) rs w now.world now.returns ∙ later, same', q', e')
  run_requests-Conversation sessions ((p, r) ∷ rs) w (logs_in {u = u} {id = id} {pw = pw} a rest)
        same q e =
      let now = (login-LogsIn p u id pw w q (subst (λ l. Asks l p u id pw) (sym same) a)).served in
      let (w', later, same', q', e') =
        run_requests-Conversation sessions rs now.world rest (now.sessions ∙ same) now.quiet
          (now.stored ∙ e) in
      (w', run_requests_step p (login u) rs w now.world now.returns ∙ later, same', q', e')
