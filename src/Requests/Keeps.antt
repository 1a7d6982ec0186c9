-- ===== src/Requests/Keeps.antt =====
-- The requests of YServerCore/PacketProcess.cpp on whatever packets: none of them loses a session.
use yserver_core.Common.{
  ℕ, ◌^◌, ◌<◌, ◌≡◌, refl, sym, List, ◌++◌, some, Bool, true, false, Result, ok, Error, ◌>>=◌, ◌>>◌,
  or_fail, require, not, subst,
}
use yserver_core.CString.{c_string, codes}
use yserver_core.Packet.{UserInfo, set_header, set_type, set_id, s_login, s_move}
use yserver_core.Handlers.{Request}
use yserver_core.Session.{Session, send_packet, set_user_info, set_session_state}
use yserver_core.SessionManager.{all_message}
use yserver_core.SessionManager.Broadcast.{Alive}
use yserver_core.SessionManager.Replace.{with_session}
use yserver_core.SessionManager.Heard.{Quiet}
use yserver_core.SessionManager.Kept.{
  Ends, Ends-bind, Ends-map, Stays, Kept, HeapKept-refl, HeapKept-store, Kept-Quiet, Kept-trans,
  send_packet-Ends, all_message-Ends,
}
use yserver_core.Database.{
  Mysql, id_of, has_rows, is_valid_id, is_valid_account, create_account, id_text,
}
use yserver_core.Requests.{
  World, Junk, send_to, to_all, reply_account, create_or_refuse, recv_create_account_request,
  log_in, answer_login, recv_login_request, recv_chat_message, recv_move_request, run_request,
}
use yserver_core.Requests.Safe.{
  or_fail-Any, set_header-Any, set_id-Any, id_of-Any, has_rows-Any, is_valid_account-Any,
  create_account-Any,
}
use yserver_core.Packet.Words.{HasWord, user_info_image-HasWord, move_info_image-HasWord}

module _ (db : Mysql) (last_error : Session → ℕ)
    (documented : (s : Session) → last_error s < 2 ^ 31) where
  -- A world whose manager has the sessions of another, and a session to answer.
  abbrev pub KeptFrom : World db → World db → Type 0
  KeptFrom w w' = Kept w.manager w'.manager

  send_to-Ends :
      (p : ℕ) (packet : List ℕ) (w : World db)
      → HasWord packet
      → Alive w.manager.heap p
      → Ends (KeptFrom w) (send_to last_error db p packet w)
  send_to-Ends p packet w has_word a =
      subst (Ends (KeptFrom w)) (sym (at_session a.session a.stored)) (
        Ends-bind (λ o. Stays a.session o.session × (o.closes ≡ false)) (KeptFrom w)
          (send_packet last_error (some packet) a.session) _
          (send_packet-Ends last_error documented packet has_word a.session a.idle)
          (λ o sent. rw (sent.1) (record {
            sessions = refl;
            session_count = refl;
            heap = HeapKept-store w.manager.heap p a.session o.session a.stored (λ _. sent.0);
          })))
    where
      at_session :
          (s : Session)
          → w.manager.heap p ≡ some s
          → send_to last_error db p packet w ≡ (
              send_packet last_error (some packet) s >>= λ o.
              (require (not o.closes) Error.use_after_free
                >> ok (record w { manager = with_session p o.session w.manager })))
      at_session s e = unfold send_to in rw e refl

  to_all-Ends :
      (packet : List ℕ) (w : World db)
      → HasWord packet
      → Quiet w.manager
      → Ends (KeptFrom w) (to_all last_error db packet w)
  unfolding to_all
  to_all-Ends packet w has_word q =
      Ends-bind (Kept w.manager) (KeptFrom w) (all_message last_error packet w.manager) _
        (all_message-Ends last_error documented packet has_word w.manager q) (λ m k. k)

  -- A second call on the world that a first one leaves.
  then-Ends :
      (w : World db) (r : Result (World db)) (f : World db → Result (World db))
      → Ends (KeptFrom w) r
      → ((w' : World db) → KeptFrom w w' → Ends (KeptFrom w') (f w'))
      → Ends (KeptFrom w) (r >>= f)
  then-Ends w r f first second =
      Ends-bind (KeptFrom w) (KeptFrom w) r f first (λ w' k.
        Ends-map (KeptFrom w') (KeptFrom w) (f w') (λ w'' k'. Kept-trans k k') (second w' k))

  reply_account-Ends :
      (j : Junk) (p : ℕ) (success : Bool) (text : List ℕ) (w : World db)
      → Alive w.manager.heap p
      → Ends (KeptFrom w) (reply_account last_error db j p success text w)
  unfolding reply_account
  reply_account-Ends j p success text w a = send_to-Ends p _ w (user_info_image-HasWord _) a

  create_or_refuse-Ends :
      (j : Junk) (p : ℕ) (u : UserInfo) (w : World db) (found : db.Conn × Bool)
      → Alive w.manager.heap p
      → Ends (KeptFrom w) (create_or_refuse last_error db j p u w found)
  unfolding create_or_refuse
  create_or_refuse-Ends j p u w (conn, true) a =
      reply_account-Ends j p false (codes "Already Exist ID") (record w { conn = conn }) a
  create_or_refuse-Ends j p u w (conn, false) a =
      Ends-bind (λ _. Unit {0}) (KeptFrom w) (create_account db u conn) _
        (create_account-Any db u conn)
        (λ made _. reply_account-Ends j p made.1 _ (record w { conn = made.0 }) a)

  log_in-Ends :
      (p : ℕ) (u : UserInfo) (w : World db)
      → Alive w.manager.heap p
      → Ends (KeptFrom w) (log_in last_error db p u w)
  unfolding log_in set_user_info set_session_state
  log_in-Ends p u w a = rw a.stored (record {
    sessions = refl;
    session_count = refl;
    heap = HeapKept-store w.manager.heap p a.session _ a.stored (λ idle. record {
      session_id = refl;
      idle = record { counted = idle.counted; sized = idle.sized };
    });
  })

  answer_login-Ends :
      (p : ℕ) (u : UserInfo) (w : World db) (result : Bool)
      → Quiet w.manager
      → Alive w.manager.heap p
      → Ends (KeptFrom w) (answer_login last_error db p u w result)
  unfolding answer_login
  answer_login-Ends p u w true q a =
      then-Ends w (log_in last_error db p u w) _ (log_in-Ends p u w a)
        (λ w' k. to_all-Ends _ w' (user_info_image-HasWord u) (Kept-Quiet k q))
  answer_login-Ends p u w false q a = send_to-Ends p _ w (user_info_image-HasWord u) a

  -- A request of a session that is alive, over a managed vector of idle sessions.
  pub run_request-Ends :
      (j : Junk) (p : ℕ) (r : Request) (w : World db)
      → Quiet w.manager
      → Alive w.manager.heap p
      → Ends (KeptFrom w) (run_request last_error db j p r w)
  unfolding run_request recv_create_account_request recv_login_request recv_chat_message
      recv_move_request is_valid_id
  run_request-Ends j p (Request.create_account u) w q a =
      Ends-bind (λ _. Unit {0}) (KeptFrom w) (id_of u) _ (id_of-Any u)
        (λ id _.
          Ends-bind (λ _. Unit {0}) (KeptFrom w) (has_rows db (id_text id) w.conn) _
            (has_rows-Any db (id_text id) w.conn)
            (λ found _. create_or_refuse-Ends j p u w found a))
  run_request-Ends j p (Request.login u) w q a =
      Ends-bind (λ _. Unit {0}) (KeptFrom w) (is_valid_account db u w.conn) _
        (is_valid_account-Any db u w.conn)
        (λ checked _.
          Ends-bind (λ _. Unit {0}) (KeptFrom w) (set_header s_login checked.1 _ u.header) _
            (set_header-Any s_login checked.1 _ u.header)
            (λ h _.
              answer_login-Ends p (record u { header = h }) (record w { conn = checked.0 })
                checked.1 q a))
  run_request-Ends j p (Request.chat m) w q a =
      Ends-bind (λ _. Unit {0}) (KeptFrom w)
        (or_fail (c_string (m.id ++ m.message)) Error.out_of_bounds) _
        (or_fail-Any (c_string (m.id ++ m.message)))
        (λ id _.
          Ends-bind (λ _. Unit {0}) (KeptFrom w) (or_fail (c_string m.message) Error.out_of_bounds)
            _ (or_fail-Any (c_string m.message))
            (λ text _. record {
              sessions = refl;
              session_count = refl;
              heap = HeapKept-refl w.manager.heap;
            }))
  run_request-Ends j p (Request.move m) w q a = rw a.stored (
      Ends-bind (λ _. Unit {0}) (KeptFrom w) (id_of a.session.user_info) _
        (id_of-Any a.session.user_info)
        (λ id _.
          Ends-bind (λ _. Unit {0}) (KeptFrom w)
            (set_id id (record m { header = set_type s_move m.header })) _
            (set_id-Any id (record m { header = set_type s_move m.header }))
            (λ moved _. to_all-Ends _ w (move_info_image-HasWord moved) q)))
