-- ===== src/Requests.antt =====
-- The requests of YServerCore/PacketProcess.cpp, which `HandleData` starts on threads of their own.
-- The state is what they share: the session manager, the database connection and the log. A request
-- runs alone here. `log` has the lines of the chat; what the database logs is left out.
pub mod Answers
pub mod Logins
pub mod Accounts
pub mod Moves
pub mod Refines
pub mod Safe
pub mod Keeps
use yserver_core.Common.{
  ℕ, List, [], ◌∷◌, ◌++◌, Option, none, some, Bool, true, false, Result, ok, err, Error, ◌>>=◌,
  ◌>>◌, require, or_fail, if◌then◌else◌, not,
}
use yserver_core.CString.{codes, c_string}
use yserver_core.Packet.{
  Header, UserInfo, ChatMessage, MoveInfo, s_login, s_chat, s_move, new_user_info, set_type,
  set_success, set_literal, set_header, set_id,
}
use yserver_core.Packet.Layout.{user_info_image, move_info_image}
use yserver_core.Session.{
  Session, Outcome, SessionState, send_packet, set_user_info, set_session_state,
}
use yserver_core.SessionManager.{Heap, Manager, store, all_message}
use yserver_core.Database.{Mysql, id_of, is_valid_id, is_valid_account, create_account}
use yserver_core.Handlers.{Request}

pub record World (db : Mysql) : Type 0 where
  pub manager : Manager
  pub conn : db.Conn
  pub log : List (List ℕ)

-- `junk` is the memory of a local ST_UserInfo that is not initialised: padding, id and password.
pub record Junk : Type 0 where
  pub padding : List ℕ
  pub id : List ℕ
  pub pw : List ℕ

module _ (last_error : Session → ℕ) (db : Mysql) where
  -- `session->SendPacket`: a send that closes the session deletes it under its own lock.
  unfoldable pub send_to : ℕ → List ℕ → World db → Result (World db)
  send_to p packet w = do
    s ← or_fail (w.manager.heap p) Error.use_after_free
    o ← send_packet last_error (some packet) s
    require (not o.closes) Error.use_after_free
    ok (record w { manager = record w.manager { heap = store w.manager.heap p (some o.session) } })

  unfoldable pub to_all : List ℕ → World db → Result (World db)
  to_all packet w = do m ← all_message last_error packet w.manager; ok (record w { manager = m })

  -- The header's flag, then `SetHeader` of a literal, and the answer.
  unfoldable pub reply_account : Junk → ℕ → Bool → List ℕ → World db → Result (World db)
  reply_account junk p success text w =
      let packet = new_user_info junk.padding junk.id junk.pw in
      let h = set_literal text (set_success success packet.header) in
      send_to p (user_info_image (record packet { header = h })) w

  unfoldable pub create_or_refuse :
      Junk → ℕ → UserInfo → World db → db.Conn × Bool → Result (World db)
  create_or_refuse junk p userinfo w (conn, true) =
      reply_account junk p false (codes "Already Exist ID") (record w { conn = conn })
  create_or_refuse junk p userinfo w (conn, false) = do
    (conn', result) ← create_account db userinfo conn
    reply_account junk p result (if result then codes "Success" else codes "Unknown Error")
        (record w { conn = conn' })

  unfoldable pub recv_create_account_request : Junk → ℕ → UserInfo → World db → Result (World db)
  recv_create_account_request junk p userinfo w = do
    id ← id_of userinfo
    found ← is_valid_id db id w.conn
    create_or_refuse junk p userinfo w found

  -- `session->SetUserInfo` and `session->SetSessionState`.
  unfoldable pub log_in : ℕ → UserInfo → World db → Result (World db)
  log_in p userinfo w = do
    s ← or_fail (w.manager.heap p) Error.use_after_free
    ok (record w {
      manager = record w.manager {
        heap =
            store w.manager.heap p
              (some (set_session_state SessionState.login (set_user_info userinfo s)));
      };
    })

  unfoldable pub answer_login : ℕ → UserInfo → World db → Bool → Result (World db)
  answer_login p userinfo w true = log_in p userinfo w >>= to_all (user_info_image userinfo)
  answer_login p userinfo w false = send_to p (user_info_image userinfo) w

  unfoldable pub recv_login_request : ℕ → UserInfo → World db → Result (World db)
  recv_login_request p userinfo w = do
    (conn, result) ← is_valid_account db userinfo w.conn
    h ← set_header s_login result (if result then [] else codes "Unkwon Account") userinfo.header
    answer_login p (record userinfo { header = h }) (record w { conn = conn }) result

  -- The message is only printed: the broadcast is commented out.
  unfoldable pub recv_chat_message : ℕ → ChatMessage → World db → Result (World db)
  recv_chat_message p msg w = do
    id ← or_fail (c_string (msg.id ++ msg.message)) Error.out_of_bounds
    message ← or_fail (c_string msg.message) Error.out_of_bounds
    ok (record w { log = w.log ++ (id ++ (codes " : " ++ message)) ∷ [] })

  -- The id is that of the session's last login.
  unfoldable pub recv_move_request : ℕ → MoveInfo → World db → Result (World db)
  recv_move_request p moveinfo w = do
    s ← or_fail (w.manager.heap p) Error.use_after_free
    id ← id_of s.user_info
    moved ← set_id id (record moveinfo { header = set_type s_move moveinfo.header })
    to_all (move_info_image moved) w

  -- What `std::async` runs.
  unfoldable pub run_request : Junk → ℕ → Request → World db → Result (World db)
  run_request junk p (Request.create_account u) w = recv_create_account_request junk p u w
  run_request junk p (Request.login u) w = recv_login_request p u w
  run_request junk p (Request.chat m) w = recv_chat_message p m w
  run_request junk p (Request.move m) w = recv_move_request p m w
