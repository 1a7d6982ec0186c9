-- ===== src/Requests/Logins.antt =====
-- `RecvLoginRequest` of YServerCore/PacketProcess.cpp.
use yserver_core.Common.{
  ℕ, ◌^◌, ◌<◌, ◌≤◌, ◌≡◌, refl, ◌∙◌, [], ◌++◌, some, Bool, true, false, ok, err, Error, arith,
  length, take, if◌then◌else◌, subst,
}
use yserver_core.CString.{codes, visible}
use yserver_core.Packet.{
  Header, UserInfo, buf_size, user_info_size, max_result_msg_len, s_login, set_header,
}
use yserver_core.Packet.Layout.{IsUserInfo, user_info_image}
use yserver_core.Packet.RoundTrip.{length-user_info_image}
use yserver_core.Packet.Fields.{HeaderSet, set_header_fits}
use yserver_core.Session.{Session, SessionState, set_user_info, set_session_state}
use yserver_core.Session.Send.{IsIdle, Sent, send_packet_over_read}
use yserver_core.SessionManager.{store, Manager}
use yserver_core.SessionManager.Numbering.{IsManaged}
use yserver_core.SessionManager.Broadcast.{Broadcast, all_message-Broadcast}
use yserver_core.SessionManager.Replace.{
  AllIdle, with_session, with_session-IsManaged, with_session-AllIdle,
}
use yserver_core.Database.{Mysql, is_valid_account}
use yserver_core.Requests.{World, to_all, log_in, answer_login, recv_login_request}
use yserver_core.Requests.Answers.{
  user_info_set, header_of, to_all_ok, send_to_fails, send_user_info,
}

-- The session with the account of its client.
abbrev pub logged_in : UserInfo → Session → Session
logged_in u s = record s { user_info = u; session_state = SessionState.login }

no_text_fits : length (visible []) < max_result_msg_len
unfolding visible
no_text_fits = omega arith

unknown_account_fits : length (visible (codes "Unkwon Account")) < max_result_msg_len
unfolding visible
unknown_account_fits = omega arith

module _ (last_error : Session → ℕ) (documented : (s : Session) → last_error s < 2 ^ 31)
    (db : Mysql) where
  log_in_ok :
      (p : ℕ) (u : UserInfo) (w : World db) (s : Session)
      → w.manager.heap p ≡ some s
      → log_in last_error db p u w
        ≡ ok (record w { manager = with_session p (logged_in u s) w.manager })
  unfolding log_in set_session_state set_user_info
  log_in_ok p u w s e = rw e refl

  login_checked :
      (p : ℕ) (u : UserInfo) (w : World db) {conn : db.Conn} {result : Bool} {h : Header}
      → is_valid_account db u w.conn ≡ ok (conn, result)
      → set_header s_login result (if result then [] else codes "Unkwon Account") u.header ≡ ok h
      → recv_login_request last_error db p u w
        ≡ answer_login last_error db p (record u { header = h }) (record w { conn = conn }) result
  unfolding recv_login_request
  login_checked p u w checked set = rw (checked, set) refl

  answer_valid :
      (p : ℕ) (u : UserInfo) (w : World db) {w1 w2 : World db}
      → log_in last_error db p u w ≡ ok w1
      → to_all last_error db (user_info_image u) w1 ≡ ok w2
      → answer_login last_error db p u w true ≡ ok w2
  unfolding answer_login
  answer_valid p u w logs sends = rw (logs, sends) refl

  -- `RecvLoginRequest` of an account that the database knows, from an idle session, with a header's
  -- size of at most the struct's, a managed vector of idle sessions and no negative error code: it
  -- returns; the header gets type, flag and an empty text, and keeps its size; the session gets the
  -- account and the state; and every session of the vector is sent the first `Size` bytes of the
  -- request with that header: all of it, the client's password included, if the size is the
  -- struct's, and less if it is smaller.
  pub recv_login_request_valid :
      (p : ℕ) (u : UserInfo) (w : World db) (s : Session) {conn : db.Conn}
      → IsManaged w.manager
      → AllIdle w.manager
      → w.manager.heap p ≡ some s
      → IsIdle s
      → IsUserInfo u
      → u.header.size ≤ user_info_size
      → is_valid_account db u w.conn ≡ ok (conn, true)
      → (h : Header) × (w' : World db) × (recv_login_request last_error db p u w ≡ ok w')
        × HeaderSet s_login true [] u.header h
        × (w'.manager.sessions ≡ w.manager.sessions)
        × (w'.manager.session_count ≡ w.manager.session_count)
        × (w'.conn ≡ conn)
        × Broadcast
            (take u.header.size (user_info_image (record u { header = h })))
            w.manager.sessions
            (store w.manager.heap p (some (logged_in (record u { header = h }) s)))
            w'.manager.heap
  recv_login_request_valid p u w s {conn} v idle alive still vu small checked =
      let (h, set, is_set) = set_header_fits s_login true [] u.header vu.is_header no_text_fits in
      let u' : UserInfo = record u { header = h } in
      let vu' = user_info_set u h vu is_set.is_header in
      let size : length (user_info_image u') ≡ user_info_size = length-user_info_image u' vu' in
      let m : Manager = with_session p (logged_in u' s) w.manager in
      let (m', sent, same, count, b) =
        all_message-Broadcast last_error documented (user_info_image u') ((u.id ++ u.pw) ++ []) h
          (header_of u' vu') (omega (arith, is_set.size)) (omega (arith, is_set.size, size)) m
          (with_session-IsManaged p w.manager s (logged_in u' s) alive refl v)
          (with_session-AllIdle p w.manager s (logged_in u' s) alive
            (record { counted = still.counted; sized = still.sized }) idle) in
      let logged : World db = record w { conn = conn; manager = m } in
      (
        h,
        record logged { manager = m' },
        login_checked p u w checked set
            ∙ answer_valid p u' (record w { conn = conn })
                (log_in_ok p u' (record w { conn = conn }) s alive)
                (to_all_ok last_error documented db (user_info_image u') logged sent),
        is_set,
        same,
        count,
        refl,
        subst (λ n. Broadcast (take n (user_info_image u')) w.manager.sessions m.heap m'.heap)
            is_set.size b,
      )

  -- `RecvLoginRequest` of an account that the database does not know, from an idle session, with a
  -- header's size of at most the struct's and no negative error code: it returns; the header gets
  -- type, flag and the text of a refusal, and keeps its size; the session alone is sent the first
  -- `Size` bytes of the request with that header, which is all of it if the size is the struct's,
  -- and less if it is smaller; and it keeps its account and state.
  pub recv_login_request_invalid :
      (p : ℕ) (u : UserInfo) (w : World db) (s : Session) {conn : db.Conn}
      → w.manager.heap p ≡ some s
      → IsIdle s
      → IsUserInfo u
      → u.header.size ≤ user_info_size
      → is_valid_account db u w.conn ≡ ok (conn, false)
      → (h : Header) × (s' : Session) × (recv_login_request last_error db p u w
          ≡ ok (record w { conn = conn; manager = with_session p s' w.manager }))
        × HeaderSet s_login false (codes "Unkwon Account") u.header h
        × Sent s (take u.header.size (user_info_image (record u { header = h }))) s'
  unfolding answer_login
  recv_login_request_invalid p u w s {conn} alive idle v small checked =
      let (h, set, is_set) =
        set_header_fits s_login false (codes "Unkwon Account") u.header v.is_header
          unknown_account_fits in
      let u' : UserInfo = record u { header = h } in
      let (s', sends, sent) =
        send_user_info last_error documented db p u' (record w { conn = conn }) s alive idle
          (user_info_set u h v is_set.is_header) (omega (arith, is_set.size)) in
      (
        h,
        s',
        login_checked p u w checked set ∙ sends,
        is_set,
        subst (λ n. Sent s (take n (user_info_image u')) s') is_set.size sent,
      )

  -- `RecvLoginRequest` of an account that the database does not know, from an idle session, with a
  -- header's size above the struct's and at most the buffer's and no negative error code: the
  -- answer reads beyond the end of the request's copy.
  pub recv_login_request_over_read :
      (p : ℕ) (u : UserInfo) (w : World db) (s : Session) {conn : db.Conn}
      → w.manager.heap p ≡ some s
      → IsIdle s
      → IsUserInfo u
      → user_info_size < u.header.size
      → u.header.size ≤ buf_size
      → is_valid_account db u w.conn ≡ ok (conn, false)
      → recv_login_request last_error db p u w ≡ err Error.out_of_bounds
  unfolding answer_login
  recv_login_request_over_read p u w s {conn} alive idle v large fits checked =
      let (h, set, is_set) =
        set_header_fits s_login false (codes "Unkwon Account") u.header v.is_header
          unknown_account_fits in
      let u' : UserInfo = record u { header = h } in
      let v' = user_info_set u h v is_set.is_header in
      login_checked p u w checked set
      ∙ send_to_fails last_error documented db p (user_info_image u') (record w { conn = conn }) s _
          alive
          (send_packet_over_read last_error (user_info_image u') _ h s idle (header_of u' v')
            (omega (arith, is_set.size)) (omega (arith, is_set.size, length-user_info_image u' v')))
