-- ===== src/Requests/Accounts.antt =====
-- `RecvCreateAccountRequest` of YServerCore/PacketProcess.cpp.
use yserver_core.Common.{
  ℕ, ◌^◌, ◌<◌, ◌≡◌, refl, List, [], some, Bool, true, false, ok, arith, length, take, if◌then◌else◌,
  subst, length-replicate, take_all,
}
use yserver_core.CString.{codes, c_string}
use yserver_core.Packet.{
  UserInfo, code, s_login, max_id_len, max_pw_len, max_result_msg_len, user_info_size, set_literal,
  set_success, new_user_info,
}
use yserver_core.Packet.Layout.{IsUserInfo, user_info_image}
use yserver_core.Packet.RoundTrip.{length-user_info_image}
use yserver_core.Session.{Session}
use yserver_core.Session.Send.{IsIdle, Sent}
use yserver_core.SessionManager.Replace.{with_session}
use yserver_core.Database.{Mysql, is_valid_id, create_account, id_of}
use yserver_core.Requests.{
  World, Junk, reply_account, recv_create_account_request, create_or_refuse,
}
use yserver_core.Requests.Answers.{send_user_info}

-- The memory of a local ST_UserInfo has its lengths.
pub record IsJunk (j : Junk) : Type 0 where
  pub padding_length : length j.padding ≡ 3
  pub id_length : length j.id ≡ max_id_len
  pub pw_length : length j.pw ≡ max_pw_len

-- The answer to a request for an account, whatever the request's result is: a packet of the type of
-- a login's answer, with the flag of a success and no text, whose id and password are what the memory
-- held.
pub record Answer (j : Junk) (s s' : Session) : Type 0 where
  pub answer : UserInfo
  pub io_type : answer.header.io_type ≡ code s_login
  pub flag : answer.header.success ≡ 1
  pub no_text : c_string answer.header.io_result_info ≡ some []
  pub junk_id : answer.id ≡ j.id
  pub junk_pw : answer.pw ≡ j.pw
  pub sent : Sent s (user_info_image answer) s'

module _ (j : Junk) (success : Bool) (text : List ℕ) where
  abbrev replied : UserInfo
  replied = record (new_user_info j.padding j.id j.pw) {
    header = set_literal text (set_success success (new_user_info j.padding j.id j.pw).header);
  }

  replied-IsUserInfo : IsJunk j → IsUserInfo replied
  unfolding new_user_info set_literal set_success
  replied-IsUserInfo v = record {
    is_header = record {
      io_type_lt = omega arith;
      size_lt = omega arith;
      info_length = length-replicate {A = ℕ} max_result_msg_len 0;
      padding_length = v.padding_length;
    };
    id_length = v.id_length;
    pw_length = v.pw_length;
  }

  replied-size : replied.header.size ≡ user_info_size
  unfolding new_user_info set_literal set_success
  replied-size = refl

  replied-Answer : (s s' : Session) → Sent s (user_info_image replied) s' → Answer j s s'
  unfolding new_user_info set_literal set_success c_string
  replied-Answer s s' sent = record {
    answer = replied;
    io_type = refl;
    flag = refl;
    no_text = refl;
    junk_id = refl;
    junk_pw = refl;
    sent = sent;
  }

module _ (last_error : Session → ℕ) (documented : (s : Session) → last_error s < 2 ^ 31)
    (db : Mysql) (j : Junk) (junk : IsJunk j) where
  reply_account_ok :
      (p : ℕ) (success : Bool) (text : List ℕ) (w : World db) (s : Session)
      → w.manager.heap p ≡ some s
      → IsIdle s
      → (s' : Session) × (reply_account last_error db j p success text w
          ≡ ok (record w { manager = with_session p s' w.manager }))
        × Answer j s s'
  unfolding reply_account
  reply_account_ok p success text w s alive idle =
      let u : UserInfo = replied j success text in
      let v = replied-IsUserInfo j success text junk in
      let size = replied-size j success text in
      let (s', sends, sent) =
        send_user_info last_error documented db p u w s alive idle v (omega (arith, size)) in
      let whole : take u.header.size (user_info_image u) ≡ user_info_image u =
        take_all u.header.size (user_info_image u)
          (omega (arith, size, length-user_info_image u v)) in
      (s', sends, replied-Answer j success text s s' (subst (λ out. Sent s out s') whole sent))

  -- `RecvCreateAccountRequest` from an idle session, of an id that the database knows, with no
  -- negative error code: it returns, the connection is as the test of the id left it, and the
  -- session alone is sent a packet of the type of a login's answer, with the flag of a success, no
  -- text, and the id and the password that the memory held.
  pub recv_create_account_request_exists :
      (p : ℕ) (u : UserInfo) (w : World db) (s : Session) {id : List ℕ} {conn : db.Conn}
      → w.manager.heap p ≡ some s
      → IsIdle s
      → id_of u ≡ ok id
      → is_valid_id db id w.conn ≡ ok (conn, true)
      → (s' : Session) × (recv_create_account_request last_error db j p u w
          ≡ ok (record w { conn = conn; manager = with_session p s' w.manager }))
        × Answer j s s'
  unfolding recv_create_account_request create_or_refuse
  recv_create_account_request_exists p u w s {id} {conn} alive idle named found =
      let (s', replies, answer) =
        reply_account_ok p false (codes "Already Exist ID") (record w { conn = conn }) s alive
          idle in
      (s', rw (named, found) replies, answer)

  -- `RecvCreateAccountRequest` from an idle session, of an id that the database does not know, when
  -- `CreateAccount` returns, with no negative error code: it returns, the connection is as
  -- `CreateAccount` left it, and the session alone is sent a packet of the type of a login's
  -- answer, with the flag of a success whatever the result is, no text, and the id and the password
  -- that the memory held.
  pub recv_create_account_request_new :
      (p : ℕ) (u : UserInfo) (w : World db) (s : Session) (result : Bool) {id : List ℕ}
      {conn conn' : db.Conn}
      → w.manager.heap p ≡ some s
      → IsIdle s
      → id_of u ≡ ok id
      → is_valid_id db id w.conn ≡ ok (conn, false)
      → create_account db u conn ≡ ok (conn', result)
      → (s' : Session) × (recv_create_account_request last_error db j p u w
          ≡ ok (record w { conn = conn'; manager = with_session p s' w.manager }))
        × Answer j s s'
  unfolding recv_create_account_request create_or_refuse
  recv_create_account_request_new p u w s result {id} {conn} {conn'} alive idle named free created =
      let (s', replies, answer) =
        reply_account_ok p result (if result then codes "Success" else codes "Unknown Error")
          (record w { conn = conn' }) s alive idle in
      (s', rw (named, free, created) replies, answer)
