-- ===== src/Examples/Requests.antt =====
-- Runs of the requests of YServerCore/PacketProcess.cpp, over a database of one account.
use yserver_core.Common.{
  ℕ, suc, ◌<◌, ◌≡◌, refl, List, [], ◌∷◌, some, true, false, ok, arith, length, take, replicate,
  ◌==◌, if◌then◌else◌,
}
use yserver_core.CString.{codes, visible, c_string}
use yserver_core.Packet.{Header, MoveInfo, s_login}
use yserver_core.Packet.Layout.{user_info_image, move_info_image}
use yserver_core.Packet.Fields.{HeaderSet}
use yserver_core.Session.{Session}
use yserver_core.Session.Send.{Sent}
use yserver_core.SessionManager.{store}
use yserver_core.SessionManager.Broadcast.{Broadcast}
use yserver_core.SessionManager.Replace.{with_session}
use yserver_core.Database.{
  Mysql, insert_text, account_text, id_text, id_of, pw_of, has_rows, is_valid_id, is_valid_account,
  create_account,
}
use yserver_core.Requests.{
  World, recv_login_request, recv_create_account_request, recv_move_request,
}
use yserver_core.Requests.Logins.{logged_in, recv_login_request_valid, recv_login_request_invalid}
use yserver_core.Requests.Accounts.{Answer, recv_create_account_request_new}
use yserver_core.Requests.Moves.{MoveOf, recv_move_request-MoveOf}
use yserver_core.Examples.Data.{
  user, login_user, login_user-IsUserInfo, step_east, step_east-IsMoveInfo, fresh, fresh-IsIdle,
  junk, junk-IsJunk, two, two-IsManaged, two-IsIdle, no_error, no_error-lt,
}

abbrev insert_row : List ℕ → ℕ → ℕ
insert_row [] conn = conn
insert_row (c ∷ text) conn = if c == 73 then suc conn else conn

-- The connection counts the rows of the table; a statement that starts with I adds one.
abbrev one_account : Mysql
one_account = record {
  Conn = ℕ;
  query = insert_row;
  store_result = λ conn. (conn, some (replicate conn []));
}

abbrev world : ℕ → World one_account
world rows = record { manager = two; conn = rows; log = [] }

named_ann : id_of login_user ≡ ok (codes "ann")
unfolding id_of c_string
named_ann = refl

known : is_valid_account one_account login_user 1 ≡ ok (1, true)
unfolding is_valid_account account_text id_of pw_of c_string has_rows
known = refl

unknown : (size : ℕ) → is_valid_account one_account (user 3 size) 0 ≡ ok (0, false)
unfolding is_valid_account account_text id_of pw_of c_string has_rows
unknown size = refl

id_known : is_valid_id one_account (codes "ann") 1 ≡ ok (1, true)
unfolding is_valid_id id_text has_rows
id_known = refl

id_free : is_valid_id one_account (codes "ann") 0 ≡ ok (0, false)
unfolding is_valid_id id_text has_rows
id_free = refl

created : create_account one_account login_user 0 ≡ ok (1, true)
unfolding create_account insert_text is_valid_account account_text id_of pw_of c_string has_rows
created = refl

recv_login_request_valid_example :
    (h : Header) × (w' : World one_account) × (recv_login_request no_error one_account 10 login_user
        (world 1)
      ≡ ok w')
    × HeaderSet s_login true [] login_user.header h
    × (w'.manager.sessions ≡ 10 ∷ 11 ∷ [])
    × (w'.manager.session_count ≡ 2)
    × (w'.conn ≡ 1)
    × Broadcast
        (take 92 (user_info_image (record login_user { header = h })))
        (10 ∷ 11 ∷ [])
        (store two.heap 10 (some (logged_in (record login_user { header = h }) (fresh 0))))
        w'.manager.heap
recv_login_request_valid_example =
    recv_login_request_valid no_error no_error-lt one_account 10 login_user (world 1) (fresh 0)
      two-IsManaged two-IsIdle refl (fresh-IsIdle 0) login_user-IsUserInfo (omega arith) known

recv_login_request_invalid_example :
    (h : Header) × (s' : Session) × (recv_login_request no_error one_account 10 login_user (world 0)
      ≡ ok (record (world 0) { conn = 0; manager = with_session 10 s' two }))
    × HeaderSet s_login false (codes "Unkwon Account") login_user.header h
    × Sent (fresh 0) (take 92 (user_info_image (record login_user { header = h }))) s'
recv_login_request_invalid_example =
    recv_login_request_invalid no_error no_error-lt one_account 10 login_user (world 0) (fresh 0)
      refl (fresh-IsIdle 0) login_user-IsUserInfo (omega arith) (unknown 92)

recv_create_account_request_new_example :
    (s' : Session) × (recv_create_account_request no_error one_account junk 10 login_user (world 0)
      ≡ ok (record (world 0) { conn = 1; manager = with_session 10 s' two }))
    × Answer junk (fresh 0) s'
recv_create_account_request_new_example =
    recv_create_account_request_new no_error no_error-lt one_account junk junk-IsJunk 10 login_user
      (world 0) (fresh 0) true refl (fresh-IsIdle 0) named_ann id_free created

fresh_named : id_of (fresh 0).user_info ≡ ok (codes "ann")
unfolding id_of c_string fresh
fresh_named = refl

short_name : length (visible (codes "ann")) < 24
unfolding visible
short_name = omega arith

recv_move_request-MoveOf_example :
    (m' : MoveInfo) × (w' : World one_account) × (recv_move_request no_error one_account 10
        step_east
        (world 1)
      ≡ ok w')
    × MoveOf step_east (codes "ann") m'
    × Broadcast (take 80 (move_info_image m')) (10 ∷ 11 ∷ []) two.heap w'.manager.heap
recv_move_request-MoveOf_example =
    recv_move_request-MoveOf no_error no_error-lt one_account 10 step_east (world 1) (fresh 0)
      two-IsManaged two-IsIdle refl fresh_named short_name step_east-IsMoveInfo (omega arith)
