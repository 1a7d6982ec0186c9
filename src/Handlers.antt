-- ===== src/Handlers.antt =====
-- The handler table of YServerCore/PacketProcess.h. `HandleData` copies the packet and starts the
-- request with `std::async`: a request is one of these calls, on a copy of the packet.
pub mod Wire
use Prim.Native.Nat.{ℕ}
use yserver_core.Common.{List, Option, none, some, ◌==◌, if◌then◌else◌}
use yserver_core.Packet.{
  UserInfo, ChatMessage, MoveInfo, code, c_create_account, c_login, c_chat, c_move,
}
use yserver_core.Packet.Layout.{
  Reader, read_user_info, read_chat_message, read_move_info, ◌>>=◌, return,
}
use yserver_core.Framing.{Table}

pub data Request : Type 0 where
  create_account : UserInfo → Request
  login : UserInfo → Request
  chat : ChatMessage → Request
  move : MoveInfo → Request

-- The cast in `HandleData<ST_UserInfo>` and its like, then the call.
abbrev pub handle_data : {P R : Type 0} → Reader P → (P → R) → Reader R
handle_data cast func = cast >>= λ packet. return (func packet)

-- `SetHandler`: four of the twenty slots are set.
unfoldable pub server_handler : ℕ → Option (Reader Request)
server_handler t =
    if t == code c_chat
    then some (handle_data read_chat_message chat)
    else if t == code c_create_account
    then some (handle_data read_user_info create_account)
    else if t == code c_login
    then some (handle_data read_user_info login)
    else if t == code c_move
    then some (handle_data read_move_info move)
    else none

abbrev pub server_table : Table Request
server_table = record { slots = 20; handler = server_handler }
