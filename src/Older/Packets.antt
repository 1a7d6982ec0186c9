-- ===== src/Older/Packets.antt =====
-- Include/PacketDataStructure.h and the limits of Include/stdafx.h: the packets of the older headers. The
-- fields stand as in YServerCore/PacketDataStructure.h, the enumeration has two more types.
use yserver_core.Common.{ℕ, ◌+◌, List, Bool, Result, ok, ◌>>=◌, replicate, if◌then◌else◌}
use yserver_core.CString.{strcpy_s}
use yserver_core.Packet as Now

abbrev pub buf_size : ℕ
buf_size = 1024

abbrev pub max_chat_size : ℕ
max_chat_size = 512

abbrev pub max_id_len : ℕ
max_id_len = 24

abbrev pub max_pw_len : ℕ
max_pw_len = 24

abbrev pub max_result_msg_len : ℕ
max_result_msg_len = 32

pub data IoType : Type 0 where
  none_type : IoType
  c_create_account s_create_account : IoType
  c_login s_login : IoType
  c_connect s_connect : IoType
  c_chat s_chat : IoType
  c_move s_move : IoType

abbrev pub code : IoType → ℕ
code none_type = 0
code c_create_account = 1
code s_create_account = 2
code c_login = 3
code s_login = 4
code c_connect = 5
code s_connect = 6
code c_chat = 7
code s_chat = 8
code c_move = 9
code s_move = 10

pub record Header : Type 0 where
  pub io_type : ℕ
  pub size : ℕ
  pub success : ℕ
  pub io_result_info : List ℕ
  pub padding : List ℕ

pub record UserInfo : Type 0 where
  pub header : Header
  pub id : List ℕ
  pub pw : List ℕ

pub record ChatMessage : Type 0 where
  pub header : Header
  pub id : List ℕ
  pub message : List ℕ

pub record MoveInfo : Type 0 where
  pub header : Header
  pub id : List ℕ
  pub x : ℕ
  pub y : ℕ
  pub z : ℕ

-- The sizeof of the structs.
abbrev pub header_size : ℕ
header_size = 44

abbrev pub user_info_size : ℕ
user_info_size = header_size + max_id_len + max_pw_len

abbrev pub chat_message_size : ℕ
chat_message_size = header_size + max_id_len + max_chat_size

abbrev pub move_info_size : ℕ
move_info_size = header_size + max_id_len + 12

abbrev pub new_header : List ℕ → Header
new_header junk = record {
  io_type = code none_type;
  size = header_size;
  success = 0;
  io_result_info = replicate max_result_msg_len 0;
  padding = junk;
}

unfoldable pub set_type : IoType → Header → Header
set_type t h = record h { io_type = code t }

unfoldable pub set_success : Bool → Header → Header
set_success val h = record h { success = if val then 1 else 0 }

unfoldable pub set_result : List ℕ → Header → Result Header
set_result msg h = strcpy_s h.io_result_info msg >>= λ info. ok (record h { io_result_info = info })

unfoldable pub set_header : IoType → Bool → List ℕ → Header → Result Header
unfolding set_type set_success set_result
set_header t val msg h = set_result msg (set_type t h) >>= λ h'. ok (set_success val h')

-- The type of a new ST_UserInfo is S_Connect here.
unfoldable pub new_user_info : List ℕ → List ℕ → List ℕ → UserInfo
new_user_info junk id pw = record {
  header = record (new_header junk) { io_type = code s_connect; size = user_info_size };
  id = id;
  pw = pw;
}

unfoldable pub set_info : List ℕ → List ℕ → UserInfo → Result UserInfo
set_info id pw u =
    strcpy_s u.id id >>= λ id'. strcpy_s u.pw pw >>= λ pw'. ok (record u { id = id'; pw = pw' })

unfoldable pub new_chat_message : List ℕ → List ℕ → List ℕ → ChatMessage
new_chat_message junk id message = record {
  header = record (new_header junk) { size = chat_message_size };
  id = id;
  message = message;
}

unfoldable pub set_message : List ℕ → List ℕ → ChatMessage → Result ChatMessage
set_message id msg m = strcpy_s m.id id >>= λ id'.
    strcpy_s m.message msg >>= λ message'. ok (record m { id = id'; message = message' })

unfoldable pub new_move_info : List ℕ → List ℕ → MoveInfo
new_move_info junk id = record {
  header = record (new_header junk) { size = move_info_size };
  id = id;
  x = 0;
  y = 0;
  z = 0;
}

unfoldable pub set_vector : ℕ → ℕ → ℕ → MoveInfo → MoveInfo
set_vector x y z m = record m { x = x; y = y; z = z }

unfoldable pub set_id : List ℕ → MoveInfo → Result MoveInfo
set_id id m = strcpy_s m.id id >>= λ id'. ok (record m { id = id' })

-- The same memory as a packet of YServerCore/PacketDataStructure.h.
abbrev pub as_header : Header → Now.Header
as_header h = record {
  io_type = h.io_type;
  size = h.size;
  success = h.success;
  io_result_info = h.io_result_info;
  padding = h.padding;
}

abbrev pub as_user_info : UserInfo → Now.UserInfo
as_user_info u = record { header = as_header u.header; id = u.id; pw = u.pw }

abbrev pub as_chat_message : ChatMessage → Now.ChatMessage
as_chat_message m = record { header = as_header m.header; id = m.id; message = m.message }

abbrev pub as_move_info : MoveInfo → Now.MoveInfo
as_move_info m = record { header = as_header m.header; id = m.id; x = m.x; y = m.y; z = m.z }
