-- ===== src/Packet.antt =====
-- YServerCore/PacketDataStructure.h and the limits of YServerCore/Definition.h: the packets, which
-- are the memory of C structs, with the setters that the handlers call.
-- A field of type char[n] is a list of n bytes, an enum or UINT32 a number below 2 ^ 32, a bool its
-- byte, a float its four bytes as a number. `padding` is what aligns the size to four.
pub mod Layout
pub mod RoundTrip
pub mod Fields
pub mod Words
use yserver_core.Common.{
  ℕ, ◌+◌, List, [], ◌∷◌, Bool, true, false, Result, ok, ◌>>=◌, replicate, if◌then◌else◌,
}
use yserver_core.CString.{strcpy_s}

abbrev pub buf_size : ℕ
buf_size = 4096

abbrev pub max_chat_size : ℕ
max_chat_size = 512

abbrev pub max_id_len : ℕ
max_id_len = 24

abbrev pub max_pw_len : ℕ
max_pw_len = 24

abbrev pub max_result_msg_len : ℕ
max_result_msg_len = 32

pub data IoType : Type 0 where
  none_type : IoType
  c_create_account s_create_account : IoType
  c_login s_login : IoType
  c_chat s_chat : IoType
  c_move s_move : IoType

-- The value of the enumerator.
abbrev pub code : IoType → ℕ
code none_type = 0
code c_create_account = 1
code s_create_account = 2
code c_login = 3
code s_login = 4
code c_chat = 5
code s_chat = 6
code c_move = 7
code s_move = 8

pub record Header : Type 0 where
  pub io_type : ℕ
  pub size : ℕ
  pub success : ℕ
  pub io_result_info : List ℕ
  pub padding : List ℕ

pub record UserInfo : Type 0 where
  pub header : Header
  pub id : List ℕ
  pub pw : List ℕ

pub record ChatMessage : Type 0 where
  pub header : Header
  pub id : List ℕ
  pub message : List ℕ

pub record MoveInfo : Type 0 where
  pub header : Header
  pub id : List ℕ
  pub x : ℕ
  pub y : ℕ
  pub z : ℕ

-- The sizeof of the structs: 4 + 4 + 1 + 32 bytes and 3 of padding, then the fields behind it.
abbrev pub header_size : ℕ
header_size = 44

abbrev pub user_info_size : ℕ
user_info_size = header_size + max_id_len + max_pw_len

abbrev pub chat_message_size : ℕ
chat_message_size = header_size + max_id_len + max_chat_size

abbrev pub move_info_size : ℕ
move_info_size = header_size + max_id_len + 12

-- The default member initialisers. Padding is not initialised: its bytes are an argument.
abbrev pub new_header : List ℕ → Header
new_header junk = record {
  io_type = code none_type;
  size = header_size;
  success = 0;
  io_result_info = replicate max_result_msg_len 0;
  padding = junk;
}

-- `SetHeader(E_IOType)`, `SetHeader(bool)` and `SetHeader(string)`.
unfoldable pub set_type : IoType → Header → Header
set_type t h = record h { io_type = code t }

unfoldable pub set_success : Bool → Header → Header
set_success val h = record h { success = if val then 1 else 0 }

unfoldable pub set_result : List ℕ → Header → Result Header
set_result msg h = do info ← strcpy_s h.io_result_info msg; ok (record h { io_result_info = info })

-- `SetHeader` of a string literal: a pointer converts to bool rather than to std::string, so this is
-- `SetHeader(bool)` of true, and the text is not used.
unfoldable pub set_literal : List ℕ → Header → Header
set_literal text h = set_success true h

-- `SetHeader` of type, flag and text.
unfoldable pub set_header : IoType → Bool → List ℕ → Header → Result Header
unfolding set_type set_success set_result
set_header t val msg h = do h' ← set_result msg (set_type t h); ok (set_success val h')

-- A new ST_UserInfo: its header is initialised, its arrays hold what the memory held.
unfoldable pub new_user_info : List ℕ → List ℕ → List ℕ → UserInfo
new_user_info junk id pw = record {
  header = record (new_header junk) { io_type = code s_login; size = user_info_size };
  id = id;
  pw = pw;
}

unfoldable pub set_info : List ℕ → List ℕ → UserInfo → Result UserInfo
set_info id pw u = do
  id' ← strcpy_s u.id id
  pw' ← strcpy_s u.pw pw
  ok (record u { id = id'; pw = pw' })

unfoldable pub new_chat_message : List ℕ → List ℕ → List ℕ → ChatMessage
new_chat_message junk id message = record {
  header = record (new_header junk) { size = chat_message_size };
  id = id;
  message = message;
}

unfoldable pub set_message : List ℕ → List ℕ → ChatMessage → Result ChatMessage
set_message id msg m = do
  id' ← strcpy_s m.id id
  message' ← strcpy_s m.message msg
  ok (record m { id = id'; message = message' })

unfoldable pub new_move_info : List ℕ → List ℕ → MoveInfo
new_move_info junk id = record {
  header = record (new_header junk) { size = move_info_size };
  id = id;
  x = 0;
  y = 0;
  z = 0;
}

unfoldable pub set_vector : ℕ → ℕ → ℕ → MoveInfo → MoveInfo
set_vector x y z m = record m { x = x; y = y; z = z }

unfoldable pub set_id : List ℕ → MoveInfo → Result MoveInfo
set_id id m = do id' ← strcpy_s m.id id; ok (record m { id = id' })
