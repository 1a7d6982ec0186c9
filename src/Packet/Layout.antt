-- ===== src/Packet/Layout.antt =====
-- The memory of the packets of YServerCore/PacketDataStructure.h on the machines that the project is
-- built for: little-endian words, the fields in the order of their declaration. `image` is a struct
-- as bytes, which is what goes on the wire; `read` is a cast of a char pointer to a struct pointer.
use yserver_core.Common.{
  ℕ, ◌+◌, ◌*◌, ◌/◌, ◌%◌, ◌^◌, ◌<◌, ◌≡◌, List, [], ◌∷◌, ◌++◌, Option, none, some, leb, if◌then◌else◌,
  length, take, drop,
}
use yserver_core.Packet.{
  Header, UserInfo, ChatMessage, MoveInfo, max_chat_size, max_id_len, max_pw_len,
  max_result_msg_len,
}

-- What a read at a pointer gives, with the memory behind it; `none` leaves the memory.
abbrev pub Reader : Type 0 → Type 0
Reader A = List ℕ → Option (A × List ℕ)

infixl 5 ◌>>=◌
abbrev pub ◌>>=◌ : {A B : Type 0} → Reader A → (A → Reader B) → Reader B
◌>>=◌ m f mem = elim (m mem) [ none ↦ none | some (a, rest) ↦ f a rest ]

abbrev pub return : {A : Type 0} → A → Reader A
return a mem = some (a, mem)

unfoldable pub word_bytes : ℕ → List ℕ
word_bytes n = (n % 256) ∷ (n / 256 % 256) ∷ (n / 65536 % 256) ∷ (n / 16777216 % 256) ∷ []

unfoldable pub word : Reader ℕ
word (a ∷ b ∷ c ∷ d ∷ rest) = some (a + 256 * b + 65536 * c + 16777216 * d, rest)
word _ = none

unfoldable pub byte : Reader ℕ
byte (a ∷ rest) = some (a, rest)
byte [] = none

unfoldable pub bytes : ℕ → Reader (List ℕ)
bytes n mem = if leb n (length mem) then some (take n mem, drop n mem) else none

unfoldable pub read_header : Reader Header
read_header = do
  io_type ← word
  size ← word
  success ← byte
  info ← bytes max_result_msg_len
  padding ← bytes 3
  return (record {
    io_type = io_type;
    size = size;
    success = success;
    io_result_info = info;
    padding = padding;
  })

unfoldable pub read_user_info : Reader UserInfo
read_user_info = do
  header ← read_header
  id ← bytes max_id_len
  pw ← bytes max_pw_len
  return (record { header = header; id = id; pw = pw })

unfoldable pub read_chat_message : Reader ChatMessage
read_chat_message = do
  header ← read_header
  id ← bytes max_id_len
  message ← bytes max_chat_size
  return (record { header = header; id = id; message = message })

unfoldable pub read_move_info : Reader MoveInfo
read_move_info = do
  header ← read_header
  id ← bytes max_id_len
  x ← word
  y ← word
  z ← word
  return (record { header = header; id = id; x = x; y = y; z = z })

unfoldable pub header_image : Header → List ℕ
header_image h =
    word_bytes h.io_type ++ (word_bytes h.size ++ h.success ∷ (h.io_result_info ++ h.padding))

unfoldable pub user_info_image : UserInfo → List ℕ
user_info_image u = header_image u.header ++ (u.id ++ u.pw)

unfoldable pub chat_message_image : ChatMessage → List ℕ
chat_message_image m = header_image m.header ++ (m.id ++ m.message)

unfoldable pub move_info_image : MoveInfo → List ℕ
move_info_image m =
    header_image m.header ++ (m.id ++ (word_bytes m.x ++ (word_bytes m.y ++ word_bytes m.z)))

-- The arrays have their declared lengths, and the words fit in 32 bits.
pub record IsHeader (h : Header) : Type 0 where
  pub io_type_lt : h.io_type < 2 ^ 32
  pub size_lt : h.size < 2 ^ 32
  pub info_length : length h.io_result_info ≡ max_result_msg_len
  pub padding_length : length h.padding ≡ 3

pub record IsUserInfo (u : UserInfo) : Type 0 where
  pub is_header : IsHeader u.header
  pub id_length : length u.id ≡ max_id_len
  pub pw_length : length u.pw ≡ max_pw_len

pub record IsChatMessage (m : ChatMessage) : Type 0 where
  pub is_header : IsHeader m.header
  pub id_length : length m.id ≡ max_id_len
  pub message_length : length m.message ≡ max_chat_size

pub record IsMoveInfo (m : MoveInfo) : Type 0 where
  pub is_header : IsHeader m.header
  pub id_length : length m.id ≡ max_id_len
  pub x_lt : m.x < 2 ^ 32
  pub y_lt : m.y < 2 ^ 32
  pub z_lt : m.z < 2 ^ 32
