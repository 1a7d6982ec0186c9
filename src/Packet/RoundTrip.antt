-- ===== src/Packet/RoundTrip.antt =====
-- The structs of YServerCore/PacketDataStructure.h: written to the wire and cast back.
use yserver_core.Common.{
  ℕ, ◌^◌, ◌<◌, ◌≡◌, refl, List, ◌∷◌, ◌++◌, some, arith, length, append_assoc, length-append,
  take-length, drop-length, leb, true,
}
use yserver_core.Packet.{
  Header, UserInfo, ChatMessage, MoveInfo, header_size, user_info_size, chat_message_size,
  move_info_size, max_result_msg_len, max_id_len, max_pw_len, max_chat_size,
}
use yserver_core.Packet.Layout.{
  ◌>>=◌, word_bytes, word, byte, bytes, read_header, read_user_info, read_chat_message,
  read_move_info, header_image, user_info_image, chat_message_image, move_info_image, IsHeader,
  IsUserInfo, IsChatMessage, IsMoveInfo,
}

word-word_bytes :
    (n : ℕ) (rest : List ℕ) → n < 2 ^ 32 → word (word_bytes n ++ rest) ≡ some (n, rest)
unfolding word word_bytes
word-word_bytes n rest h = ground arith

bytes-append : (n : ℕ) (xs rest : List ℕ) → length xs ≡ n → bytes n (xs ++ rest) ≡ some (xs, rest)
unfolding bytes
bytes-append n xs rest e =
    let fits : leb n (length (xs ++ rest)) ≡ true = ground (arith, length-append xs rest) in
    rw (fits, take-length n xs rest e, drop-length n xs rest e)

pub length-header_image : (h : Header) → IsHeader h → length (header_image h) ≡ header_size
unfolding header_image word_bytes
length-header_image h v = omega (arith, v, length-append h.io_result_info h.padding)

byte_lem : (b : ℕ) (rest : List ℕ) → byte (b ∷ rest) ≡ some (b, rest)
unfolding byte
byte_lem b rest = refl

-- The cast of a header's bytes gives the header back, and ends where they end.
pub read_header-header_image :
    (h : Header) (rest : List ℕ)
    → IsHeader h
    → read_header (header_image h ++ rest) ≡ some (h, rest)
unfolding read_header header_image
read_header-header_image h rest v =
    rw
      (
        append_assoc,
        append_assoc,
        append_assoc,
        word-word_bytes h.io_type _ v.io_type_lt,
        word-word_bytes h.size _ v.size_lt,
        byte_lem,
        bytes-append max_result_msg_len h.io_result_info _ v.info_length,
        bytes-append 3 h.padding rest v.padding_length,
        read_header,
        ◌>>=◌,
      )
      refl

pub length-user_info_image :
    (u : UserInfo) → IsUserInfo u → length (user_info_image u) ≡ user_info_size
unfolding user_info_image
length-user_info_image u v = omega (
  arith,
  length-header_image u.header v.is_header,
  length-append (header_image u.header) (u.id ++ u.pw),
  length-append u.id u.pw,
  v.id_length,
  v.pw_length,
)

pub read_user_info-user_info_image :
    (u : UserInfo) (rest : List ℕ)
    → IsUserInfo u
    → read_user_info (user_info_image u ++ rest) ≡ some (u, rest)
unfolding read_user_info user_info_image
read_user_info-user_info_image u rest v =
    rw
      (
        append_assoc,
        append_assoc,
        read_header-header_image u.header _ v.is_header,
        bytes-append max_id_len u.id _ v.id_length,
        bytes-append max_pw_len u.pw rest v.pw_length,
        read_user_info,
        ◌>>=◌,
      )
      refl

pub length-chat_message_image :
    (m : ChatMessage) → IsChatMessage m → length (chat_message_image m) ≡ chat_message_size
unfolding chat_message_image
length-chat_message_image m v = omega (
  arith,
  length-header_image m.header v.is_header,
  length-append (header_image m.header) (m.id ++ m.message),
  length-append m.id m.message,
  v.id_length,
  v.message_length,
)

pub read_chat_message-chat_message_image :
    (m : ChatMessage) (rest : List ℕ)
    → IsChatMessage m
    → read_chat_message (chat_message_image m ++ rest) ≡ some (m, rest)
unfolding read_chat_message chat_message_image
read_chat_message-chat_message_image m rest v =
    rw
      (
        append_assoc,
        append_assoc,
        read_header-header_image m.header _ v.is_header,
        bytes-append max_id_len m.id _ v.id_length,
        bytes-append max_chat_size m.message rest v.message_length,
        read_chat_message,
        ◌>>=◌,
      )
      refl

pub length-move_info_image :
    (m : MoveInfo) → IsMoveInfo m → length (move_info_image m) ≡ move_info_size
unfolding move_info_image word_bytes
length-move_info_image m v = omega (
  arith,
  length-header_image m.header v.is_header,
  length-append (header_image m.header)
      (m.id ++ (word_bytes m.x ++ (word_bytes m.y ++ word_bytes m.z))),
  length-append m.id (word_bytes m.x ++ (word_bytes m.y ++ word_bytes m.z)),
  v.id_length,
)

pub read_move_info-move_info_image :
    (m : MoveInfo) (rest : List ℕ)
    → IsMoveInfo m
    → read_move_info (move_info_image m ++ rest) ≡ some (m, rest)
unfolding read_move_info move_info_image
read_move_info-move_info_image m rest v =
    rw
      (
        append_assoc,
        append_assoc,
        append_assoc,
        append_assoc,
        read_header-header_image m.header _ v.is_header,
        bytes-append max_id_len m.id _ v.id_length,
        word-word_bytes m.x _ v.x_lt,
        word-word_bytes m.y _ v.y_lt,
        word-word_bytes m.z rest v.z_lt,
        read_move_info,
        ◌>>=◌,
      )
      refl

-- A packet starts with its header.
pub read_header-user_info_image :
    (u : UserInfo) (rest : List ℕ)
    → IsUserInfo u
    → read_header (user_info_image u ++ rest) ≡ some (u.header, (u.id ++ u.pw) ++ rest)
unfolding user_info_image
read_header-user_info_image u rest v =
    rw (append_assoc (header_image u.header) (u.id ++ u.pw) rest)
      (read_header-header_image u.header _ v.is_header)
