-- ===== src/Older/Compatible.antt =====
-- Packets of Include/PacketDataStructure.h at the server of YServerCore, and the setters of both headers.
use yserver_core.Common.{
  ℕ, ◌+◌, ◌*◌, ◌≤◌, ◌≡◌, refl, List, [], ◌∷◌, ◌++◌, some, Bool, true, ok, ◌>>=◌, arith, length,
  drop, length-drop, length-append, append_assoc, take-length, drop-length, leb, Result-cases, inl,
  inr,
}
use yserver_core.CString.{strcpy_s}
use yserver_core.Packet as Now
use yserver_core.Packet.Layout
use yserver_core.Packet.Layout.{
  IsHeader, IsChatMessage, IsMoveInfo, chat_message_image, header_image, word, word_bytes,
  read_header, read_move_info, bytes, return,
}
use yserver_core.Packet.RoundTrip.{length-chat_message_image, read_header-header_image}
use yserver_core.Framing.Frames.{IsFrame}
use yserver_core.Handlers.{move, server_table, server_handler, handle_data}
use yserver_core.Handlers.Wire.{handle_data_lem}
use yserver_core.Older.Packets.{
  IoType, Header, ChatMessage, code, c_chat, chat_message_size, set_header, as_header,
  as_chat_message,
}

-- On every header, `SetHeader` of type, flag and text of the older headers is that of the current
-- ones with a type of the same code.
pub set_header-as_header :
    (t : IoType) (t' : Now.IoType) (val : Bool) (msg : List ℕ) (h : Header)
    → code t ≡ Now.code t'
    → (set_header t val msg h >>= λ h'. ok (as_header h')) ≡ Now.set_header t' val msg (as_header h)
unfolding set_header Now.set_header
set_header-as_header t t' val msg h same = elim (Result-cases (strcpy_s h.io_result_info msg)) [
  | inl (info, copied) ↦ rw (copied, same) refl
  | inr (fault, fails) ↦ rw fails refl
]

-- The first four bytes as a little-endian word.
unfoldable pub word_at : List ℕ → ℕ
word_at (a ∷ b ∷ c ∷ d ∷ rest) = a + 256 * b + 65536 * c + 16777216 * d
word_at _ = 0

word-word_at :
    (mem rest : List ℕ)
    → 4 ≤ length mem
    → word (mem ++ rest) ≡ some (word_at mem, drop 4 mem ++ rest)
unfolding word word_at
word-word_at [] rest long = absurd (omega arith)
word-word_at (a ∷ []) rest long = absurd (omega arith)
word-word_at (a ∷ b ∷ []) rest long = absurd (omega arith)
word-word_at (a ∷ b ∷ c ∷ []) rest long = absurd (omega arith)
word-word_at (a ∷ b ∷ c ∷ d ∷ mem) rest long = refl

bytes-whole : (n : ℕ) (xs rest : List ℕ) → length xs ≡ n → bytes n (xs ++ rest) ≡ some (xs, rest)
unfolding bytes
bytes-whole n xs rest e =
    let fits : leb n (length (xs ++ rest)) ≡ true = ground (arith, length-append xs rest) in
    rw (fits, take-length n xs rest e, drop-length n xs rest e)

-- A chat message of the older headers as the memory of a ST_MoveInfo: the text's first bytes are the
-- coordinates.
abbrev pub as_move : ChatMessage → Now.MoveInfo
as_move m = record {
  header = as_header m.header;
  id = m.id;
  x = word_at m.message;
  y = word_at (drop 4 m.message);
  z = word_at (drop 4 (drop 4 m.message));
}

read_as_move :
    (m : ChatMessage) (rest : List ℕ)
    → IsChatMessage (as_chat_message m)
    → read_move_info (chat_message_image (as_chat_message m) ++ rest)
      ≡ some (as_move m, drop 4 (drop 4 (drop 4 m.message)) ++ rest)
unfolding read_move_info chat_message_image
read_as_move m rest v =
    rw
      (
        append_assoc,
        Layout.◌>>=◌,
        read_header-header_image (as_header m.header) ((m.id ++ m.message) ++ rest) v.is_header,
        append_assoc,
        bytes-whole 24 m.id (m.message ++ rest) v.id_length,
        word-word_at m.message rest (omega (arith, v.message_length)),
        word-word_at (drop 4 m.message) rest
            (omega (arith, v.message_length, length-drop 4 m.message)),
        word-word_at (drop 4 (drop 4 m.message)) rest (
            omega
              (arith, v.message_length, length-drop 4 m.message, length-drop 4 (drop 4 m.message))),
      )
      refl

-- A chat message made with the older headers, of the right layout, type and size: to the server its
-- bytes are one frame, which is cast to a move whose id is the message's and whose coordinates are
-- the first twelve bytes of its text.
pub older_chat-IsFrame :
    (m : ChatMessage)
    → IsChatMessage (as_chat_message m)
    → m.header.io_type ≡ code c_chat
    → m.header.size ≡ chat_message_size
    → IsFrame server_table (chat_message_image (as_chat_message m)) (move (as_move m))
unfolding server_handler
older_chat-IsFrame m v type size =
    let len = length-chat_message_image (as_chat_message m) v in
    record {
      header = as_header m.header;
      cast = handle_data read_move_info move;
      long = omega (arith, len);
      sized = omega (arith, len, size);
      known = omega (arith, type);
      handled = rw type refl;
      reads = λ rest. (
        (m.id ++ m.message) ++ rest,
        unfold chat_message_image in
            (rw append_assoc (
              read_header-header_image (as_header m.header) ((m.id ++ m.message) ++ rest)
                v.is_header)),
      );
      casts = λ rest. (
        drop 4 (drop 4 (drop 4 m.message)) ++ rest,
        handle_data_lem read_move_info move _ _ (as_move m) (read_as_move m rest v),
      );
    }
