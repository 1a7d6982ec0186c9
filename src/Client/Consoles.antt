-- ===== src/Client/Consoles.antt =====
-- The messages of the two consoles, Client/Client/Main.cpp and Server/main.cpp.
use yserver_core.Common.{ℕ, ◌<◌, ◌≡◌, refl, List, some, ok, length, arith, length-replicate}
use yserver_core.CString.{visible, c_string, codes}
use yserver_core.Packet.{
  ChatMessage, IoType, code, c_chat, s_chat, max_id_len, max_chat_size, chat_message_size,
  max_result_msg_len, new_chat_message, set_type,
}
use yserver_core.Packet.Layout.{IsChatMessage, chat_message_image}
use yserver_core.Packet.Fields.{set_message_fits, code-lt}
use yserver_core.Framing.Frames.{IsFrame}
use yserver_core.Handlers.{chat}
use yserver_core.Handlers.Wire.{IsRequest, is_chat, Names}
use yserver_core.Client.{client_table, console_message}
use yserver_core.Client.Conversation.{chat_message_image-IsFrame}

-- The memory of a local ST_ChatMessage has its lengths.
pub record IsBlank (padding id message : List ℕ) : Type 0 where
  pub padding_length : length padding ≡ 3
  pub id_length : length id ≡ max_id_len
  pub message_length : length message ≡ max_chat_size

module _ (padding id message : List ℕ) (blank : IsBlank padding id message) where
  abbrev typed : IoType → ChatMessage
  typed t = record (new_chat_message padding id message) {
    header = record (set_type t (new_chat_message padding id message).header) {
      size = chat_message_size;
    };
  }

  typed-IsChatMessage : (t : IoType) → IsChatMessage (typed t)
  unfolding new_chat_message set_type
  typed-IsChatMessage t = record {
    is_header = record {
      io_type_lt = code-lt t;
      size_lt = omega arith;
      info_length = length-replicate {A = ℕ} max_result_msg_len 0;
      padding_length = blank.padding_length;
    };
    id_length = blank.id_length;
    message_length = blank.message_length;
  }

  typed-Names : (t : IoType) → Names (typed t).header (code t) chat_message_size
  unfolding set_type
  typed-Names t = (refl, refl)

  pub console_message_fits :
      (t : IoType) (name text : List ℕ)
      → length (visible name) < max_id_len
      → length (visible text) < max_chat_size
      → (m : ChatMessage) × (console_message padding id message t name text ≡ ok m)
        × IsChatMessage m
        × Names m.header (code t) chat_message_size
        × (c_string m.id ≡ some (visible name))
        × (c_string m.message ≡ some (visible text))
  unfolding console_message
  console_message_fits t name text short short' =
      let (m, set, named, said, same, v) =
        set_message_fits name text (typed t) (typed-IsChatMessage t) short short' in
      (m, set, v, rw same (typed-Names t), named, said)

  -- A text of at most 511 bytes at the server's console makes a message, from a local of the right
  -- lengths: its bytes are one frame of the client's table, whose handler's cast gives the message
  -- back, and the text is read back from it.
  pub console_message-IsFrame :
      (text : List ℕ)
      → length (visible text) < max_chat_size
      → (m : ChatMessage) × (console_message padding id message s_chat (codes "Server") text ≡ ok m)
        × IsFrame client_table (chat_message_image m) m
        × (c_string m.message ≡ some (visible text))
  unfolding visible
  console_message-IsFrame text short =
      let (m, made, v, names, _, said) =
        console_message_fits s_chat (codes "Server") text (omega arith) short in
      (m, made, chat_message_image-IsFrame m v names, said)

  -- A text of at most 511 bytes at the client's console makes a message, from a local of the right
  -- lengths: it is a chat request of the right layout, type and size for the server, and the text
  -- is read back from it.
  pub console_message-IsRequest :
      (text : List ℕ)
      → length (visible text) < max_chat_size
      → (m : ChatMessage) × (console_message padding id message c_chat (codes "Client") text ≡ ok m)
        × IsRequest (chat m)
        × (c_string m.message ≡ some (visible text))
  unfolding visible
  console_message-IsRequest text short =
      let (m, made, v, names, _, said) =
        console_message_fits c_chat (codes "Client") text (omega arith) short in
      (m, made, is_chat m v names, said)
