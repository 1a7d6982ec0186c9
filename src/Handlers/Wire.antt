-- ===== src/Handlers/Wire.antt =====
-- Requests as a client puts them on the wire: a packet of YServerCore/PacketDataStructure.h whose
-- header holds its own sizeof and the type of the request.
use yserver_core.Common.{
  ℕ, ◌<◌, ◌≡◌, refl, List, [], ◌∷◌, ◌++◌, some, arith, length, append_assoc, length-append, ◌∙◌,
  sym, All,
}
use yserver_core.Packet.{
  Header, UserInfo, ChatMessage, MoveInfo, code, c_create_account, c_login, c_chat, c_move,
  user_info_size, chat_message_size, move_info_size,
}
use yserver_core.Packet.Layout.{
  read_user_info, read_chat_message, read_move_info, header_image, user_info_image,
  chat_message_image, move_info_image, IsUserInfo, IsChatMessage, IsMoveInfo, Reader, ◌>>=◌,
  IsHeader,
}
use yserver_core.Packet.RoundTrip.{
  length-header_image, length-user_info_image, length-chat_message_image, length-move_info_image,
  read_header-header_image, read_user_info-user_info_image, read_chat_message-chat_message_image,
  read_move_info-move_info_image,
}
use yserver_core.Framing.{Table}
use yserver_core.Framing.Frames.{IsFrame, Frames, no_frames, frames}
use yserver_core.Handlers.{
  Request, create_account, login, chat, move, handle_data, server_handler, server_table,
}

unfoldable pub request_image : Request → List ℕ
request_image (create_account u) = user_info_image u
request_image (login u) = user_info_image u
request_image (chat m) = chat_message_image m
request_image (move m) = move_info_image m

-- The header names the request's type and the size of its packet.
abbrev pub Names : Header → ℕ → ℕ → Type 0
Names h type size = (h.io_type ≡ type) × (h.size ≡ size)

pub data IsRequest : Request → Type 0 where
  is_create_account :
      (u : UserInfo)
      → IsUserInfo u
      → Names u.header (code c_create_account) user_info_size
      → IsRequest (create_account u)
  is_login :
      (u : UserInfo)
      → IsUserInfo u
      → Names u.header (code c_login) user_info_size
      → IsRequest (login u)
  is_chat :
      (m : ChatMessage)
      → IsChatMessage m
      → Names m.header (code c_chat) chat_message_size
      → IsRequest (chat m)
  is_move :
      (m : MoveInfo)
      → IsMoveInfo m
      → Names m.header (code c_move) move_info_size
      → IsRequest (move m)

pub handle_data_lem :
    {P R : Type 0} (cast : Reader P) (func : P → R) (mem rest : List ℕ) (packet : P)
    → cast mem ≡ some (packet, rest)
    → handle_data cast func mem ≡ some (func packet, rest)
handle_data_lem cast func mem rest packet e = rw (e, handle_data, ◌>>=◌) refl

-- A packet with its own sizeof in its header is one frame for its handler.
pub struct-IsFrame :
    {P R : Type 0} (table : Table R) (packet : P) (h : Header) (body : List ℕ) (cast : Reader P)
    (func : P → R)
    → IsHeader h
    → h.size ≡ length (header_image h ++ body)
    → h.io_type < table.slots
    → table.handler h.io_type ≡ some (handle_data cast func)
    → ((rest : List ℕ) → cast ((header_image h ++ body) ++ rest) ≡ some (packet, rest))
    → IsFrame table (header_image h ++ body) (func packet)
struct-IsFrame table packet h body cast func v sized known handled casts = record {
  header = h;
  cast = handle_data cast func;
  long = omega (arith, length-append (header_image h) body, length-header_image h v);
  sized = sized;
  known = known;
  handled = handled;
  reads = λ rest. (body ++ rest, rw append_assoc (read_header-header_image h (body ++ rest) v));
  casts = λ rest. (rest, handle_data_lem cast func _ rest packet (casts rest));
}

-- A request whose header names its type and its struct's size: its bytes are one frame of the
-- server's table. The header can be read from them, its type has a handler, its size is their
-- length, and the handler's cast gives the request back, whatever follows.
pub request_image-IsFrame : {r : Request} → IsRequest r → IsFrame server_table (request_image r) r
unfolding request_image server_handler user_info_image chat_message_image move_info_image
request_image-IsFrame (is_create_account u v named) =
    struct-IsFrame server_table u u.header _ read_user_info create_account v.is_header
      (named.1 ∙ sym (length-user_info_image u v)) (omega (arith, named.0)) (rw named.0 refl)
      (λ rest. read_user_info-user_info_image u rest v)
request_image-IsFrame (is_login u v named) =
    struct-IsFrame server_table u u.header _ read_user_info login v.is_header
      (named.1 ∙ sym (length-user_info_image u v)) (omega (arith, named.0)) (rw named.0 refl)
      (λ rest. read_user_info-user_info_image u rest v)
request_image-IsFrame (is_chat m v named) =
    struct-IsFrame server_table m m.header _ read_chat_message chat v.is_header
      (named.1 ∙ sym (length-chat_message_image m v)) (omega (arith, named.0)) (rw named.0 refl)
      (λ rest. read_chat_message-chat_message_image m rest v)
request_image-IsFrame (is_move m v named) =
    struct-IsFrame server_table m m.header _ read_move_info move v.is_header
      (named.1 ∙ sym (length-move_info_image m v)) (omega (arith, named.0)) (rw named.0 refl)
      (λ rest. read_move_info-move_info_image m rest v)

-- The bytes of a list of requests, one behind the other.
unfoldable pub requests_image : List Request → List ℕ
requests_image [] = []
requests_image (r ∷ rs) = request_image r ++ requests_image rs

pub requests_image-Frames :
    (rs : List Request) → All IsRequest rs → Frames server_table (requests_image rs) rs
unfolding requests_image
requests_image-Frames [] v = no_frames
requests_image-Frames (r ∷ rs) v =
    frames (request_image r) r (request_image-IsFrame v.0) (requests_image-Frames rs v.1)
