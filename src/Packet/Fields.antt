-- ===== src/Packet/Fields.antt =====
-- The setters of YServerCore/PacketDataStructure.h: what they write is read back, and nothing else
-- changes.
use yserver_core.Common.{
  ℕ, ◌^◌, ◌≤◌, ◌<◌, ◌≡◌, ◌⊎◌, inl, inr, refl, ap, sym, ◌∙◌, List, [], some, Bool, ok, err, Error,
  arith, length, if◌then◌else◌, append-nil, Bool-cases, ltb, ltb→lt, ltb→le,
}
use yserver_core.CString.{visible, c_string, strcpy_s}
use yserver_core.CString.Laws.{strcpy_s_fits, strcpy_s_too_long, strcpy_s-length, c_string-strcpy_s}
use yserver_core.Packet.{
  IoType, Header, ChatMessage, MoveInfo, code, max_result_msg_len, max_id_len, max_chat_size,
  set_header, set_message, set_id,
}
use yserver_core.Packet.Layout.{IsHeader, IsChatMessage, IsMoveInfo}

-- The value of every enumerator fits a word.
pub code-lt : (t : IoType) → code t < 2 ^ 32
code-lt IoType.none_type = omega arith
code-lt IoType.c_create_account = omega arith
code-lt IoType.s_create_account = omega arith
code-lt IoType.c_login = omega arith
code-lt IoType.s_login = omega arith
code-lt IoType.c_chat = omega arith
code-lt IoType.s_chat = omega arith
code-lt IoType.c_move = omega arith
code-lt IoType.s_move = omega arith

-- A header after `SetHeader` of type, flag and text.
pub record HeaderSet (t : IoType) (val : Bool) (msg : List ℕ) (h h' : Header) : Type 0 where
  pub io_type : h'.io_type ≡ code t
  pub success : h'.success ≡ (if val then 1 else 0)
  pub result : c_string h'.io_result_info ≡ some (visible msg)
  pub size : h'.size ≡ h.size
  pub padding : h'.padding ≡ h.padding
  pub is_header : IsHeader h'

set_header_copied :
    (t : IoType) (val : Bool) (msg : List ℕ) (h : Header) {info : List ℕ}
    → strcpy_s h.io_result_info msg ≡ ok info
    → set_header t val msg h
      ≡ ok (record h { io_type = code t; success = if val then 1 else 0; io_result_info = info })
unfolding set_header
set_header_copied t val msg h e = rw e refl

-- A text that was copied is read back.
pub c_string_copied :
    (buf text : List ℕ) {after : List ℕ}
    → strcpy_s buf text ≡ ok after
    → c_string after ≡ some (visible text)
c_string_copied buf text {after} e =
    ap c_string (sym (append-nil after)) ∙ c_string-strcpy_s buf text [] e

-- A text of at most 31 bytes is set with the type and the flag; the size and the layout stay.
pub set_header_fits :
    (t : IoType) (val : Bool) (msg : List ℕ) (h : Header)
    → IsHeader h
    → length (visible msg) < max_result_msg_len
    → (h' : Header) × (set_header t val msg h ≡ ok h') × HeaderSet t val msg h h'
set_header_fits t val msg h v short =
    let copied = strcpy_s_fits h.io_result_info msg (omega (arith, v.info_length)) in
    (
      _,
      set_header_copied t val msg h copied,
      record {
        io_type = refl;
        success = refl;
        result = c_string_copied h.io_result_info msg copied;
        size = refl;
        padding = refl;
        is_header = record {
          io_type_lt = code-lt t;
          size_lt = v.size_lt;
          info_length = strcpy_s-length h.io_result_info msg copied ∙ v.info_length;
          padding_length = v.padding_length;
        };
      },
    )

set_header_too_long :
    (t : IoType) (val : Bool) (msg : List ℕ) (h : Header)
    → IsHeader h
    → max_result_msg_len ≤ length (visible msg)
    → set_header t val msg h ≡ err Error.invalid_parameter
unfolding set_header
set_header_too_long t val msg h v long =
    rw (strcpy_s_too_long h.io_result_info msg (omega (arith, v.info_length))) refl

-- `SetHeader` of type, flag and text on a header of the right layout: a text of at most 31 bytes is
-- set with the type and the flag, is read back, and the size and the layout stay; a longer text
-- ends the process.
pub set_header_lem :
    (t : IoType) (val : Bool) (msg : List ℕ) (h : Header)
    → IsHeader h
    → ((length (visible msg) < max_result_msg_len)
        × ((h' : Header) × (set_header t val msg h ≡ ok h') × HeaderSet t val msg h h'))
      ⊎ ((max_result_msg_len ≤ length (visible msg))
          × (set_header t val msg h ≡ err Error.invalid_parameter))
set_header_lem t val msg h v = elim (Bool-cases (ltb (length (visible msg)) max_result_msg_len)) [
  | inl short ↦ let room = ltb→lt _ _ short in inl (room, set_header_fits t val msg h v room)
  | inr long ↦ let over = ltb→le _ _ long in inr (over, set_header_too_long t val msg h v over)
]

-- `SetID` of a text of at most 23 bytes: the id is read back, and all else stays.
pub set_id_fits :
    (id : List ℕ) (m : MoveInfo)
    → IsMoveInfo m
    → length (visible id) < max_id_len
    → (id' : List ℕ) × (set_id id m ≡ ok (record m { id = id' }))
      × (c_string id' ≡ some (visible id))
      × IsMoveInfo (record m { id = id' })
unfolding set_id
set_id_fits id m v short =
    let copied = strcpy_s_fits m.id id (omega (arith, v.id_length)) in
    (
      _,
      rw copied refl,
      c_string_copied m.id id copied,
      record {
        is_header = v.is_header;
        id_length = strcpy_s-length m.id id copied ∙ v.id_length;
        x_lt = v.x_lt;
        y_lt = v.y_lt;
        z_lt = v.z_lt;
      },
    )

-- `SetMessage` of an id of at most 23 bytes and a message of at most 511, on a packet of the right
-- layout: both are read back, and the header and the layout stay.
pub set_message_fits :
    (id msg : List ℕ) (m : ChatMessage)
    → IsChatMessage m
    → length (visible id) < max_id_len
    → length (visible msg) < max_chat_size
    → (m' : ChatMessage) × (set_message id msg m ≡ ok m')
      × (c_string m'.id ≡ some (visible id))
      × (c_string m'.message ≡ some (visible msg))
      × (m'.header ≡ m.header)
      × IsChatMessage m'
unfolding set_message
set_message_fits id msg m v short short' =
    let copied = strcpy_s_fits m.id id (omega (arith, v.id_length)) in
    let copied' = strcpy_s_fits m.message msg (omega (arith, v.message_length)) in
    (
      _,
      rw (copied, copied') refl,
      c_string_copied m.id id copied,
      c_string_copied m.message msg copied',
      refl,
      record {
        is_header = v.is_header;
        id_length = strcpy_s-length m.id id copied ∙ v.id_length;
        message_length = strcpy_s-length m.message msg copied' ∙ v.message_length;
      },
    )
