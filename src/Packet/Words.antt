-- ===== src/Packet/Words.antt =====
-- The size in the header of a packet that YServerCore/PacketDataStructure.h lays out.
use yserver_core.Common.{
  ℕ, ◌^◌, ◌<◌, ◌≡◌, refl, ap, sym, ◌∙◌, List, [], ◌∷◌, ◌++◌, Option, none, some, arith,
  Option-cases, inl, inr, eq_of_some,
}
use yserver_core.Packet.{Header, UserInfo, ChatMessage, MoveInfo, max_result_msg_len}
use yserver_core.Packet.Layout
use yserver_core.Packet.Layout.{
  read_header, header_image, user_info_image, move_info_image, chat_message_image, word, word_bytes,
  byte, bytes,
}

-- The size that a header names is a word.
abbrev pub HasWord : List ℕ → Type 0
HasWord packet =
    (h : Header) (rest : List ℕ) → read_header packet ≡ some (h, rest) → h.size < 2 ^ 32

-- The rest of the cast, behind the two words.
sized : (io_type size : ℕ) → Layout.Reader Header
sized io_type size = Layout.◌>>=◌ byte λ success. Layout.◌>>=◌ (bytes max_result_msg_len) λ info.
    Layout.◌>>=◌ (bytes 3) λ padding. Layout.return (record {
      io_type = io_type;
      size = size;
      success = success;
      io_result_info = info;
      padding = padding;
    })

sized-size :
    (io_type size : ℕ) (mem rest : List ℕ) (g : Header)
    → sized io_type size mem ≡ some (g, rest)
    → g.size ≡ size
unfolding sized byte
sized-size io_type size [] rest g e = absurd (cc)
sized-size io_type size (b ∷ mem) rest g e = elim (Option-cases (bytes max_result_msg_len mem)) [
  | inl short ↦ absurd (some_or_none (sym (rw (Layout.◌>>=◌, short) refl) ∙ e))
  | inr ((info, mem'), read) ↦ elim (Option-cases (bytes 3 mem')) [
    | inl short ↦ absurd (some_or_none (sym (rw (Layout.◌>>=◌, read, short) refl) ∙ e))
    | inr ((padding, after), read') ↦
        let h : Header = record {
          io_type = io_type;
          size = size;
          success = b;
          io_result_info = info;
          padding = padding;
        } in
        ap (λ (k : Header × List ℕ). k.0.size) {x = (g, rest)} {y = (h, after)}
          (eq_of_some (sym e ∙ rw (Layout.◌>>=◌, read, read') refl))
  ]
]
  where
    some_or_none : ◌≡◌ {A = Option (Header × List ℕ)} none (some (g, rest)) → ⊥
    some_or_none k = cc

word_of-lt :
    (n : ℕ) (mem : List ℕ) → (v : ℕ) × (word (word_bytes n ++ mem) ≡ some (v, mem)) × (v < 2 ^ 32)
unfolding word word_bytes
word_of-lt n mem = (_, refl, omega arith)

layout :
    (h : Header) (body : List ℕ)
    → header_image h ++ body
      ≡ word_bytes h.io_type
        ++ (word_bytes h.size ++ (h.success ∷ (h.io_result_info ++ h.padding) ++ body))
unfolding header_image word_bytes
layout h body = refl

header_reads :
    (h : Header) (body : List ℕ) (t v : ℕ)
    → word (header_image h ++ body)
      ≡ some (t, word_bytes h.size ++ (h.success ∷ (h.io_result_info ++ h.padding) ++ body))
    → word (word_bytes h.size ++ (h.success ∷ (h.io_result_info ++ h.padding) ++ body))
      ≡ some (v, h.success ∷ (h.io_result_info ++ h.padding) ++ body)
    → read_header (header_image h ++ body)
      ≡ sized t v (h.success ∷ (h.io_result_info ++ h.padding) ++ body)
unfolding read_header sized
header_reads h body t v e e' = rw (Layout.◌>>=◌, e, e') refl

-- The size in the bytes of a header is a word, whatever the field holds.
pub header_image-HasWord : (h : Header) (body : List ℕ) → HasWord (header_image h ++ body)
header_image-HasWord h body g rest e =
    let after : List ℕ = h.success ∷ (h.io_result_info ++ h.padding) ++ body in
    let (t, reads, _) = word_of-lt h.io_type (word_bytes h.size ++ after) in
    let (v, reads', small) = word_of-lt h.size after in
    let same =
      sized-size t v after rest g
        (sym (header_reads h body t v (ap word (layout h body) ∙ reads) reads') ∙ e) in
    omega (arith, same)

pub user_info_image-HasWord : (u : UserInfo) → HasWord (user_info_image u)
unfolding user_info_image
user_info_image-HasWord u = header_image-HasWord u.header (u.id ++ u.pw)

pub move_info_image-HasWord : (m : MoveInfo) → HasWord (move_info_image m)
unfolding move_info_image
move_info_image-HasWord m = header_image-HasWord m.header _

pub chat_message_image-HasWord : (m : ChatMessage) → HasWord (chat_message_image m)
unfolding chat_message_image
chat_message_image-HasWord m = header_image-HasWord m.header (m.id ++ m.message)
