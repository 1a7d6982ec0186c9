-- ===== src/Framing/Frames.antt =====
-- The packet loop of `Session::OnRecv` and `Client::RecieveWork` on a buffer of whole packets.
use yserver_core.Common.{
  ℕ, zero, suc, ◌+◌, ◌-◌, ◌≤◌, ◌<◌, ◌≡◌, inl, inr, refl, ap, sym, ◌∙◌, List, [], ◌∷◌, ◌++◌, none,
  some, ok, ◌>>=◌, arith, length, drop, append_assoc, length-append, drop-length, drop-drop,
  Bool-cases, ltb, ltb→lt, ltb→le,
}
use native.Mathlib.Nat.{add-zero}
use yserver_core.Packet.{Header, header_size}
use yserver_core.Packet.Layout.{Reader, read_header}
use yserver_core.Framing.{IoData, Table, next, drain}
use yserver_core.Framing.Steps.{
  unread, next_packet, next_short, next_partial, drain_more, drain_end,
}

-- The start of a packet that is not complete, or nothing.
pub data IsPartial (tail : List ℕ) : Type 0 where
  short : length tail < header_size → IsPartial tail
  unfinished :
      (h : Header)
      → ((rest : List ℕ) → (after : List ℕ) × (read_header (tail ++ rest) ≡ some (h, after)))
      → length tail < h.size
      → IsPartial tail

module _ {T : Type 0} (table : Table T) where
  -- The bytes of one packet, as its sender should write it: the header's size is the packet's
  -- length, its type has a handler, and the handler's cast stays in the packet.
  pub record IsFrame (frame : List ℕ) (packet : T) : Type 0 where
    pub header : Header
    pub cast : Reader T
    pub long : header_size ≤ length frame
    pub sized : header.size ≡ length frame
    pub known : header.io_type < table.slots
    pub handled : table.handler header.io_type ≡ some cast
    pub reads :
        (rest : List ℕ) → (after : List ℕ) × (read_header (frame ++ rest) ≡ some (header, after))
    pub casts : (rest : List ℕ) → (after : List ℕ) × (cast (frame ++ rest) ≡ some (packet, after))

  -- A stream of whole packets, and the packets.
  pub data Frames : List ℕ → List T → Type 0 where
    no_frames : Frames [] []
    frames :
        (frame : List ℕ) (packet : T) {stream : List ℕ} {packets : List T}
        → IsFrame frame packet
        → Frames stream packets
        → Frames (frame ++ stream) (packet ∷ packets)

  pub next-IsFrame :
      (io : IoData) (frame rest : List ℕ) (packet : T)
      → IsFrame frame packet
      → unread io ≡ frame ++ rest
      → length frame ≤ io.cur_bytes - io.data_pointer
      → next table io
        ≡ ok (some (record io { data_pointer = io.data_pointer + length frame }, packet))
  next-IsFrame io frame rest packet f e room =
      let (after, reads) = f.reads rest in
      let (left, casts) = f.casts rest in
      rw (← f.sized) (
        next_packet table io f.header after left f.cast packet (omega (arith, f.long))
          (omega (arith, f.sized)) (rw e reads) f.known f.handled (rw e casts))

  next-IsPartial :
      (io : IoData) (tail rest : List ℕ)
      → IsPartial tail
      → unread io ≡ tail ++ rest
      → io.cur_bytes ≡ io.data_pointer + length tail
      → next table io ≡ ok none
  next-IsPartial io tail rest (short h) e cur = next_short table io (omega arith)
  next-IsPartial io tail rest (unfinished h reads less) e cur =
      elim (Bool-cases (ltb (length tail) header_size)) [
        | inl less_than_header ↦ next_short table io (omega (arith, ltb→lt _ _ less_than_header))
        | inr long ↦
            let (after, read) = reads rest in
            let room : header_size ≤ length tail = ltb→le _ _ long in
            next_partial table io h after (omega arith) (omega arith) (rw e read) (omega arith)
      ]

  unread_next :
      (io : IoData) (frame rest : List ℕ)
      → unread io ≡ frame ++ rest
      → unread (record io { data_pointer = io.data_pointer + length frame }) ≡ rest
  unread_next io frame rest e =
      sym (drop-drop io.data_pointer (length frame) io.bytes)
      ∙ ap (drop (length frame)) e
      ∙ drop-length (length frame) frame rest refl

  -- The loop hands over every packet, in order, and stops in front of what is not complete.
  pub drain-Frames :
      (fuel : ℕ) (io : IoData) {stream : List ℕ} {packets : List T} (tail rest : List ℕ)
      → Frames stream packets
      → IsPartial tail
      → unread io ≡ stream ++ (tail ++ rest)
      → io.cur_bytes ≡ io.data_pointer + (length stream + length tail)
      → length packets < fuel
      → drain table fuel io
        ≡ ok (record io { data_pointer = io.data_pointer + length stream }, packets)
  drain-Frames zero io tail rest no_frames partial e cur enough = absurd (omega arith)
  drain-Frames zero io tail rest (frames _ _ f fs) partial e cur enough = absurd (omega arith)
  drain-Frames (suc fuel) io tail rest no_frames partial e cur enough =
      drain_end table fuel io (next-IsPartial io tail rest partial e (omega arith))
      ∙ ap (λ k. ok (record io { data_pointer = k }, [])) (sym (add-zero io.data_pointer))
  drain-Frames (suc fuel) io tail rest (frames frame packet {stream} {packets} f fs) partial e cur
        enough =
      let rest_of_frame : List ℕ = stream ++ (tail ++ rest) in
      let starts : unread io ≡ frame ++ rest_of_frame =
        e ∙ append_assoc frame stream (tail ++ rest) in
      let lengths : length (frame ++ stream) ≡ length frame + length stream =
        length-append frame stream in
      let later : IoData = record io { data_pointer = io.data_pointer + length frame } in
      drain_more table fuel io later packet
        (next-IsFrame io frame rest_of_frame packet f starts (omega arith))
      ∙ ap (λ r. r >>= λ (rest : IoData × List T). ok (rest.0, packet ∷ rest.1))
          (drain-Frames fuel later tail rest fs partial (unread_next io frame rest_of_frame starts)
            (omega arith) (omega arith))
      ∙ ap (λ k. ok (record io { data_pointer = k }, packet ∷ packets))
          {x = io.data_pointer + length frame + length stream} (omega arith)

  -- A stream has no more packets than bytes.
  pub Frames-length :
      {stream : List ℕ} {packets : List T} → Frames stream packets → length packets ≤ length stream
  Frames-length no_frames = omega arith
  Frames-length (frames frame packet {stream} f fs) =
      omega (arith, f.long, length-append frame stream, Frames-length fs)
