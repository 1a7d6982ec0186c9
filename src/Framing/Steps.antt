-- ===== src/Framing/Steps.antt =====
-- What one round of the packet loop does.
use yserver_core.Common.{
  ℕ, suc, ◌+◌, ◌-◌, ◌≤◌, ◌<◌, ◌≡◌, ◌≢◌, refl, inl, inr, List, [], ◌∷◌, none, some, ok, ◌>>=◌, arith,
  drop, Option-cases,
}
use yserver_core.Packet.{Header, header_size}
use yserver_core.Packet.Layout.{Reader, read_header}
use yserver_core.Framing.{IoData, Table, next, drain, dispatch, call_handler}

abbrev pub unread : IoData → List ℕ
unread io = drop io.data_pointer io.bytes

module _ {T : Type 0} (table : Table T) where
  -- A round that goes on has read a header, whose size lies in the unread part, and moved by it.
  pub record Progress (io io' : IoData) : Type 0 where
    pub header : Header
    pub rest : List ℕ
    pub reads : read_header (unread io) ≡ some (header, rest)
    pub before : io.data_pointer < io.cur_bytes
    pub fits : header.size ≤ io.cur_bytes - io.data_pointer
    pub known : header.io_type < table.slots
    pub moved : io' ≡ record io { data_pointer = io.data_pointer + header.size }

  dispatch_inversion :
      (io : IoData) (h : Header) {io' : IoData} {t : T}
      → dispatch table io h ≡ ok (some (io', t))
      → (h.size ≤ io.cur_bytes - io.data_pointer)
        × (h.io_type < table.slots)
        × (io' ≡ record io { data_pointer = io.data_pointer + h.size })
  unfolding dispatch call_handler
  dispatch_inversion io h e = ground arith

  next_inversion :
      (io : IoData) (h : Header) (rest : List ℕ) {io' : IoData} {t : T}
      → read_header (unread io) ≡ some (h, rest)
      → next table io ≡ ok (some (io', t))
      → (io.data_pointer < io.cur_bytes) × (dispatch table io h ≡ ok (some (io', t)))
  unfolding next
  next_inversion io h rest reads e = ground arith

  next_reads :
      (io : IoData) {io' : IoData} {t : T}
      → next table io ≡ ok (some (io', t))
      → read_header (unread io) ≢ none
  unfolding next
  next_reads io e unreadable = ground arith

  pub next-Progress :
      (io : IoData) {io' : IoData} {t : T} → next table io ≡ ok (some (io', t)) → Progress io io'
  next-Progress io e = elim (Option-cases (read_header (unread io))) [
    | inl unreadable ↦ absurd (next_reads io e unreadable)
    | inr ((h, rest), reads) ↦
        let (before, called) = next_inversion io h rest reads e in
        let (fits, known, moved) = dispatch_inversion io h called in
        record {
          header = h;
          rest = rest;
          reads = reads;
          before = before;
          fits = fits;
          known = known;
          moved = moved;
        }
  ]

  -- A whole packet with a handler is handed to it, and the data pointer passes it.
  pub next_packet :
      (io : IoData) (h : Header) (rest after : List ℕ) (cast : Reader T) (t : T)
      → header_size ≤ io.cur_bytes - io.data_pointer
      → h.size ≤ io.cur_bytes - io.data_pointer
      → read_header (unread io) ≡ some (h, rest)
      → h.io_type < table.slots
      → table.handler h.io_type ≡ some cast
      → cast (unread io) ≡ some (t, after)
      → next table io ≡ ok (some (record io { data_pointer = io.data_pointer + h.size }, t))
  unfolding next dispatch call_handler
  next_packet io h rest after cast t room fits reads known handled casts = ground arith

  -- Too few bytes for a header end the loop.
  pub next_short :
      (io : IoData) → io.cur_bytes - io.data_pointer < header_size → next table io ≡ ok none
  unfolding next
  next_short io h = ground arith

  -- So does a header whose packet is not yet there.
  pub next_partial :
      (io : IoData) (h : Header) (rest : List ℕ)
      → io.data_pointer < io.cur_bytes
      → header_size ≤ io.cur_bytes - io.data_pointer
      → read_header (unread io) ≡ some (h, rest)
      → io.cur_bytes - io.data_pointer < h.size
      → next table io ≡ ok none
  unfolding next dispatch
  next_partial io h rest before room reads partial = ground arith

  -- And a packet with no handler.
  pub next_unhandled :
      (io : IoData) (h : Header) (rest : List ℕ)
      → io.data_pointer < io.cur_bytes
      → header_size ≤ io.cur_bytes - io.data_pointer
      → read_header (unread io) ≡ some (h, rest)
      → h.io_type < table.slots
      → table.handler h.io_type ≡ none
      → next table io ≡ ok none
  unfolding next dispatch
  next_unhandled io h rest before room reads known unset = ground arith

  pub drain_more :
      (fuel : ℕ) (io io' : IoData) (t : T)
      → next table io ≡ ok (some (io', t))
      → drain table (suc fuel) io
        ≡ (drain table fuel io' >>= λ (rest : IoData × List T). ok (rest.0, t ∷ rest.1))
  unfolding drain
  drain_more fuel io io' t e = rw (e, drain) refl

  pub drain_end :
      (fuel : ℕ) (io : IoData) → next table io ≡ ok none → drain table (suc fuel) io ≡ ok (io, [])
  unfolding drain
  drain_end fuel io e = rw (e, drain) refl
