-- ===== src/Session/Send.antt =====
-- `Session::SendPacket` and `Session::Send` of YServerCore/Session.cpp, by one thread.
use yserver_core.Common.{
  ℕ, ◌+◌, ◌^◌, ◌≤◌, ◌<◌, ◌≡◌, refl, ap, sym, ◌∙◌, List, ◌++◌, some, false, ok, err, Error, arith,
  length, take, write_at, ltb, take-write_at, length-write_at, length-take, Bool-cases, ltb→lt,
  ltb→le, Result-cases, inl, inr, ◌⊎◌,
}
use yserver_core.Packet.{Header, buf_size}
use yserver_core.Packet.Layout.{read_header}
use yserver_core.Framing.{IoData}
use yserver_core.Session.{Session, Outcome, send, buffer_packet, send_packet}

-- A buffer that took a packet: its bytes stand behind those that waited.
pub record Buffered (packet : List ℕ) (size : ℕ) (io io' : IoData) : Type 0 where
  pub counted : io'.cur_bytes ≡ io.cur_bytes + size
  pub fits : io'.cur_bytes ≤ buf_size
  pub sized : length io'.bytes ≡ buf_size
  pub waiting : take io'.cur_bytes io'.bytes ≡ take io.cur_bytes io.bytes ++ take size packet

module _ (packet rest : List ℕ) (h : Header) (io : IoData)
    (reads : read_header packet ≡ some (h, rest)) where
  pub buffered : IoData
  buffered = record io {
    bytes = write_at io.cur_bytes (take h.size packet) io.bytes;
    cur_bytes = io.cur_bytes + h.size;
  }

  pub buffered_lem :
      io.cur_bytes + h.size ≤ buf_size
      → h.size ≤ length packet
      → buffer_packet packet io ≡ ok buffered
  unfolding buffer_packet buffered
  buffered_lem fits inside = ground arith

  pub buffered-Buffered :
      length io.bytes ≡ buf_size
      → io.cur_bytes + h.size ≤ buf_size
      → h.size ≤ length packet
      → Buffered packet h.size io buffered
  unfolding buffered
  buffered-Buffered sized fits inside =
      let size : length (take h.size packet) ≡ h.size = omega (arith, length-take h.size packet) in
      record {
        counted = refl;
        fits = fits;
        sized =
            length-write_at io.cur_bytes (take h.size packet) io.bytes (omega (arith, size))
            ∙ sized;
        waiting =
            ap (λ n. take (io.cur_bytes + n) buffered.bytes) (sym size)
            ∙ take-write_at io.cur_bytes (take h.size packet) io.bytes (omega (arith, size));
      }

  full :
      buf_size < io.cur_bytes + h.size
      → io.cur_bytes ≤ buf_size
      → h.size < 2 ^ 32
      → buffer_packet packet io ≡ err Error.deadlock
  unfolding buffer_packet
  full over counted word = ground arith

  over_read :
      io.cur_bytes + h.size ≤ buf_size
      → length packet < h.size
      → buffer_packet packet io ≡ err Error.out_of_bounds
  unfolding buffer_packet
  over_read fits beyond = ground arith

  -- The first block of `SendPacket`, on a whole buffer that counts no more than it holds and a
  -- packet whose size is a word: if the packet does not fit behind what waits, the mutex is locked
  -- twice; or its size is above its memory's, which is read beyond its end; or the packet's bytes
  -- are put behind what waits, and are counted.
  pub buffer_packet_branches :
      length io.bytes ≡ buf_size
      → io.cur_bytes ≤ buf_size
      → h.size < 2 ^ 32
      → ((buf_size < io.cur_bytes + h.size) × (buffer_packet packet io ≡ err Error.deadlock))
        ⊎ (((length packet < h.size) × (buffer_packet packet io ≡ err Error.out_of_bounds))
            ⊎ ((io' : IoData) × (buffer_packet packet io ≡ ok io') × Buffered packet h.size io io'))
  buffer_packet_branches sized counted word =
      elim (Bool-cases (ltb buf_size (io.cur_bytes + h.size))) [
        | inl over ↦ inl (ltb→lt _ _ over, full (ltb→lt _ _ over) counted word)
        | inr fits ↦ elim (Bool-cases (ltb (length packet) h.size)) [
          | inl beyond ↦
              inr (inl (ltb→lt _ _ beyond, over_read (ltb→le _ _ fits) (ltb→lt _ _ beyond)))
          | inr inside ↦
              let room = ltb→le _ _ fits in
              let within = ltb→le _ _ inside in
              inr (inr (buffered, buffered_lem room within, buffered-Buffered sized room within))
        ]
      ]

-- Nothing waits in the write buffer, which is whole.
pub record IsIdle (s : Session) : Type 0 where
  pub counted : s.write.cur_bytes ≡ 0
  pub sized : length s.write.bytes ≡ buf_size

-- The session after bytes went out: the wire has them, the write buffer is idle, all else is as it
-- was.
pub record Sent (s : Session) (out : List ℕ) (s' : Session) : Type 0 where
  pub wire : s'.wire ≡ s.wire ++ out
  pub idle : IsIdle s'
  pub socket_data : s'.socket_data ≡ s.socket_data
  pub read : s'.read ≡ s.read
  pub session_id : s'.session_id ≡ s.session_id
  pub user_info : s'.user_info ≡ s.user_info
  pub session_state : s'.session_state ≡ s.session_state

module _ (last_error : Session → ℕ) where
  send-Sent :
      (s : Session) (io : IoData) (packet : List ℕ) (size : ℕ)
      → IsIdle s
      → Buffered packet size s.write io
      → Sent s (take size packet) (send last_error (record s { write = io })).session
  unfolding send
  send-Sent s io packet size idle b = record {
    wire =
        ap (◌++◌ s.wire)
          (b.waiting ∙ ap (λ k. take k s.write.bytes ++ take size packet) idle.counted);
    idle = record { counted = refl; sized = b.sized };
    socket_data = refl;
    read = refl;
    session_id = refl;
    user_info = refl;
    session_state = refl;
  }

  send_packet_ok :
      (packet : List ℕ) (s : Session) (io : IoData)
      → buffer_packet packet s.write ≡ ok io
      → send_packet last_error (some packet) s ≡ ok (send last_error (record s { write = io }))
  unfolding send_packet
  send_packet_ok packet s io e = rw e refl

  -- `SendPacket` on an idle session, of a packet whose size is at most that of its memory and of
  -- the buffer: it returns, the wire gets the first `Size` bytes of the packet, the session is idle
  -- again and is as it was otherwise.
  pub send_packet-Sent :
      (packet rest : List ℕ) (h : Header) (s : Session)
      → IsIdle s
      → read_header packet ≡ some (h, rest)
      → h.size ≤ buf_size
      → h.size ≤ length packet
      → (o : Outcome) × (send_packet last_error (some packet) s ≡ ok o)
        × Sent s (take h.size packet) o.session
  send_packet-Sent packet rest h s idle reads fits inside =
      let room : s.write.cur_bytes + h.size ≤ buf_size = omega (arith, idle.counted) in
      let io = buffered packet rest h s.write reads in
      (
        send last_error (record s { write = io }),
        send_packet_ok packet s io (buffered_lem packet rest h s.write reads room inside),
        send-Sent s io packet h.size idle
            (buffered-Buffered packet rest h s.write reads idle.sized room inside),
      )

  send_packet_fails :
      (packet : List ℕ) (s : Session) (e : Error)
      → buffer_packet packet s.write ≡ err e
      → send_packet last_error (some packet) s ≡ err e
  unfolding send_packet
  send_packet_fails packet s e fails = rw fails refl

  -- From an idle session, a header whose size is above its struct's makes `SendPacket` read beyond
  -- the struct.
  pub send_packet_over_read :
      (packet rest : List ℕ) (h : Header) (s : Session)
      → IsIdle s
      → read_header packet ≡ some (h, rest)
      → h.size ≤ buf_size
      → length packet < h.size
      → send_packet last_error (some packet) s ≡ err Error.out_of_bounds
  send_packet_over_read packet rest h s idle reads fits beyond =
      send_packet_fails packet s _
        (over_read packet rest h s.write reads (omega (arith, idle.counted)) beyond)

  -- If `WSAGetLastError` gives no negative code, as it documents, a `SendPacket` that returns does
  -- not close its session: the code compares with -1.
  pub send_packet_never_closes :
      (packet : List ℕ) (s : Session) (o : Outcome)
      → ((s : Session) → last_error s < 2 ^ 31)
      → send_packet last_error (some packet) s ≡ ok o
      → o.closes ≡ false
  unfolding send_packet send
  send_packet_never_closes packet s o documented e =
      elim (Result-cases (buffer_packet packet s.write)) [
        | inl (io, buffers) ↦ ground (arith, documented (record s { write = io }))
        | inr (fault, fails) ↦ ground arith
      ]
