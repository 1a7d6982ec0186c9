-- ===== src/Framing/Reassembly.antt =====
-- Packets over several receives: what `Session::OnRecv` and `Client::RecieveWork` keep of a stream
-- that the network cuts where it likes.
use yserver_core.Common.{
  ℕ, ◌+◌, ◌-◌, ◌%◌, ◌≤◌, ◌<◌, ◌≡◌, refl, ap, sym, ◌∙◌, List, [], ◌++◌, Result, ok, ◌>>=◌, arith,
  length, take, drop, write_at, append_assoc, length-append, drop-length, take-length,
  length-write_at, eq→==, ltb, le→ltb, ◌==◌, true, false, replicate, length-replicate,
}
use yserver_core.Packet.{buf_size}
use yserver_core.Framing.{
  IoData, IoUsage, Table, drain, compact, deliver, absorb, size_mod, cleared, behind,
}
use yserver_core.Framing.Steps.{unread}
use yserver_core.Framing.Frames.{IsPartial, Frames, drain-Frames, Frames-length}

pub behind_lem : (n : ℕ) → n ≤ buf_size → behind n ≡ buf_size - n
behind_lem n within = omega arith

-- Between two receives: the buffer starts with `tail`, which is counted and not read.
pub record Holds (io : IoData) (tail : List ℕ) : Type 0 where
  pub rest : List ℕ
  pub pointer : io.data_pointer ≡ 0
  pub counted : io.cur_bytes ≡ length tail
  pub sized : length io.bytes ≡ buf_size
  pub prefix : io.bytes ≡ tail ++ rest

-- The buffer of a new session or client holds nothing.
pub cleared-Holds : (u : IoUsage) → Holds (cleared u) []
cleared-Holds u = record {
  rest = replicate {A = ℕ} buf_size 0;
  pointer = refl;
  counted = refl;
  sized = length-replicate {A = ℕ} buf_size 0;
  prefix = refl;
}

module _ (io : IoData) (tail chunk : List ℕ) (h : Holds io tail)
    (room : length tail + length chunk ≤ buf_size) where
  pub deliver-bytes : (after : List ℕ) × ((deliver chunk io).bytes ≡ (tail ++ chunk) ++ after)
  unfolding deliver
  deliver-bytes = (
    drop (length tail + length chunk) io.bytes,
    rw (h.counted, h.prefix)
        (rw (take-length (length tail) tail h.rest refl) (sym (append_assoc tail chunk _))),
  )

  pub deliver-length : length (deliver chunk io).bytes ≡ buf_size
  unfolding deliver
  deliver-length =
      length-write_at io.cur_bytes chunk io.bytes (omega (arith, h.counted, h.sized)) ∙ h.sized

module _ {T : Type 0} (table : Table T) where
  -- One receive: the system fills the buffer, and the completion runs the loop.
  unfoldable pub receive : ℕ → List ℕ → IoData → Result (IoData × List T)
  receive fuel chunk io = absorb table fuel (length chunk) (deliver chunk io)

  module _ (fuel : ℕ) (enough : buf_size < fuel) (io : IoData) (tail chunk : List ℕ)
      {stream : List ℕ} {packets : List T} (tail' : List ℕ) (h : Holds io tail)
      (room : length tail + length chunk ≤ buf_size) (cut : tail ++ chunk ≡ stream ++ tail')
      (fs : Frames table stream packets) (partial : IsPartial tail') where
    -- The buffer when the loop has ended.
    abbrev drained : IoData
    drained = record (deliver chunk io) {
      cur_bytes = length tail + length chunk;
      data_pointer = length stream;
    }

    lengths : length tail + length chunk ≡ length stream + length tail'
    lengths = omega (arith, ap length cut, length-append tail chunk, length-append stream tail')

    drained-bytes : (after : List ℕ) × (drained.bytes ≡ stream ++ (tail' ++ after))
    drained-bytes =
        let (after, e) = deliver-bytes io tail chunk h room in
        (after, e ∙ ap (λ s. s ++ after) cut ∙ append_assoc stream tail' after)

    abbrev filled : IoData
    filled = record (deliver chunk io) { cur_bytes = length tail + length chunk }

    filled_pointer : filled.data_pointer ≡ 0
    unfolding deliver
    filled_pointer = h.pointer

    filled_rest : (after : List ℕ) × (unread filled ≡ stream ++ (tail' ++ after))
    filled_rest =
        let (after, e) = drained-bytes in (after, ap (λ k. drop k filled.bytes) filled_pointer ∙ e)

    filled-drain : drain table fuel filled ≡ ok (drained, packets)
    filled-drain =
        let (after, e) = filled_rest in
        let at : filled.data_pointer + length stream ≡ length stream =
          omega (arith, filled_pointer) in
        drain-Frames table fuel filled tail' after fs partial e
          (omega (arith, filled_pointer, lengths)) (omega (arith, lengths, Frames-length table fs))
        ∙ ap (λ k. ok (record filled { data_pointer = k }, packets)) at

    receive-drain : receive fuel chunk io ≡ (compact drained >>= λ io'. ok (io', packets))
    unfolding receive absorb deliver
    receive-drain =
        let counted : (io.cur_bytes + length chunk) % size_mod ≡ length tail + length chunk =
          omega (arith, h.counted) in
        ap
          (λ k.
            drain table fuel (record (deliver chunk io) { cur_bytes = k })
            >>= λ (r : IoData × List T). compact r.0 >>= λ io'. ok (io', r.1))
          counted
        ∙ ap (λ d. d >>= λ (r : IoData × List T). compact r.0 >>= λ io'. ok (io', r.1)) filled-drain

    compact_not_full :
        length tail + length chunk < buf_size
        → compact drained ≡ ok (record drained { cur_bytes = 0; data_pointer = 0 })
    unfolding compact
    compact_not_full less = ground arith

    -- What is moved to the front of a full buffer.
    abbrev kept : List ℕ
    kept = take (buf_size - length stream) (drop (length stream) drained.bytes)

    abbrev refilled : IoData
    refilled = record drained {
      bytes = write_at 0 kept drained.bytes;
      cur_bytes = buf_size - length stream;
      data_pointer = 0;
    }

    compact_full :
        length tail + length chunk ≡ buf_size
        → length tail' ≤ length stream
        → compact drained ≡ ok refilled
    unfolding compact
    compact_full full apart =
        let is_full : ((length tail + length chunk) == buf_size) ≡ true = eq→== _ _ full in
        let left = behind_lem (length stream) (omega (arith, lengths)) in
        let inside : ltb buf_size (length stream + (buf_size - length stream)) ≡ false =
          le→ltb _ _ (omega (arith, lengths)) in
        let no_overlap : ltb (length stream) (buf_size - length stream) ≡ false =
          le→ltb _ _ (omega (arith, lengths)) in
        rw (is_full, left, inside, no_overlap) refl

    kept_lem : length tail + length chunk ≡ buf_size → kept ≡ tail'
    kept_lem full =
        let (after, e) = drained-bytes in
        let size : length tail' ≡ buf_size - length stream = omega (arith, lengths) in
        ap (λ b. take (buf_size - length stream) (drop (length stream) b)) e
        ∙ ap (take (buf_size - length stream)) (drop-length (length stream) stream _ refl)
        ∙ take-length (buf_size - length stream) tail' after size

    -- A receive that does not fill the buffer hands over the whole packets, and drops what follows
    -- them: the buffer is empty afterwards.
    pub receive_not_full :
        length tail + length chunk < buf_size
        → (io' : IoData) × (receive fuel chunk io ≡ ok (io', packets)) × Holds io' []
    receive_not_full less = (
      record drained { cur_bytes = 0; data_pointer = 0 },
      receive-drain ∙ ap (λ c. c >>= λ io'. ok (io', packets)) (compact_not_full less),
      record {
        rest = (deliver chunk io).bytes;
        pointer = refl;
        counted = refl;
        sized = deliver-length io tail chunk h room;
        prefix = refl;
      },
    )

    -- A receive that fills the buffer hands over the whole packets, and keeps what follows them.
    pub receive_full :
        length tail + length chunk ≡ buf_size
        → length tail' ≤ length stream
        → (io' : IoData) × (receive fuel chunk io ≡ ok (io', packets)) × Holds io' tail'
    receive_full full apart = (
      refilled,
      receive-drain ∙ ap (λ c. c >>= λ io'. ok (io', packets)) (compact_full full apart),
      record {
        rest = drop (0 + length kept) drained.bytes;
        pointer = refl;
        counted = omega (arith, lengths);
        sized =
            length-write_at 0 kept drained.bytes (
              omega
                (arith, ap length (kept_lem full), lengths, deliver-length io tail chunk h room))
            ∙ deliver-length io tail chunk h room;
        prefix = ap (λ k. k ++ drop (0 + length kept) drained.bytes) (kept_lem full);
      },
    )
