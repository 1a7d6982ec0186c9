-- ===== src/Session/Writers.antt =====
-- `Session::SendPacket` of YServerCore/Session.cpp by several threads on one session. The mutex
-- makes two steps of a call: a packet is buffered, then the buffer is sent. Between the two other
-- threads may take either step.
use yserver_core.Common.{
  ℕ, zero, suc, ◌+◌, ◌*◌, ◌^◌, ◌<◌, ◌≤◌, ◌≡◌, inl, inr, refl, ap, sym, ◌∙◌, List, [], ◌++◌, Option,
  none, some, Result, ok, err, Error, arith, length, take, append-nil, append_assoc, ◌==◌,
  Bool-cases, false,
}
use yserver_core.Common.Family.{total, update, update_self, update_ne, total-update, total_room}
use yserver_core.Packet.{Header, buf_size}
use yserver_core.Packet.Layout.{read_header}
use yserver_core.Framing.{IoData}
use yserver_core.Session.{Session, send, buffer_packet}
use yserver_core.Session.Send.{
  IsIdle, Buffered, buffered, buffered_lem, buffered-Buffered, buffer_packet_branches,
}

-- What a thread has buffered and not yet sent.
abbrev pub size_of : Option ℕ → ℕ
size_of none = 0
size_of (some n) = n

-- The session, what each thread has waiting, and all that was buffered so far, in order.
pub record Writing : Type 0 where
  pub session : Session
  pub waiting : ℕ → Option ℕ
  pub taken : List ℕ

abbrev pub sizes : Writing → ℕ → ℕ
sizes s j = size_of (s.waiting j)

-- `n` threads, whose packets have at most `b` bytes, on a session that starts as `begin`.
module _ (last_error : Session → ℕ) (n b : ℕ) (begin : Session) where
  pub data Step (s : Writing) : Writing → Type 0 where
    buffers :
        (i : ℕ) (packet rest : List ℕ) (h : Header) (io : IoData)
        → i < n
        → s.waiting i ≡ none
        → read_header packet ≡ some (h, rest)
        → h.size ≤ b
        → h.size < 2 ^ 32
        → buffer_packet packet s.session.write ≡ ok io
        → Step s (record {
          session = record s.session { write = io };
          waiting = update s.waiting i (some h.size);
          taken = s.taken ++ take h.size packet;
        })
    sends :
        (i size : ℕ)
        → s.waiting i ≡ some size
        → (send last_error s.session).closes ≡ false
        → Step s (record {
          session = (send last_error s.session).session;
          waiting = update s.waiting i none;
          taken = s.taken;
        })

  pub data Reach : Writing → Type 0 where
    start : Reach (record { session = begin; waiting = λ _. none; taken = [] })
    next : {s s' : Writing} → Reach s → Step s s' → Reach s'

  record Inv (s : Writing) : Type 0 where
    sized : length s.session.write.bytes ≡ buf_size
    capped : s.session.write.cur_bytes ≤ buf_size
    counted : s.session.write.cur_bytes ≤ total n (sizes s)
    small : (j : ℕ) → sizes s j ≤ b
    kept :
        s.session.wire ++ take s.session.write.cur_bytes s.session.write.bytes
        ≡ begin.wire ++ s.taken

  small_update :
      (waiting : ℕ → Option ℕ) (i : ℕ) (v : Option ℕ)
      → ((j : ℕ) → size_of (waiting j) ≤ b)
      → size_of v ≤ b
      → (j : ℕ) → size_of (update waiting i v j) ≤ b
  small_update waiting i v small fits j = elim (Bool-cases (i == j)) [
    | inl here ↦ rw here fits
    | inr there ↦ rw there (small j)
  ]

  buffers-Inv :
      (s : Writing) (i : ℕ) (packet : List ℕ) (size : ℕ) (io : IoData)
      → i < n
      → s.waiting i ≡ none
      → size ≤ b
      → Buffered packet size s.session.write io
      → Inv s
      → Inv (record {
        session = record s.session { write = io };
        waiting = update s.waiting i (some size);
        taken = s.taken ++ take size packet;
      })
  buffers-Inv s i packet size io lt idle fits buf v =
      let sums =
        total-update n (sizes s) (λ j. size_of (update s.waiting i (some size) j)) i lt
          (λ j ne. ap size_of (update_ne s.waiting i j (some size) ne)) in
      let now = ap size_of (update_self s.waiting i (some size)) in
      let before = ap size_of idle in
      record {
        sized = buf.sized;
        capped = buf.fits;
        counted = omega (arith, buf.counted, v.counted, sums, now, before);
        small = small_update s.waiting i (some size) v.small fits;
        kept =
            ap (◌++◌ s.session.wire) buf.waiting
            ∙ sym (append_assoc s.session.wire _ (take size packet))
            ∙ ap (λ k. k ++ take size packet) v.kept
            ∙ append_assoc begin.wire s.taken (take size packet);
      }

  sends-Inv :
      (s : Writing) (i : ℕ)
      → Inv s
      → Inv (record {
        session = (send last_error s.session).session;
        waiting = update s.waiting i none;
        taken = s.taken;
      })
  unfolding send
  sends-Inv s i v = record {
    sized = v.sized;
    capped = omega arith;
    counted = omega arith;
    small = small_update s.waiting i none v.small (omega arith);
    kept = append-nil _ ∙ v.kept;
  }

  -- A packet that was buffered stands behind what waited.
  takes-Buffered :
      (s : Writing) (packet rest : List ℕ) (h : Header) (io : IoData)
      → read_header packet ≡ some (h, rest)
      → h.size < 2 ^ 32
      → buffer_packet packet s.session.write ≡ ok io
      → Inv s
      → Buffered packet h.size s.session.write io
  takes-Buffered s packet rest h io reads word e v =
      elim (buffer_packet_branches packet rest h s.session.write reads v.sized v.capped word) [
        | inl (_, fails) ↦ absurd (different (sym e ∙ fails))
        | inr (inl (_, fails)) ↦ absurd (different (sym e ∙ fails))
        | inr (inr (io', takes, buf)) ↦ rw (same (sym e ∙ takes)) buf
      ]
    where
      different : {io : IoData} {e : Error} → ◌≡◌ {A = Result IoData} (ok io) (err e) → ⊥
      different e = cc

      same : {io io' : IoData} → ◌≡◌ {A = Result IoData} (ok io) (ok io') → io ≡ io'
      same e = cc

  Step-Inv : {s s' : Writing} → Step s s' → Inv s → Inv s'
  Step-Inv {s} (buffers i packet rest h io lt idle reads fits word e) v =
      buffers-Inv s i packet h.size io lt idle fits
        (takes-Buffered s packet rest h io reads word e v) v
  Step-Inv {s} (sends i size waits open_still) v = sends-Inv s i v

  Reach-Inv : IsIdle begin → {s : Writing} → Reach s → Inv s
  Reach-Inv idle start = record {
    sized = idle.sized;
    capped = omega (arith, idle.counted);
    counted = omega (arith, idle.counted);
    small = λ j. omega arith;
    kept = ap (λ k. begin.wire ++ take k begin.write.bytes) idle.counted;
  }
  Reach-Inv idle (next r st) = Step-Inv st (Reach-Inv idle r)

  -- On a session that was idle, in whatever order the threads take their two steps, the wire
  -- followed by what waits in the write buffer is the wire of the beginning followed by all that
  -- was buffered, in the order of the buffering.
  pub wire-taken :
      {s : Writing}
      → IsIdle begin
      → Reach s
      → s.session.wire ++ take s.session.write.cur_bytes s.session.write.bytes
        ≡ begin.wire ++ s.taken
  wire-taken idle r = (Reach-Inv idle r).kept

  total_none : (k : ℕ) (f : ℕ → ℕ) → ((j : ℕ) → f j ≡ 0) → total k f ≡ 0
  total_none zero f none_waits = refl
  total_none (suc k) f none_waits = omega (arith, none_waits k, total_none k f none_waits)

  -- On a session that was idle, in whatever order the threads take their two steps: when no thread
  -- is between its two, the wire is that of the beginning followed by all that was buffered, in the
  -- order of the buffering.
  pub wire_all :
      {s : Writing}
      → IsIdle begin
      → Reach s
      → ((j : ℕ) → s.waiting j ≡ none)
      → s.session.wire ≡ begin.wire ++ s.taken
  wire_all {s} idle r quiet =
      let v = Reach-Inv idle r in
      let empty : s.session.write.cur_bytes ≡ 0 =
        omega (arith, v.counted, total_none n (sizes s) (λ j. ap size_of (quiet j))) in
      sym (append-nil s.session.wire)
      ∙ ap (λ k. s.session.wire ++ take k s.session.write.bytes) (sym empty)
      ∙ v.kept

  -- On a session that was idle, with `n` threads whose packets have at most `b` bytes and `n * b`
  -- at most the buffer's size: in every state that they reach, a thread that has nothing waiting
  -- gets its packet buffered, if the packet's size is at most `b` and that of its memory.
  pub buffer_packet_room :
      {s : Writing}
      → IsIdle begin
      → n * b ≤ buf_size
      → Reach s
      → (i : ℕ) (packet rest : List ℕ) (h : Header) → i < n
      → s.waiting i ≡ none
      → read_header packet ≡ some (h, rest)
      → h.size ≤ b
      → h.size ≤ length packet
      → (io : IoData) × (buffer_packet packet s.session.write ≡ ok io)
        × Buffered packet h.size s.session.write io
  buffer_packet_room {s} idle room r i packet rest h lt free reads fits inside =
      let v = Reach-Inv idle r in
      let others = total_room n b (sizes s) i v.small lt (ap size_of free) in
      let space : s.session.write.cur_bytes + h.size ≤ buf_size =
        omega (arith, v.counted, others) in
      (
        buffered packet rest h s.session.write reads,
        buffered_lem packet rest h s.session.write reads space inside,
        buffered-Buffered packet rest h s.session.write reads v.sized space inside,
      )
