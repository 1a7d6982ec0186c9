-- ===== src/Framing/Unhandled.antt =====
-- A receive that begins with a packet whose type has no handler, in `Session::OnRecv` and
-- `Client::RecieveWork`: the loop is left at it.
use yserver_core.Common.{
  ℕ, suc, ◌+◌, ◌%◌, ◌≤◌, ◌<◌, ◌≡◌, refl, ap, ◌∙◌, List, [], ◌++◌, none, some, Result, ok, ◌>>=◌,
  arith, length, drop,
}
use yserver_core.Packet.{Header, buf_size, header_size}
use yserver_core.Packet.Layout.{read_header}
use yserver_core.Framing.{IoData, Table, next, drain, compact, absorb, deliver, size_mod}
use yserver_core.Framing.Steps.{unread, next_unhandled, drain_end}
use yserver_core.Framing.Reassembly.{Holds, deliver-bytes, deliver-length, receive}

-- The chunk begins with a header of a known type that has no handler.
pub record IsUnhandled {T : Type 0} (table : Table T) (chunk : List ℕ) : Type 0 where
  pub header : Header
  pub long : header_size ≤ length chunk
  pub reads :
      (rest : List ℕ) → (after : List ℕ) × (read_header (chunk ++ rest) ≡ some (header, after))
  pub known : header.io_type < table.slots
  pub unset : table.handler header.io_type ≡ none

module _ {T : Type 0} (table : Table T) (io : IoData) (chunk : List ℕ) (empty : Holds io [])
    (room : length chunk < buf_size) (u : IsUnhandled table chunk) where
  abbrev filled : IoData
  filled = record (deliver chunk io) { cur_bytes = length chunk }

  filled_pointer : filled.data_pointer ≡ 0
  unfolding deliver
  filled_pointer = empty.pointer

  filled_rest : (after : List ℕ) × (unread filled ≡ chunk ++ after)
  filled_rest =
      let (after, e) = deliver-bytes io [] chunk empty (omega (arith, room)) in
      (after, ap (λ k. drop k filled.bytes) filled_pointer ∙ e)

  ends : next table filled ≡ ok none
  ends =
      let (after, e) = filled_rest in
      let (rest, reads) = u.reads after in
      next_unhandled table filled u.header rest (omega (arith, filled_pointer, u.long))
        (omega (arith, filled_pointer, u.long)) (ap read_header e ∙ reads) u.known u.unset

  compacts : compact filled ≡ ok (record filled { cur_bytes = 0; data_pointer = 0 })
  unfolding compact
  compacts = ground (arith, room)

  counted : ((deliver chunk io).cur_bytes + length chunk) % size_mod ≡ length chunk
  unfolding deliver
  counted = omega (arith, empty.counted, room)

  pub receive_unhandled :
      (fuel : ℕ)
      → (io' : IoData) × (receive table (suc fuel) chunk io ≡ ok (io', [])) × Holds io' []
  unfolding receive absorb
  receive_unhandled fuel = (
    record filled { cur_bytes = 0; data_pointer = 0 },
    ap
          (λ k.
            drain table (suc fuel) (record (deliver chunk io) { cur_bytes = k })
            >>= λ (r : IoData × List T). compact r.0 >>= λ io'. ok (io', r.1))
          counted
        ∙ ap
            (λ (d : Result (IoData × List T)).
              d >>= λ (r : IoData × List T). compact r.0 >>= λ io'. ok (io', r.1))
            (drain_end table fuel filled ends)
        ∙ ap (λ (c : Result IoData). c >>= λ io'. ok (io', [])) compacts,
    record {
      rest = (deliver chunk io).bytes;
      pointer = refl;
      counted = refl;
      sized = deliver-length io [] chunk empty (omega (arith, room));
      prefix = refl;
    },
  )
