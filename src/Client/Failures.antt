-- ===== src/Client/Failures.antt =====
-- `Client::RecieveWork` of Client/Client/Client.cpp when `recv` fails: the result -1 is added to a
-- size_t, and the loop reads what is left in the buffer.
use yserver_core.Common.{
  ℕ, zero, suc, ◌+◌, ◌-◌, ◌%◌, ◌^◌, ◌≤◌, ◌<◌, ◌≡◌, refl, ap, ◌∙◌, List, [], ◌∷◌, ◌++◌, none, some,
  Result, ok, ◌>>=◌, length, drop, arith, length-append, drop-length,
}
use yserver_core.Packet.{Header, ChatMessage, buf_size}
use yserver_core.Packet.Layout.{read_header}
use yserver_core.Framing.{IoData, next, drain, compact, absorb, size_mod}
use yserver_core.Framing.Steps.{unread, next_unhandled, drain_more, drain_end}
use yserver_core.Framing.Frames.{IsFrame, next-IsFrame}
use yserver_core.Framing.Reassembly.{Holds}
use yserver_core.Client.{client_table, failed, recieve_round, recieve_with}
use yserver_core.Client.Conversation.{reading}

module _ (io : IoData) (frame rest after : List ℕ) (m : ChatMessage) (h' : Header)
    (empty : Holds io []) (left : io.bytes ≡ frame ++ rest) (f : IsFrame client_table frame m)
    (reads : read_header rest ≡ some (h', after)) (known : h'.io_type < client_table.slots)
    (unset : client_table.handler h'.io_type ≡ none) where
  -- The count after the failure.
  abbrev miscounted : IoData
  miscounted = record (reading io) { cur_bytes = 2 ^ 64 - 1 }

  abbrev moved : IoData
  moved = record miscounted { data_pointer = miscounted.data_pointer + length frame }

  frame_fits : length frame ≤ buf_size
  frame_fits = omega (arith, ap length left, length-append frame rest, empty.sized)

  front_miscounted : unread miscounted ≡ frame ++ rest
  front_miscounted = ap (λ k. drop k io.bytes) empty.pointer ∙ left

  behind_moved : unread moved ≡ rest
  behind_moved =
      let at : io.data_pointer + length frame ≡ length frame = omega (arith, empty.pointer) in
      ap (λ k. drop k io.bytes) at
      ∙ ap (drop (length frame)) left
      ∙ drop-length (length frame) frame rest refl

  first_round : next client_table miscounted ≡ ok (some (moved, m))
  first_round =
      next-IsFrame client_table miscounted frame rest m f front_miscounted
        (omega (arith, empty.pointer, frame_fits))

  second_round : next client_table moved ≡ ok none
  second_round =
      next_unhandled client_table moved h' after (omega (arith, empty.pointer, frame_fits))
        (omega (arith, empty.pointer, frame_fits)) (ap read_header behind_moved ∙ reads) known unset

  drain_replays : (fuel : ℕ) → drain client_table (suc (suc fuel)) miscounted ≡ ok (moved, m ∷ [])
  drain_replays fuel =
      drain_more client_table (suc fuel) miscounted moved m first_round
      ∙ ap
          (λ (r : Result (IoData × List ChatMessage)).
            r >>= λ (rest : IoData × List ChatMessage). ok (rest.0, m ∷ rest.1))
          (drain_end client_table fuel moved second_round)

  abbrev emptied : IoData
  emptied = record moved { cur_bytes = 0; data_pointer = 0 }

  compact_moved : compact moved ≡ ok emptied
  unfolding compact
  compact_moved = refl

  absorb_replays :
      (fuel : ℕ)
      → absorb client_table (suc (suc fuel)) (2 ^ 64 - 1) (reading io) ≡ ok (emptied, m ∷ [])
  unfolding absorb
  absorb_replays fuel =
      let counted : (io.cur_bytes + (2 ^ 64 - 1)) % size_mod ≡ 2 ^ 64 - 1 =
        omega (arith, empty.counted) in
      ap
        (λ k.
          drain client_table (suc (suc fuel)) (record (reading io) { cur_bytes = k })
          >>= λ (r : IoData × List ChatMessage). compact r.0 >>= λ io'. ok (io', r.1))
        counted
      ∙ ap
          (λ (r : Result (IoData × List ChatMessage)).
            r >>= λ (r : IoData × List ChatMessage). compact r.0 >>= λ io'. ok (io', r.1))
          (drain_replays fuel)
      ∙ ap (λ (r : Result IoData). r >>= λ io'. ok (io', m ∷ [])) compact_moved

  -- A `recv` that fails, with an empty buffer in whose memory a message that was handled still
  -- lies, followed by a header of a known type without a handler, and with a fuel of at least 2:
  -- the client handles that message again, and leaves the buffer empty.
  pub recieve_round_replays :
      (fuel : ℕ)
      → 1 < fuel
      → (io' : IoData) × (recieve_round fuel failed io ≡ ok (io', m ∷ [])) × Holds io' []
  unfolding recieve_round recieve_with
  recieve_round_replays zero enough = absurd (omega arith)
  recieve_round_replays (suc zero) enough = absurd (omega arith)
  recieve_round_replays (suc (suc fuel)) enough = (
    emptied,
    absorb_replays fuel,
    record { rest = io.bytes; pointer = refl; counted = refl; sized = empty.sized; prefix = refl },
  )
