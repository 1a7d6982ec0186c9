-- ===== src/Framing/Streams.antt =====
-- A whole conversation: a list of receives into the buffer of `Session::OnRecv` or
-- `Client::RecieveWork`.
use yserver_core.Common.{ℕ, ◌+◌, ◌≤◌, ◌<◌, ◌≡◌, List, [], ◌∷◌, ◌++◌, length}
use yserver_core.Packet.{buf_size}
use yserver_core.Framing.{Table}
use yserver_core.Framing.Frames.{IsPartial, Frames}

module _ {T : Type 0} (table : Table T) where
  -- `Arrives tail chunks packets last`: with `tail` in the buffer, the chunks hold these packets and
  -- leave `last`. No chunk is empty, and a chunk that does not fill the buffer ends where a packet ends.
  pub data Arrives : List ℕ → List (List ℕ) → List T → List ℕ → Type 0 where
    nothing : {tail : List ℕ} → Arrives tail [] [] tail
    on_boundary :
        {tail last : List ℕ} (chunk stream : List ℕ) {chunks : List (List ℕ)} {now later : List T}
        → 0 < length chunk
        → length tail + length chunk < buf_size
        → tail ++ chunk ≡ stream
        → Frames table stream now
        → Arrives [] chunks later last
        → Arrives tail (chunk ∷ chunks) (now ++ later) last
    full :
        {tail last : List ℕ} (chunk stream tail' : List ℕ) {chunks : List (List ℕ)}
        {now later : List T}
        → 0 < length chunk
        → length tail + length chunk ≡ buf_size
        → tail ++ chunk ≡ stream ++ tail'
        → Frames table stream now
        → IsPartial tail'
        → length tail' ≤ length stream
        → Arrives tail' chunks later last
        → Arrives tail (chunk ∷ chunks) (now ++ later) last
