-- ===== src/Session/Receive.antt =====
-- `Session::OnRecv` of YServerCore/Session.cpp over whole conversations and on hostile bytes.
use yserver_core.Common.{
  ℕ, ◌+◌, ◌<◌, ◌≡◌, refl, sym, ◌∙◌, List, [], ◌∷◌, ◌++◌, Result, ok, ◌>>=◌, arith, length, All,
  append-nil, map,
}
use yserver_core.Packet.{buf_size}
use yserver_core.Framing.{IoData, deliver}
use yserver_core.Framing.Frames.{IsPartial, short}
use yserver_core.Framing.Reassembly.{Holds, receive, receive_not_full, receive_full}
use yserver_core.Framing.Streams.{Arrives, nothing, on_boundary, full}
use yserver_core.Handlers.{Request, server_table}
use yserver_core.Handlers.Wire.{IsRequest, requests_image, requests_image-Frames}
use yserver_core.Session.{Session, Received, on_recv, after_recv, ready_to_recieve}

-- The system fills the buffer that it was handed, and the completion calls `OnRecv`.
unfoldable pub complete_recv : ℕ → List ℕ → Session → Result Received
complete_recv fuel chunk s = on_recv fuel (length chunk) (record s { read = deliver chunk s.read })

-- Several completions, one after the other: the session and all the requests.
unfoldable pub complete_recvs : ℕ → List (List ℕ) → Session → Result (Session × List Request)
complete_recvs fuel [] s = ok (s, [])
complete_recvs fuel (chunk ∷ chunks) s = complete_recv fuel chunk s >>= λ (now : Received).
    complete_recvs fuel chunks now.session >>= λ (later : Session × List Request).
    ok (later.0, now.requests ++ later.1)

-- `OnRecv` on a chunk that is not empty is the loop and what follows it on the read buffer.
complete_recv-receive :
    (fuel : ℕ) (chunk : List ℕ) (s : Session) {io : IoData} {requests : List Request}
    → 0 < length chunk
    → receive server_table fuel chunk s.read ≡ ok (io, requests)
    → complete_recv fuel chunk s ≡ ok (after_recv s (io, requests))
unfolding complete_recv on_recv receive
complete_recv-receive fuel chunk s some_bytes e = ground arith

-- The session between two receives: its read buffer starts with `tail`.
abbrev pub Waits : Session → List ℕ → Type 0
Waits s tail = Holds s.read tail

-- `ReadyToRecieve` leaves what the buffer holds.
after_recv-Waits :
    (s : Session) (io : IoData) (requests : List Request) (tail : List ℕ)
    → Holds io tail
    → Waits (after_recv s (io, requests)).session tail
unfolding ready_to_recieve
after_recv-Waits s io requests tail h = record {
  rest = h.rest;
  pointer = h.pointer;
  counted = h.counted;
  sized = h.sized;
  prefix = h.prefix;
}

complete_recvs_step :
    (fuel : ℕ) (chunk : List ℕ) (chunks : List (List ℕ)) (s s' : Session) (io : IoData)
    (now later : List Request)
    → 0 < length chunk
    → receive server_table fuel chunk s.read ≡ ok (io, now)
    → complete_recvs fuel chunks (after_recv s (io, now)).session ≡ ok (s', later)
    → complete_recvs fuel (chunk ∷ chunks) s ≡ ok (s', now ++ later)
unfolding complete_recvs
complete_recvs_step fuel chunk chunks s s' io now later some_bytes first rest =
    rw (complete_recv-receive fuel chunk s some_bytes first, rest) refl

-- A conversation over `OnRecv`. The buffer starts with `tail` and each receive brings one chunk: a
-- chunk is not empty, and either does not fill the buffer and ends where a packet ends, or fills it
-- and ends in a partial packet no longer than the whole packets before it. With more fuel than the
-- buffer has bytes, `OnRecv` returns from every receive, starts the request of every packet once,
-- in order, and leaves the buffer with the partial packet of the last chunk.
pub complete_recvs-Arrives :
    (fuel : ℕ) (s : Session) {tail last : List ℕ} {chunks : List (List ℕ)} {requests : List Request}
    → buf_size < fuel
    → Waits s tail
    → Arrives server_table tail chunks requests last
    → (s' : Session) × (complete_recvs fuel chunks s ≡ ok (s', requests)) × Waits s' last
complete_recvs-Arrives fuel s enough w nothing = (s, unfold complete_recvs in refl, w)
complete_recvs-Arrives fuel s {tail} enough w
      (on_boundary chunk stream {chunks} {now} {later} some_bytes room cut fs rest) =
    let (io, first, holds) =
      receive_not_full server_table fuel enough s.read tail chunk [] w (omega arith)
        (cut ∙ sym (append-nil stream)) fs (short (omega arith)) room in
    let (s', others, w') =
      complete_recvs-Arrives fuel (after_recv s (io, now)).session enough
        (after_recv-Waits s io now [] holds) rest in
    (s', complete_recvs_step fuel chunk chunks s s' io now later some_bytes first others, w')
complete_recvs-Arrives fuel s {tail} enough w
      (full chunk stream tail' {chunks} {now} {later} some_bytes room cut fs partial apart rest) =
    let (io, first, holds) =
      receive_full server_table fuel enough s.read tail chunk tail' w (omega arith) cut fs partial
        room apart in
    let (s', others, w') =
      complete_recvs-Arrives fuel (after_recv s (io, now)).session enough
        (after_recv-Waits s io now tail' holds) rest in
    (s', complete_recvs_step fuel chunk chunks s s' io now later some_bytes first others, w')

-- Chunks of whole requests, none of which is empty or fills the buffer.
abbrev pub Chunks : List (List Request) → Type 0
Chunks = All λ rs.
    (0 < length (requests_image rs)) × (length (requests_image rs) < buf_size) × All IsRequest rs

abbrev pub concat {ℓ} : {A : Type ℓ} → List (List A) → List A
concat [] = []
concat (xs ∷ xss) = xs ++ concat xss

pub images-Arrives :
    (rss : List (List Request))
    → Chunks rss
    → Arrives server_table [] (map requests_image rss) (concat rss) []
images-Arrives [] v = nothing
images-Arrives (rs ∷ rss) v =
    on_boundary (requests_image rs) (requests_image rs) v.0.0 (omega (arith, v.0.1)) refl
      (requests_image-Frames rs v.0.2) (images-Arrives rss v.1)

-- With more fuel than the buffer has bytes: a receive that is not empty and does not fill the
-- buffer, and that brings whole requests and then a partial packet, starts those requests in order
-- and leaves the buffer counting nothing, so that the partial packet is lost.
pub complete_recv_drops :
    (fuel : ℕ) (s : Session) (tail chunk tail' : List ℕ) (rs : List Request)
    → buf_size < fuel
    → Waits s tail
    → 0 < length chunk
    → length tail + length chunk < buf_size
    → All IsRequest rs
    → tail ++ chunk ≡ requests_image rs ++ tail'
    → IsPartial tail'
    → (r : Received) × (complete_recv fuel chunk s ≡ ok r) × (r.requests ≡ rs) × Waits r.session []
complete_recv_drops fuel s tail chunk tail' rs enough w some_bytes room v cut partial =
    let (io, now, holds) =
      receive_not_full server_table fuel enough s.read tail chunk tail' w (omega arith) cut
        (requests_image-Frames rs v) partial room in
    (
      after_recv s (io, rs),
      complete_recv-receive fuel chunk s some_bytes now,
      refl,
      after_recv-Waits s io rs [] holds,
    )
