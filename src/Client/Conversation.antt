-- ===== src/Client/Conversation.antt =====
-- `Client::RecieveWork` of Client/Client/Client.cpp on what the server sends.
use yserver_core.Common.{
  ℕ, ◌<◌, ◌≡◌, refl, sym, ◌∙◌, List, [], ◌∷◌, ◌++◌, ok, map, arith, append-nil,
}
use yserver_core.Packet.{ChatMessage, buf_size, code, s_chat, chat_message_size}
use yserver_core.Packet.Layout.{IsChatMessage, chat_message_image, read_chat_message}
use yserver_core.Packet.RoundTrip.{length-chat_message_image, read_chat_message-chat_message_image}
use yserver_core.Framing.{IoData, IoUsage}
use yserver_core.Framing.Frames.{IsFrame, short}
use yserver_core.Framing.Reassembly.{Holds, receive, receive_not_full, receive_full}
use yserver_core.Framing.Streams.{Arrives, nothing, on_boundary, full}
use yserver_core.Handlers.Wire.{Names, struct-IsFrame}
use yserver_core.Client.{
  client_table, client_handler, Recv, got, recieve_round, recieve_with, recieve_work,
}

-- A message of the server's is one frame for the client.
pub chat_message_image-IsFrame :
    (m : ChatMessage)
    → IsChatMessage m
    → Names m.header (code s_chat) chat_message_size
    → IsFrame client_table (chat_message_image m) m
unfolding client_handler chat_message_image
chat_message_image-IsFrame m v named =
    struct-IsFrame client_table m m.header _ read_chat_message (λ k. k) v.is_header
      (named.1 ∙ sym (length-chat_message_image m v)) (omega (arith, named.0)) (rw named.0 refl)
      (λ rest. read_chat_message-chat_message_image m rest v)

abbrev pub reading : IoData → IoData
reading io = record io { usage = IoUsage.read }

pub reading-Holds : (io : IoData) (tail : List ℕ) → Holds io tail → Holds (reading io) tail
reading-Holds io tail h = record {
  rest = h.rest;
  pointer = h.pointer;
  counted = h.counted;
  sized = h.sized;
  prefix = h.prefix;
}

recieve_work_step :
    (fuel : ℕ) (chunk : List ℕ) (rs : List Recv) (io io1 io2 : IoData)
    (now later : List ChatMessage)
    → receive client_table fuel chunk (reading io) ≡ ok (io1, now)
    → recieve_work fuel rs io1 ≡ ok (io2, later)
    → recieve_work fuel (got chunk ∷ rs) io ≡ ok (io2, now ++ later)
unfolding recieve_work recieve_round recieve_with receive
recieve_work_step fuel chunk rs io io1 io2 now later first rest = rw (first, rest) refl

-- A conversation over `Client::RecieveWork`. The buffer starts with `tail` and each receive brings
-- one chunk: a chunk is not empty, and either does not fill the buffer and ends where a message
-- ends, or fills it and ends in a partial message no longer than the whole messages before it. With
-- more fuel than the buffer has bytes, the client handles every message once, in order, and leaves
-- the buffer with the partial message of the last chunk.
pub recieve_work-Arrives :
    (fuel : ℕ) (io : IoData) {tail last : List ℕ} {chunks : List (List ℕ)}
    {messages : List ChatMessage}
    → buf_size < fuel
    → Holds io tail
    → Arrives client_table tail chunks messages last
    → (io' : IoData) × (recieve_work fuel (map got chunks) io ≡ ok (io', messages)) × Holds io' last
recieve_work-Arrives fuel io enough h nothing = (io, unfold recieve_work in refl, h)
recieve_work-Arrives fuel io {tail} enough h
      (on_boundary chunk stream {chunks} {now} {later} _ room cut fs rest) =
    let (io1, first, h1) =
      receive_not_full client_table fuel enough (reading io) tail chunk [] (reading-Holds io tail h)
        (omega arith) (cut ∙ sym (append-nil stream)) fs (short (omega arith)) room in
    let (io2, others, h2) = recieve_work-Arrives fuel io1 enough h1 rest in
    (io2, recieve_work_step fuel chunk (map got chunks) io io1 io2 now later first others, h2)
recieve_work-Arrives fuel io {tail} enough h
      (full chunk stream tail' {chunks} {now} {later} _ room cut fs partial apart rest) =
    let (io1, first, h1) =
      receive_full client_table fuel enough (reading io) tail chunk tail' (reading-Holds io tail h)
        (omega arith) cut fs partial room apart in
    let (io2, others, h2) = recieve_work-Arrives fuel io1 enough h1 rest in
    (io2, recieve_work_step fuel chunk (map got chunks) io io1 io2 now later first others, h2)
