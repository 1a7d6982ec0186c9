-- ===== src/Examples/Clients.antt =====
-- Runs of the client, Client/Client/Client.cpp, and of the consoles.
use yserver_core.Common.{
  ℕ, ◌<◌, ◌≡◌, refl, List, [], ◌∷◌, ◌++◌, none, ok, length, map, replicate, arith, length-append,
  length-replicate,
}
use yserver_core.CString.{codes, visible}
use yserver_core.Packet.{ChatMessage, code, s_chat, chat_message_size}
use yserver_core.Packet.Layout.{IsChatMessage, chat_message_image, header_image}
use yserver_core.Packet.RoundTrip.{
  length-chat_message_image, read_header-header_image, length-header_image,
}
use yserver_core.Framing.{IoData, IoUsage, cleared}
use yserver_core.Framing.Frames.{IsFrame, Frames, frames, no_frames}
use yserver_core.Framing.Reassembly.{Holds, cleared-Holds}
use yserver_core.Framing.Streams.{Arrives, nothing, on_boundary}
use yserver_core.Client.{client_table, client_handler, got, failed, recieve_round, recieve_work}
use yserver_core.Client.Conversation.{chat_message_image-IsFrame, recieve_work-Arrives}
use yserver_core.Client.Failures.{recieve_round_replays}
use yserver_core.Client.Consoles.{IsBlank}
use yserver_core.Examples.Data.{header, header-IsHeader}

abbrev pub spoken : ChatMessage
spoken = record {
  header = header (code s_chat) chat_message_size;
  id = replicate 24 0;
  message = replicate 512 0;
}

spoken-IsChatMessage : IsChatMessage spoken
spoken-IsChatMessage = record {
  is_header = header-IsHeader 6 580 (omega arith) (omega arith);
  id_length = refl;
  message_length = length-replicate {A = ℕ} 512 0;
}

abbrev pub spoken_bytes : List ℕ
spoken_bytes = chat_message_image spoken

pub spoken-IsFrame : IsFrame client_table spoken_bytes spoken
spoken-IsFrame = chat_message_image-IsFrame spoken spoken-IsChatMessage (refl, refl)

pub length-spoken : length spoken_bytes ≡ 580
length-spoken = length-chat_message_image spoken spoken-IsChatMessage

-- Two messages in one receive, and one in the next.
twice : Frames client_table (spoken_bytes ++ (spoken_bytes ++ [])) (spoken ∷ spoken ∷ [])
twice =
    frames spoken_bytes spoken spoken-IsFrame (frames spoken_bytes spoken spoken-IsFrame no_frames)

once : Frames client_table (spoken_bytes ++ []) (spoken ∷ [])
once = frames spoken_bytes spoken spoken-IsFrame no_frames

length-twice : length (spoken_bytes ++ (spoken_bytes ++ [])) ≡ 1160
length-twice = omega (
  arith,
  length-spoken,
  length-append spoken_bytes (spoken_bytes ++ []),
  length-append spoken_bytes [],
)

length-once : length (spoken_bytes ++ []) ≡ 580
length-once = omega (arith, length-spoken, length-append spoken_bytes [])

abbrev chunks : List (List ℕ)
chunks = (spoken_bytes ++ (spoken_bytes ++ [])) ∷ (spoken_bytes ++ []) ∷ []

chunks-Arrives : Arrives client_table [] chunks (spoken ∷ spoken ∷ spoken ∷ []) []
chunks-Arrives =
    on_boundary (spoken_bytes ++ (spoken_bytes ++ [])) (spoken_bytes ++ (spoken_bytes ++ []))
      (omega (arith, length-twice)) (omega (arith, length-twice)) refl twice
      (on_boundary (spoken_bytes ++ []) (spoken_bytes ++ []) (omega (arith, length-once))
        (omega (arith, length-once)) refl once nothing)

recieve_work-Arrives_example :
    (io' : IoData) × (recieve_work 5000 (map got chunks) (cleared IoUsage.read)
      ≡ ok (io', spoken ∷ spoken ∷ spoken ∷ []))
    × Holds io' []
recieve_work-Arrives_example =
    recieve_work-Arrives 5000 (cleared IoUsage.read) (omega arith) (cleared-Holds IoUsage.read)
      chunks-Arrives

-- The buffer after one message, which is handled, and zeros behind it.
abbrev idle_header : List ℕ
idle_header = header_image (header 0 0)

abbrev stale : IoData
stale = record (cleared IoUsage.read) { bytes = spoken_bytes ++ (idle_header ++ replicate 3472 0) }

stale_empty : Holds stale []
stale_empty = record {
  rest = stale.bytes;
  pointer = refl;
  counted = refl;
  sized = omega (
    arith,
    length-spoken,
    length-append spoken_bytes (idle_header ++ replicate 3472 0),
    length-append idle_header (replicate 3472 0),
    length-header_image (header 0 0) (header-IsHeader 0 0 (omega arith) (omega arith)),
    length-replicate {A = ℕ} 3472 0,
  );
  prefix = refl;
}

unset : client_table.handler 0 ≡ none
unfolding client_handler
unset = refl

recieve_round_replays_example :
    (io' : IoData) × (recieve_round 5000 failed stale ≡ ok (io', spoken ∷ [])) × Holds io' []
recieve_round_replays_example =
    recieve_round_replays stale spoken_bytes (idle_header ++ replicate 3472 0) (replicate 3472 0)
      spoken (header 0 0) stale_empty refl spoken-IsFrame
      (read_header-header_image (header 0 0) (replicate 3472 0)
        (header-IsHeader 0 0 (omega arith) (omega arith)))
      (omega arith) unset 5000 (omega arith)

junk_fits : IsBlank (replicate 3 204) (replicate 24 204) (replicate 512 204)
junk_fits = record {
  padding_length = refl;
  id_length = refl;
  message_length = length-replicate {A = ℕ} 512 204;
}

short_text : length (visible (codes "hello")) < 512
unfolding visible
short_text = omega arith
