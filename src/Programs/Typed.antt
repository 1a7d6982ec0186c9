-- ===== src/Programs/Typed.antt =====
-- The client's loop, Client/Client/Main.cpp, and what the server receives of it.
use yserver_core.Common.{
  ℕ, ◌+◌, ◌<◌, ◌≡◌, refl, ap, sym, ◌∙◌, List, [], ◌∷◌, ◌++◌, some, false, ok, arith, length, subst,
  replicate, length-replicate, length-append, map, All, take_all, ap₂, append-nil,
}
use yserver_core.CString.{codes, c_string, same_text, newline, fgets, NoZero}
use yserver_core.CString.Laws.{c_string-append, visible_lem}
use yserver_core.CString.Lines.{IsLine, fgets_lem, fgets_end, line-NoZero, same_text_line}
use yserver_core.Packet.{ChatMessage, max_chat_size, chat_message_size, buf_size}
use yserver_core.Packet.Layout.{IsChatMessage, chat_message_image, read_header}
use yserver_core.Packet.RoundTrip.{length-chat_message_image, read_header-header_image}
use yserver_core.Handlers.{Request, chat}
use yserver_core.Handlers.Wire.{IsRequest, is_chat, request_image, requests_image}
use yserver_core.Session.{Session}
use yserver_core.Session.Receive.{
  complete_recvs, Waits, Chunks, concat, images-Arrives, complete_recvs-Arrives,
}
use yserver_core.Client.{send_to_server, bytes_at}
use yserver_core.Client.Consoles.{IsBlank, console_message-IsRequest}
use yserver_core.Programs.{Local, client_round, client_loop}

pub record IsLocal (l : Local) : Type 0 where
  pub blank : IsBlank l.padding l.id l.message

-- A request of a chat message that holds a text.
pub record Says (text : List ℕ) (m : ChatMessage) : Type 0 where
  pub is_request : IsRequest (chat m)
  pub said : c_string m.message ≡ some text

chat-layout :
    {m : ChatMessage} → IsRequest (chat m) → IsChatMessage m × (m.header.size ≡ chat_message_size)
chat-layout (is_chat m v named) = (v, named.1)

bytes_at_whole : (len : ℕ) (memory : List ℕ) → length memory ≡ len → bytes_at len memory ≡ ok memory
unfolding bytes_at
bytes_at_whole len memory e = ground (arith, take_all len memory (omega arith))

pub chat-header :
    (m : ChatMessage)
    → IsChatMessage m
    → read_header (chat_message_image m) ≡ some (m.header, m.id ++ m.message)
unfolding chat_message_image
chat-header m v = read_header-header_image m.header (m.id ++ m.message) v.is_header

send_to_server_ok :
    (m : ChatMessage)
    → IsRequest (chat m)
    → send_to_server (chat_message_image m) ≡ ok (chat_message_image m)
unfolding send_to_server
send_to_server_ok m r =
    let (v, size) = chat-layout r in
    rw (send_to_server, chat-header m v)
      (bytes_at_whole m.header.size (chat_message_image m)
        (omega (arith, size, length-chat_message_image m v)))

-- What is read as the line of an array.
pub line_text :
    (line after : List ℕ)
    → IsLine line
    → c_string ((line ++ newline ∷ []) ++ 0 ∷ after) ≡ some (line ++ newline ∷ [])
line_text line after v = c_string-append (line ++ newline ∷ []) after (line-NoZero line v.no_zero)

not_a_command : (line : List ℕ) → same_text (line ++ newline ∷ []) (codes "UserInfo") ≡ false
not_a_command line = same_text_line line (codes "UserInfo") (
  omega arith,
  (
    omega arith,
    (omega arith, (omega arith, (omega arith, (omega arith, (omega arith, (omega arith, tt)))))),
  ),
)

abbrev pub typed : List ℕ → List ℕ
typed line = line ++ newline ∷ []

-- A round whose text is not the command.
client_round-Says :
    (l : Local) (input buf rest text : List ℕ)
    → IsLocal l
    → fgets (replicate max_chat_size 0) input ≡ (buf, rest)
    → c_string buf ≡ some text
    → same_text text (codes "UserInfo") ≡ false
    → NoZero text
    → length text < max_chat_size
    → (m : ChatMessage) × (client_round l input ≡ ok (chat_message_image m, rest)) × Says text m
unfolding client_round
client_round-Says l input buf rest text v read is_text other no_zero short =
    let whole = visible_lem text no_zero in
    let (m, made, request, said) =
      console_message-IsRequest l.padding l.id l.message v.blank text
        (omega (arith, ap length whole)) in
    (
      m,
      rw (read, is_text, other, made, send_to_server_ok m request) refl,
      record { is_request = request; said = said ∙ ap some whole },
    )

pub client_round_line :
    (l : Local) (line rest : List ℕ)
    → IsLocal l
    → IsLine line
    → length line + 1 < max_chat_size
    → (m : ChatMessage) × (client_round l (line ++ newline ∷ rest)
        ≡ ok (chat_message_image m, rest))
      × Says (typed line) m
client_round_line l line rest v is_line short =
    client_round-Says l (line ++ newline ∷ rest) _ rest (typed line) v
      (fgets_lem (replicate max_chat_size 0) line rest
        (omega (arith, length-replicate {A = ℕ} max_chat_size 0, short)) is_line)
      (line_text line _ is_line) (not_a_command line) (line-NoZero line is_line.no_zero)
      (omega (arith, short, length-append line (newline ∷ [])))

client_round_end :
    (l : Local)
    → IsLocal l
    → (m : ChatMessage) × (client_round l [] ≡ ok (chat_message_image m, [])) × Says [] m
client_round_end l v =
    client_round-Says l [] (replicate max_chat_size 0) [] [] v
      (fgets_end (replicate max_chat_size 0)) (unfold c_string in refl) (unfold same_text in refl)
      tt (omega arith)

-- The texts of the messages, in order.
pub data SaysEach : List (List ℕ) → List ChatMessage → Type 0 where
  none_said : SaysEach [] []
  each_said :
      {text : List ℕ} {texts : List (List ℕ)} {m : ChatMessage} {ms : List ChatMessage}
      → Says text m
      → SaysEach texts ms
      → SaysEach (text ∷ texts) (m ∷ ms)

abbrev pub input_of : List (List ℕ) → List ℕ
input_of [] = []
input_of (line ∷ lines) = line ++ newline ∷ input_of lines

-- Lines that fit in the client's array.
abbrev pub Lines : List (List ℕ) → Type 0
Lines = All λ line. IsLine line × (length line + 1 < max_chat_size)

abbrev pub said_by : List (List ℕ) → ℕ → List (List ℕ)
said_by lines extra = map typed lines ++ replicate extra []

client_loop_step :
    (l : Local) (ls : List Local) (input rest bytes : List ℕ) (sent : List (List ℕ))
    → client_round l input ≡ ok (bytes, rest)
    → client_loop ls rest ≡ ok sent
    → client_loop (l ∷ ls) input ≡ ok (bytes ∷ sent)
unfolding client_loop
client_loop_step l ls input rest bytes sent now later = rw (now, later) refl

abbrev SentFor : List Local → List ℕ → List (List ℕ) → Type 0
SentFor ls input texts =
    (ms : List ChatMessage) × (client_loop ls input ≡ ok (map chat_message_image ms))
    × SaysEach texts ms

client_loop_end : (ls : List Local) → All IsLocal ls → SentFor ls [] (replicate (length ls) [])
client_loop_end [] v = ([], unfold client_loop in refl, none_said)
client_loop_end (l ∷ ls) v =
    let (m, now, says) = client_round_end l v.0 in
    let (ms, later, others) = client_loop_end ls v.1 in
    (
      m ∷ ms,
      client_loop_step l ls [] [] (chat_message_image m) (map chat_message_image ms) now later,
      each_said says others,
    )

client_loop-Lines :
    (ls : List Local) (lines : List (List ℕ)) (extra : ℕ)
    → length ls ≡ length lines + extra
    → All IsLocal ls
    → Lines lines
    → SentFor ls (input_of lines) (said_by lines extra)
client_loop-Lines ls [] extra e v fit =
    let ended : length ls ≡ extra = omega arith in
    subst (λ k. SentFor ls [] (replicate k [])) ended (client_loop_end ls v)
client_loop-Lines [] (line ∷ lines) extra e v fit = absurd (omega arith)
client_loop-Lines (l ∷ ls) (line ∷ lines) extra e v fit =
    let (m, now, says) = client_round_line l line (input_of lines) v.0 fit.0.0 fit.0.1 in
    let (ms, later, others) = client_loop-Lines ls lines extra (omega arith) v.1 fit.1 in
    (
      m ∷ ms,
      client_loop_step l ls (line ++ newline ∷ input_of lines) (input_of lines)
          (chat_message_image m) (map chat_message_image ms) now later,
      each_said says others,
    )

alone : List ChatMessage → List (List Request)
alone = map (λ m. chat m ∷ [])

alone-images : (ms : List ChatMessage) → map requests_image (alone ms) ≡ map chat_message_image ms
unfolding requests_image request_image alone
alone-images [] = refl
alone-images (m ∷ ms) = ap₂ ◌∷◌ (append-nil (chat_message_image m)) (alone-images ms)

alone-concat : (ms : List ChatMessage) → concat (alone ms) ≡ map chat ms
unfolding alone
alone-concat [] = refl
alone-concat (m ∷ ms) = ap (◌∷◌ (chat m)) (alone-concat ms)

alone-Chunks :
    {texts : List (List ℕ)} {ms : List ChatMessage} → SaysEach texts ms → Chunks (alone ms)
unfolding alone requests_image request_image
alone-Chunks none_said = tt
alone-Chunks (each_said {m = m} says rest) =
    let size = length-chat_message_image m (chat-layout says.is_request).0 in
    let len = ap length (append-nil (chat_message_image m)) in
    ((omega (arith, size, len), omega (arith, size, len), (says.is_request, tt)), alone-Chunks rest)

-- The client's loop on an input of lines, with locals of the right lengths, and the server's
-- session that receives what it sends. Each line has no zero byte and at most 510 bytes before its
-- newline; `extra` rounds follow the end of the input. The loop returns what each round hands to
-- `send`. A session that waits with an empty buffer, each send being one receive and the fuel above
-- the buffer's size, starts one chat request for each, in order: their texts are the lines with
-- their newlines, and then an empty text for every round behind the end.
pub client_loop-complete_recvs :
    (ls : List Local) (lines : List (List ℕ)) (extra fuel : ℕ) (s : Session)
    → length ls ≡ length lines + extra
    → All IsLocal ls
    → Lines lines
    → buf_size < fuel
    → Waits s []
    → (sent : List (List ℕ)) × (client_loop ls (input_of lines) ≡ ok sent)
      × (ms : List ChatMessage) × (s' : Session) × (complete_recvs fuel sent s
          ≡ ok (s', map chat ms))
      × SaysEach (said_by lines extra) ms
client_loop-complete_recvs ls lines extra fuel s e v fit enough w =
    let (ms, sends, says) = client_loop-Lines ls lines extra e v fit in
    let (s', recvs, _) =
      complete_recvs-Arrives fuel s enough w (images-Arrives (alone ms) (alone-Chunks says)) in
    (
      map chat_message_image ms,
      sends,
      ms,
      s',
      sym (ap (λ c. complete_recvs fuel c s) (alone-images ms))
          ∙ recvs
          ∙ ap (λ r. ok (s', r)) (alone-concat ms),
      says,
    )
