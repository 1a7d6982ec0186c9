-- ===== src/Programs.antt =====
-- The two programs, Client/Client/Main.cpp and Server/main.cpp. A loop that does not end is run for a
-- number of rounds, that of the list of its locals.
pub mod Typed
pub mod Announced
pub mod Senders
pub mod Broadcasts
pub mod Ends
use yserver_core.Common.{
  ℕ, zero, suc, List, [], ◌∷◌, ◌++◌, some, none, Bool, true, false, Result, ok, err, Error, ◌>>=◌,
  or_fail, replicate, if◌then◌else◌, length, get_elem?, set, require, ◌==◌, ◌>>◌,
}
use yserver_core.CString.{codes, c_string, same_text, fgets}
use yserver_core.Log
use yserver_core.Packet.{UserInfo, c_chat, s_chat, max_chat_size}
use yserver_core.Packet.Layout.{chat_message_image}
use yserver_core.Session.{Session, send_packet}
use yserver_core.SessionManager.{Manager, store, all_message}
use yserver_core.Client.{
  Client, ClientCalls, new_client, create_client_socket, connect_to_server, send_to_server,
  send_user_info, console_message,
}
use yserver_core.Threads.{Thread}
use yserver_core.Server.{Server, Calls, run, destroy_server}

-- The memory of the locals of one round: of the message, of the ST_UserInfo, and of the line.
pub record Local : Type 0 where
  pub padding : List ℕ
  pub id : List ℕ
  pub message : List ℕ
  pub info : UserInfo
  pub line : List ℕ

-- A thread that runs `Send`: the locals of the rounds that it has not begun, and the call of
-- `AllMessage` that it is in, with its packet and the pointers that the call has still to send to.
pub record Sender : Type 0 where
  pub rounds : List Local
  pub packet : List ℕ
  pub pointers : List ℕ

abbrev pub starting : List Local → Sender
starting ls = record { rounds = ls; packet = []; pointers = [] }

-- What its `join` waits for.
unfoldable pub all_returned : List Sender → Bool
all_returned [] = true
all_returned (x ∷ xs) =
    let rest = all_returned xs in
    if length x.rounds == 0 then (if length x.pointers == 0 then rest else false) else false

-- `PrintMessage`: the message is the format, each time.
unfoldable pub print_message : List ℕ → ℕ → Result (List (List ℕ))
print_message msg zero = ok []
print_message msg (suc loop) =
    Log.print_log msg [] >>= λ line. print_message msg loop >>= λ lines. ok (line ∷ lines)

-- A round of the client's loop on its input: the bytes that it hands to `send`, and the rest of the
-- input. The line's array is zero before.
unfoldable pub client_round : Local → List ℕ → Result (List ℕ × List ℕ)
client_round l input = do
  let got = fgets (replicate max_chat_size 0) input
  text ← or_fail (c_string got.0) Error.out_of_bounds
  bytes ←
      (if same_text text (codes "UserInfo")
        then send_user_info l.info
        else (console_message l.padding l.id l.message c_chat (codes "Client") text >>= λ m.
            send_to_server (chat_message_image m)))
  ok (bytes, got.1)

unfoldable pub client_loop : List Local → List ℕ → Result (List (List ℕ))
client_loop [] input = ok []
client_loop (l ∷ ls) input =
    client_round l input >>= λ (r : List ℕ × List ℕ). client_loop ls r.1 >>= λ sent. ok (r.0 ∷ sent)

-- The client and what it hands to `send`. The results of the two calls are not looked at.
unfoldable pub client_main : ClientCalls → List Local → List ℕ → Result (Client × List (List ℕ))
client_main c ls input = client_loop ls input >>= λ sent.
    ok ((connect_to_server c (create_client_socket c new_client).0).0, sent)

module _ (last_error : Session → ℕ) where
  -- A message of the server's to all sessions.
  unfoldable pub announce : Local → List ℕ → Manager → Result Manager
  announce l text m =
      console_message l.padding l.id l.message s_chat (codes "Server") text >>= λ message.
      all_message last_error (chat_message_image message) m

  -- The next thing that a thread does: a round of `AllMessage`'s loop, which shares its mutex with
  -- the other threads, or the next message and the start of the loop. A send that closes its session
  -- asks for the mutex exclusively.
  unfoldable pub advance : Sender → Manager → Result (Sender × Manager)
  advance x m = go x.pointers x.rounds
    where
      go : List ℕ → List Local → Result (Sender × Manager)
      go [] [] = ok (x, m)
      go [] (l ∷ ls) =
          console_message l.padding l.id l.message s_chat (codes "Server") (codes "Msg")
          >>= λ message. ok (
            record { rounds = ls; packet = chat_message_image message; pointers = m.sessions },
            m,
          )
      go (p ∷ ps) ls = do
        s ← or_fail (m.heap p) Error.use_after_free
        o ← send_packet last_error (some x.packet) s
        require (if o.closes then false else true) Error.deadlock
        ok (record x { pointers = ps }, record m { heap = store m.heap p (some o.session) })

  -- The threads that run `Send`, in the order in which they are scheduled.
  unfoldable pub send_loops : List ℕ → List Sender → Manager → Result (List Sender × Manager)
  send_loops [] xs m = ok (xs, m)
  send_loops (i ∷ schedule) xs m = elim (get_elem? xs i) [
    | none ↦ send_loops schedule xs m
    | some x ↦ advance x m >>= λ (r : Sender × Manager). send_loops schedule (set xs i r.0) r.1
  ]

  -- A round of the console's loop. The line's array is not initialised.
  unfoldable pub server_round : Local → List ℕ → Manager → Result (Manager × List ℕ)
  server_round l input m = do
    let got = fgets l.line input
    text ← or_fail (c_string got.0) Error.out_of_bounds
    m' ← announce l text m
    ok (m', got.1)

  unfoldable pub server_loop : List Local → List ℕ → Manager → Result Manager
  server_loop [] input m = ok m
  server_loop (l ∷ ls) input m =
      server_round l input m >>= λ (r : Manager × List ℕ). server_loop ls r.1 r.0

  -- `senders` are the four threads, `ls` the rounds of the console. A thread that has not returned
  -- when the schedule ends is still waited for. A server that does not start is destroyed when main
  -- returns.
  unfoldable pub go_on :
      Thread → List ℕ → List Sender → List Local → List ℕ → Server × Bool → Result Server
  go_on t schedule senders ls input (s, true) = do
    sent ← send_loops schedule senders s.manager
    require (all_returned sent.0) Error.out_of_fuel
    m' ← server_loop ls input sent.1
    ok (record s { manager = m' })
  go_on t schedule senders ls input (s, false) = destroy_server t s

  unfoldable pub server_main :
      Calls → Thread → Server → List ℕ → List Sender → List Local → List ℕ → Result Server
  server_main c t s schedule senders ls input = go_on t schedule senders ls input (run c s)
