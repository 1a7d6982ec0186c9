-- ===== src/Examples/Programs.antt =====
-- Runs of the two programs, Client/Client/Main.cpp and Server/main.cpp, and of what they print.
use yserver_core.Common.{
  ℕ, ◌≡◌, ◌≢◌, ◌≤◌, ◌⊎◌, refl, List, [], ◌∷◌, ok, err, Error, arith, length, length-replicate,
  replicate, map, not_started,
}
use yserver_core.CString.{codes}
use yserver_core.CString.Lines.{IsLine}
use yserver_core.Packet.{ChatMessage}
use yserver_core.Handlers.{chat}
use yserver_core.Session.{Session}
use yserver_core.Session.Receive.{complete_recvs}
use yserver_core.Threads.{destroy_thread}
use yserver_core.Server.{Server}
use yserver_core.Log.{print_wsa_last_error, error_io_pending}
use yserver_core.Log.Texts.{word_of, print_wsa_last_error_lem}
use yserver_core.Programs.{Local, client_loop, server_main}
use yserver_core.Programs.Typed.{IsLocal, SaysEach, input_of, said_by, client_loop-complete_recvs}
use yserver_core.Programs.Ends.{initialized, server_main_down}
use yserver_core.Examples.Data.{fresh, fresh-Waits, login_user, no_error}
use yserver_core.Examples.Servers.{server, calls}

-- The locals of a round, with what the memory held.
abbrev local : Local
local = record {
  padding = replicate 3 204;
  id = replicate 24 204;
  message = replicate 512 204;
  info = login_user;
  line = replicate 512 204;
}

local-IsLocal : IsLocal local
local-IsLocal = record {
  blank = record {
    padding_length = refl;
    id_length = refl;
    message_length = length-replicate {A = ℕ} 512 204;
  };
}

hi-IsLine : IsLine (codes "hi")
hi-IsLine = record { no_newline = omega arith; no_zero = omega arith }

-- A line, and a round at the end of the input.
client_loop-complete_recvs_example :
    (sent : List (List ℕ)) × (client_loop (local ∷ local ∷ []) (input_of (codes "hi" ∷ []))
      ≡ ok sent)
    × (ms : List ChatMessage) × (s' : Session) × (complete_recvs 5000 sent (fresh 0)
        ≡ ok (s', map chat ms))
    × SaysEach (said_by (codes "hi" ∷ []) 1) ms
client_loop-complete_recvs_example =
    client_loop-complete_recvs (local ∷ local ∷ []) (codes "hi" ∷ []) 1 5000 (fresh 0) refl
      (local-IsLocal, (local-IsLocal, tt)) ((hi-IsLine, omega arith), tt) (omega arith)
      (fresh-Waits 0)

-- Two threads of a round each, in turns; the second goes first.
abbrev turns : List ℕ
turns = 1 ∷ 0 ∷ 1 ∷ 0 ∷ 1 ∷ 0 ∷ []

abbrev idle_server : Server
idle_server = record server { accept_thread = not_started }

server_main_down_example :
    (server_main no_error calls (initialized 4) idle_server [] [] [] [] ≡ err Error.terminated)
    × (destroy_thread (initialized 4) ≡ err Error.terminated)
server_main_down_example =
    server_main_down no_error calls 4 idle_server [] [] [] [] refl (λ up. ground (arith, up.bound))

print_wsa_last_error_lem_example :
    ((◌≡◌ {A = ℕ} 10054 error_io_pending) × (print_wsa_last_error (0 ∷ []) 10054 ≡ ok []))
    ⊎ ((◌≢◌ {A = ℕ} 10054 error_io_pending)
        × (out : List ℕ) × (print_wsa_last_error (0 ∷ []) 10054 ≡ ok out)
        × (length out ≤ 11)
        × (word_of out ≡ 10054))
print_wsa_last_error_lem_example = print_wsa_last_error_lem (0 ∷ []) 10054 (omega arith)
