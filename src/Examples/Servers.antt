-- ===== src/Examples/Servers.antt =====
-- Runs of the server's start and accepts, YServerCore/Server.cpp, and the identities of its threads.
use yserver_core.Threads.Identities.{identity, identity-distinct}
use yserver_core.Common.{
  ◌-◌, ◌^◌, ◌≡◌, ◌≢◌, ◌⊎◌, refl, List, [], ◌∷◌, none, some, Option, true, false, started, ok, arith,
}
use yserver_core.SessionManager.Numbering.{IsManaged}
use yserver_core.Server.{Calls, Server, Accepted, accept, accept_work}
use yserver_core.Server.Accepts.{Accepts, Refuses, accept_lem}
use yserver_core.Server.Rounds.{pointers, Distinct, accept_work-IsManaged}
use yserver_core.Examples.Data.{fresh, two, two-IsManaged}

abbrev pub server : Server
server = record {
  iocp = some 1;
  listen_socket = some 2;
  accept_thread = started;
  manager = two;
  receives = [];
  log = [];
}

-- The port is in use.
abbrev pub calls : Calls
calls = record { port = some 1; started = true; socket = some 2; bound = false; listens = true }

abbrev pub client : Accepted
client = record {
  pointer = 13;
  memory = fresh 7;
  socket_data = record { socket = 9; sock_addr = [] };
  associated = true;
}

accept_lem_example :
    (s' : Server) × (((client.associated ≡ true)
        × (accept client server ≡ ok (s', true))
        × Accepts 13 server s')
      ⊎ ((client.associated ≡ false)
          × (accept client server ≡ ok (s', false))
          × Refuses 13 server s'))
accept_lem_example = accept_lem client server two-IsManaged refl

abbrev clients : List (Option Accepted)
clients =
    some client
    ∷ some (record client { pointer = 14; associated = false })
    ∷ none
    ∷ some client
    ∷ []

clients-Distinct : Distinct (pointers clients)
clients-Distinct = ((omega arith, tt), (tt, tt))

accept_work-IsManaged_example :
    (s' : Server) × (accept_work clients server ≡ ok s')
    × IsManaged s'.manager
    × (s'.manager.sessions ≡ 10 ∷ 11 ∷ 13 ∷ [])
accept_work-IsManaged_example =
    accept_work-IsManaged clients server two-IsManaged clients-Distinct (refl, (refl, tt))

identity-distinct_example :
    (identity 3 ≢ identity 7) × (identity 3 ≢ 0) × (identity 7 ≢ 0) × (identity (2 ^ 16 - 1) ≡ 0)
identity-distinct_example = identity-distinct 3 7 (omega arith) (omega arith)
