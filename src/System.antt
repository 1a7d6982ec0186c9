-- ===== src/System.antt =====
-- The server as a whole: the accepts of YServerCore/Server.cpp, the completions of
-- YServerCore/Thread.cpp, the requests of YServerCore/PacketProcess.cpp, which `std::async` may run in
-- any order, and the console of Server/main.cpp, one step of any of them after the other.
pub mod Moves
pub mod Pending
pub mod Reached
use yserver_core.Common.{ℕ, ◌≡◌, List, [], ◌∷◌, ◌++◌, Bool, none, some, Result, ok, get_elem?}
use yserver_core.Handlers.{Request}
use yserver_core.Session.{Session}
use yserver_core.SessionManager.{Manager}
use yserver_core.Completions.{Event, Started, pointer_of, serve_one}
use yserver_core.Database.{Mysql}
use yserver_core.Requests.{World, Junk, run_request}
use yserver_core.Server.{Server, Accepted, accept}
use yserver_core.Programs.{Local, announce}

-- The server, what the requests share with it, and the requests that were started and have not run.
pub record System (db : Mysql) : Type 0 where
  pub server : Server
  pub conn : db.Conn
  pub log : List (List ℕ)
  pub pending : Started

abbrev pub world_of : (db : Mysql) → System db → World db
world_of db s = record { manager = s.server.manager; conn = s.conn; log = s.log }

abbrev pub with_manager : (db : Mysql) → System db → Manager → System db
with_manager db s m = record s { server = record s.server { manager = m } }

-- `new` gives a session that is accepted a pointer that is not in use.
module _ (last_error : Session → ℕ) (db : Mysql) (fuel : ℕ) where
  pub data Step (s : System db) : System db → Type 0 where
    accepts :
        (a : Accepted) (server : Server) (taken : Bool)
        → s.server.manager.heap a.pointer ≡ none
        → accept a s.server ≡ ok (server, taken)
        → Step s (record s { server = server })
    completes :
        (e : Event) (place : ℕ) (m : Manager) (started : Started)
        → get_elem? s.server.manager.sessions place ≡ some (pointer_of e)
        → serve_one fuel e s.server.manager ≡ ok (m, started)
        → Step s (record (with_manager db s m) { pending = s.pending ++ started })
    runs :
        (junk : Junk) (before after : Started) (p : ℕ) (r : Request) (w : World db)
        → s.pending ≡ before ++ (p, r) ∷ after
        → run_request last_error db junk p r (world_of db s) ≡ ok w
        → Step s (record {
          server = record s.server { manager = w.manager };
          conn = w.conn;
          log = w.log;
          pending = before ++ after;
        })
    announces :
        (l : Local) (text : List ℕ) (m : Manager)
        → announce last_error l text s.server.manager ≡ ok m
        → Step s (with_manager db s m)

  -- What a server comes to that starts like this.
  pub data Reach (begin : System db) : System db → Type 0 where
    start : Reach begin begin
    next : {s s' : System db} → Reach begin s → Step s s' → Reach begin s'
