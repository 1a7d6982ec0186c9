-- ===== src/Older/Classes.antt =====
-- The classes of Include/Thread.h, Include/Server.h and Include/Database.h, and their inline members.
use yserver_core.Common.{
  ℕ, List, [], ◌∷◌, ◌++◌, Option, none, some, StdThread, Bool, true, false, Result, ok, Error,
  ◌>>=◌, ◌>>◌, require, or_fail, ◌==◌, if◌then◌else◌,
}
use yserver_core.CString.{codes, visible}
use yserver_core.Database.{Row}
use yserver_core.Database.Connection.{Login, Library}
use yserver_core.Older.Logs.{print_text}

pub record Data : Type 0 where
  pub num : ℕ

unfoldable pub new_data : ℕ → Data
new_data num = record { num = num }

pub record Thread : Type 0 where
  pub thread_pool : ℕ → StdThread
  pub jop_q : List ℕ
  pub jop_q2 : List ℕ
  pub data_q : List Data
  pub max_thread_count : ℕ
  pub running_server : Option ℕ
  pub running : Bool

unfoldable pub set_server : Option ℕ → Thread → Thread
set_server server t = record t { running_server = server }

unfoldable pub close_thread : Thread → Thread
close_thread t = record t { running = false }

pub record Server : Type 0 where
  pub iocp : Option ℕ
  pub listen_socket : Option ℕ
  pub accept_thread : StdThread
  pub network_process_thread : ℕ → StdThread
  pub thread_manager : Thread
  pub sessions : List ℕ

module _ (lib : Library) where
  open lib use {Conn}

  pub record Database : Type 0 where
    pub conn : Conn
    pub connected : Bool
    pub result : Option (List Row)
    pub row : Option Row
    pub log : List (List ℕ)

  unfoldable pub new_database : Database
  new_database =
      let login : Login = record {
        host = codes "localhost";
        user = codes "root";
        passwd = codes "0000";
        db = codes "YCH";
        port = 3306;
      } in
      record {
        conn = (lib.real_connect login lib.init).0;
        connected = (lib.real_connect login lib.init).1;
        result = none;
        row = none;
        log = [];
      }

  unfoldable pub get_database : Option Database → Database
  get_database none = new_database
  get_database (some d) = d

  abbrev is_null : Option (List Row) → Bool
  is_null none = true
  is_null (some rows) = false

  unfoldable pub destroy_database : Database → Result Database
  destroy_database d = do
    require (if d.connected then false else true) Error.bad_delete
    require (is_null d.result) Error.bad_delete
    ok d

  -- The text of the error is printed as it is, and not as a format.
  unfoldable pub log_failure : Database → Result Database
  log_failure d = do
    failed ← print_text (codes "Faile to Query" ++ 0 ∷ [])
    reason ← print_text (lib.error d.conn)
    ok (record d { log = d.log ++ failed ∷ reason ∷ [] })

  unfoldable pub query : List ℕ → Database → Result Database
  query text d = do
    require d.connected Error.null_pointer
    let d' = record d { conn = (lib.query (visible text) d.conn).0 }
    if (lib.query (visible text) d.conn).1 == 0 then ok d' else log_failure d'

  unfoldable pub get_row : ℕ → Database → Result (Database × Option Row)
  get_row index d = do
    rows ← or_fail d.result Error.null_pointer
    let fetched = lib.fetch_row rows
    ok (record d { result = some fetched.1; row = fetched.0 }, fetched.0)
