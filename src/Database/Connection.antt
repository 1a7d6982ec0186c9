-- ===== src/Database/Connection.antt =====
-- The connection of YServerCore/Database.h: the constructor, the destructor, `Query` with what it logs,
-- and `GetRow`. The calls of MySQL's C library are a parameter.
use yserver_core.Common.{
  ℕ, List, [], ◌∷◌, ◌++◌, Option, none, some, Bool, true, false, Result, ok, Error, ◌>>=◌, ◌>>◌,
  require, or_fail, ◌==◌, if◌then◌else◌,
}
use yserver_core.CString.{codes, visible}
use yserver_core.Log.{print_log}
use yserver_core.Database.{Row}

-- What `mysql_real_connect` is given.
pub record Login : Type 0 where
  pub host : List ℕ
  pub user : List ℕ
  pub passwd : List ℕ
  pub db : List ℕ
  pub port : ℕ

-- `real_connect` says whether it gives the connection back or a null pointer; `query` what
-- `mysql_query` returns; `error` is the memory at `mysql_error`.
pub record Library : Type 1 where
  pub Conn : Type 0
  pub init : Conn
  pub real_connect : Login → Conn → Conn × Bool
  pub query : List ℕ → Conn → Conn × ℕ
  pub error : Conn → List ℕ
  pub fetch_row : List Row → Option Row × List Row

module _ (lib : Library) where
  open lib use {Conn}

  -- `connected` says that `pConn` is not null; `result` is `Result`, null or with its rows.
  pub record Database : Type 0 where
    pub conn : Conn
    pub connected : Bool
    pub result : Option (List Row)
    pub row : Option Row
    pub log : List (List ℕ)

  unfoldable pub new_database : Database
  new_database =
      let login : Login = record {
        host = codes "localhost";
        user = codes "root";
        passwd = codes "0000";
        db = codes "YCH";
        port = 3306;
      } in
      record {
        conn = (lib.real_connect login lib.init).0;
        connected = (lib.real_connect login lib.init).1;
        result = none;
        row = none;
        log = [];
      }

  -- `Get`: the static instance is made by the first call.
  unfoldable pub get : Option Database → Database
  get none = new_database
  get (some d) = d

  -- `delete pConn`, which points at the member `Conn`. A null pointer may be deleted. `Result` is what
  -- the library made, which `delete` may not take either.
  unfoldable pub destroy_database : Database → Result Database
  destroy_database d = do
    require (if d.connected then false else true) Error.bad_delete
    require (is_null d.result) Error.bad_delete
    ok d
    where
      is_null : Option (List Row) → Bool
      is_null none = true
      is_null (some rows) = false

  -- The text of the error is the format of the second `PrintLog`.
  unfoldable pub log_failure : Database → Result Database
  log_failure d = do
    failed ← print_log (codes "Faile to Query" ++ 0 ∷ []) []
    reason ← print_log (lib.error d.conn) []
    ok (record d { log = d.log ++ failed ∷ reason ∷ [] })

  -- The library reads through a null `pConn`.
  unfoldable pub query : List ℕ → Database → Result Database
  query text d = do
    require d.connected Error.null_pointer
    let d' = record d { conn = (lib.query (visible text) d.conn).0 }
    if (lib.query (visible text) d.conn).1 == 0 then ok d' else log_failure d'

  -- `mysql_fetch_row` reads through a null `Result`.
  unfoldable pub get_row : ℕ → Database → Result (Database × Option Row)
  get_row index d = do
    rows ← or_fail d.result Error.null_pointer
    let fetched = lib.fetch_row rows
    ok (record d { result = some fetched.1; row = fetched.0 }, fetched.0)
