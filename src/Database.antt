-- ===== src/Database.antt =====
-- YServerCore/Database.h and YServerCore/Database.cpp: the accounts, behind MySQL's C library, which
-- is a parameter. A connection is a value that its calls replace.
pub mod Queries
pub mod Store
pub mod Connection
use yserver_core.Common.{
  ℕ, zero, suc, List, [], ◌∷◌, ◌++◌, Option, none, some, Bool, true, false, Result, ok, err, Error,
  ◌>>=◌, or_fail, ltb, length,
}
use yserver_core.CString.{codes, c_string}
use yserver_core.Packet.{UserInfo}

abbrev pub Row : Type 0
Row = List (List ℕ)

-- `mysql_query` replaces the connection, and its result is only logged. `mysql_store_result` gives
-- the rows of the last statement, or a null pointer if that gave none.
pub record Mysql : Type 1 where
  pub Conn : Type 0
  pub query : List ℕ → Conn → Conn
  pub store_result : Conn → Conn × Option (List Row)

-- The texts of the three statements.
unfoldable pub insert_text : List ℕ → List ℕ → List ℕ
insert_text id pw =
    codes "INSERT INTO users VALUE ('" ++ (id ++ (codes "','" ++ (pw ++ codes "')")))

unfoldable pub id_text : List ℕ → List ℕ
id_text id = codes "SELECT * FROM users WHERE id='" ++ (id ++ codes "'")

unfoldable pub account_text : List ℕ → List ℕ → List ℕ
account_text id pw =
    codes "SELECT * FROM users WHERE id='" ++ (id ++ (codes "' and pw='" ++ (pw ++ codes "'")))

-- `(string)userinfo.Id` and `(string)userinfo.Pw`: an id with no zero byte is read on into the
-- password behind it.
unfoldable pub id_of : UserInfo → Result (List ℕ)
id_of u = or_fail (c_string (u.id ++ u.pw)) Error.out_of_bounds

unfoldable pub pw_of : UserInfo → Result (List ℕ)
pw_of u = or_fail (c_string u.pw) Error.out_of_bounds

module _ (db : Mysql) where
  open db use {Conn}

  -- The query, `mysql_store_result`, and whether `Result->row_count` is positive.
  unfoldable pub has_rows : List ℕ → Conn → Result (Conn × Bool)
  has_rows text conn = do
    let stored = db.store_result (db.query text conn)
    rows ← or_fail stored.1 Error.null_pointer
    ok (stored.0, ltb 0 (length rows))

  unfoldable pub is_valid_id : List ℕ → Conn → Result (Conn × Bool)
  is_valid_id id conn = has_rows (id_text id) conn

  unfoldable pub is_valid_account : UserInfo → Conn → Result (Conn × Bool)
  is_valid_account u conn = do id ← id_of u; pw ← pw_of u; has_rows (account_text id pw) conn

  unfoldable pub create_account : UserInfo → Conn → Result (Conn × Bool)
  create_account u conn = do
    id ← id_of u
    pw ← pw_of u
    is_valid_account u (db.query (insert_text id pw) conn)
