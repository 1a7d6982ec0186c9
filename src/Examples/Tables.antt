-- ===== src/Examples/Tables.antt =====
-- A table of accounts that reads the statements of YServerCore/Database.cpp, and runs over it.
use yserver_core.Common.{
  ℕ, ◌≡◌, refl, ap, List, [], ◌∷◌, ◌++◌, Option, none, some, Bool, true, false, ok, ltb, length,
  arith, drop, if◌then◌else◌, ◌==◌, get_elem?,
}
use yserver_core.CString.{codes, c_string}
use yserver_core.Database.{Row, Mysql, insert_text, id_text, account_text, id_of, pw_of}
use yserver_core.Database.Queries.{quote, NoQuote}
use yserver_core.Database.Store.{Store, IsTable, Names, is_known, opens, add, register}
use yserver_core.Handlers.{Request, create_account, login}
use yserver_core.SessionManager.Heard.{Quiet}
use yserver_core.Requests.{World}
use yserver_core.Requests.Refines.{
  run_requests, Asks, nothing, creates, logs_in, LogsIn, run_requests-Conversation, login-LogsIn,
}
use yserver_core.Examples.Data.{
  login_user, login_user-IsUserInfo, two, two-IsManaged, two-IsIdle, no_error, no_error-lt, junk,
  junk-IsJunk,
}

-- What stands behind a text's prefix.
unfoldable pub strip : List ℕ → List ℕ → Option (List ℕ)
strip [] text = some text
strip (p ∷ prefix) [] = none
strip (p ∷ prefix) (b ∷ text) = let rest = strip prefix text in if p == b then rest else none

strip_lem : (prefix text : List ℕ) → strip prefix (prefix ++ text) ≡ some text
unfolding strip
strip_lem [] text = refl
strip_lem (p ∷ prefix) text = ground (arith, strip_lem prefix text)

-- A text up to its first quote, and what stands behind that.
unfoldable pub split : List ℕ → List ℕ × List ℕ
split [] = ([], [])
split (b ∷ text) =
    let (before, after) = split text in if b == quote then ([], text) else (b ∷ before, after)

split_lem : (text rest : List ℕ) → NoQuote text → split (text ++ quote ∷ rest) ≡ (text, rest)
unfolding split
split_lem [] rest v = refl
split_lem (b ∷ text) rest v = rw (split_lem text rest v.1) (ground (arith, v.0))

abbrev pub Conn : Type 0
Conn = Store × Option (List Row)

abbrev pub rows_of : Bool → List Row
rows_of true = [] ∷ []
rows_of false = []

rows_of_lem : (b : Bool) → ltb 0 (length (rows_of b)) ≡ b
rows_of_lem true = refl
rows_of_lem false = refl

abbrev pub answer : Store → List ℕ → List ℕ → Bool
answer st id [] = is_known (st id)
answer st id (b ∷ text) = opens (st id) (split (drop 9 (b ∷ text))).0

abbrev pub insert_pair : Conn → List ℕ × List ℕ → Store
insert_pair c (id, rest) = add id (split (drop 2 rest)).0 c.0

abbrev pub select_pair : Conn → List ℕ × List ℕ → Conn
select_pair c (id, rest) = (c.0, some (rows_of (answer c.0 id rest)))

abbrev pub or_select : Conn → Option (List ℕ) → Option (List ℕ) → Conn
or_select c (some rest) select = (insert_pair c (split rest), none)
or_select c none none = (c.0, none)
or_select c none (some rest) = select_pair c (split rest)

unfoldable pub statement : List ℕ → Conn → Conn
statement text c =
    or_select c (strip (codes "INSERT INTO users VALUE ('") text)
      (strip (codes "SELECT * FROM users WHERE id='") text)

abbrev pub table : Mysql
table = record { Conn = Conn; query = statement; store_result = λ c. ((c.0, none), c.1) }

insert_statement :
    (id pw : List ℕ) (c : Conn)
    → NoQuote id
    → NoQuote pw
    → statement (insert_text id pw) c ≡ (add id pw c.0, none)
unfolding statement insert_text
insert_statement id pw c v v' =
    rw
      (
        strip_lem (codes "INSERT INTO users VALUE ('") (id ++ (codes "','" ++ (pw ++ codes "')"))),
        split_lem id (codes ",'" ++ (pw ++ codes "')")) v,
        split_lem pw (codes ")") v',
      )
      refl

not_insert :
    (text : List ℕ)
    → strip (codes "INSERT INTO users VALUE ('") (codes "SELECT * FROM users WHERE id='" ++ text)
      ≡ none
unfolding strip
not_insert text = refl

id_statement :
    (id : List ℕ) (c : Conn)
    → NoQuote id
    → statement (id_text id) c ≡ (c.0, some (rows_of (is_known (c.0 id))))
unfolding statement id_text
id_statement id c v =
    rw
      (
        not_insert (id ++ codes "'"),
        strip_lem (codes "SELECT * FROM users WHERE id='") (id ++ codes "'"),
        split_lem id [] v,
      )
      refl

account_statement :
    (id pw : List ℕ) (c : Conn)
    → NoQuote id
    → NoQuote pw
    → statement (account_text id pw) c ≡ (c.0, some (rows_of (opens (c.0 id) pw)))
unfolding statement account_text
account_statement id pw c v v' =
    let rest : List ℕ = id ++ (codes "' and pw='" ++ (pw ++ codes "'")) in
    rw
      (
        not_insert rest,
        strip_lem (codes "SELECT * FROM users WHERE id='") rest,
        split_lem id (codes " and pw='" ++ (pw ++ codes "'")) v,
        split_lem pw [] v',
      )
      refl

pub table-IsTable : IsTable table
table-IsTable = record {
  table = λ c. c.0;
  select_id = λ id c v.
      (rows_of (is_known (c.0 id)), ap (λ (d : Conn). d.1) (id_statement id c v.0), rows_of_lem _);
  select_account = λ id pw c v v'. (
    rows_of (opens (c.0 id) pw),
    ap (λ (d : Conn). d.1) (account_statement id pw c v.0 v'.0),
    rows_of_lem _,
  );
  select_keeps = λ id pw c v v'. (
    ap (λ (d : Conn). d.0) (id_statement id c v.0),
    ap (λ (d : Conn). d.0) (account_statement id pw c v.0 v'.0),
  );
  insert = λ id pw c v v' free. ap (λ (d : Conn). d.0) (insert_statement id pw c v.0 v'.0);
}

ann-Names : Names login_user (codes "ann") (codes "pw")
unfolding id_of pw_of c_string
ann-Names = record {
  reads_id = refl;
  reads_pw = refl;
  id_literal = omega arith;
  pw_literal = omega arith;
}

pub ann-Asks :
    (sessions : List ℕ) (p place : ℕ)
    → get_elem? sessions place ≡ some p
    → Asks sessions p login_user (codes "ann") (codes "pw")
ann-Asks sessions p place e = record {
  place = place;
  placed = e;
  is_user_info = login_user-IsUserInfo;
  small = omega arith;
  names = ann-Names;
}

pub two-Quiet : Quiet two
two-Quiet = record { managed = two-IsManaged; idle = two-IsIdle }

abbrev pub empty : Store
empty id = none

abbrev asked : List (ℕ × Request)
asked = (10, create_account login_user) ∷ (11, login login_user) ∷ []

abbrev pub before : World table
before = record { manager = two; conn = (empty, none); log = [] }

run_requests-Conversation_example :
    (w' : World table) × (run_requests no_error table junk asked before ≡ ok w')
    × (w'.manager.sessions ≡ 10 ∷ 11 ∷ [])
    × Quiet w'.manager
    × (table-IsTable.table w'.conn
        ≡ register (codes "ann") (codes "pw") (table-IsTable.table before.conn))
run_requests-Conversation_example =
    run_requests-Conversation no_error no_error-lt table table-IsTable junk junk-IsJunk
      (10 ∷ 11 ∷ []) asked before
      (creates (ann-Asks two.sessions 10 0 refl)
        (logs_in (ann-Asks two.sessions 11 1 refl) nothing))
      refl two-Quiet refl

abbrev with_ann : World table
with_ann = record {
  manager = two;
  conn = (register (codes "ann") (codes "pw") empty, none);
  log = [];
}

login-LogsIn_example :
    LogsIn no_error no_error-lt table table-IsTable junk junk-IsJunk with_ann 10 login_user
      (opens (table-IsTable.table with_ann.conn (codes "ann")) (codes "pw"))
login-LogsIn_example =
    login-LogsIn no_error no_error-lt table table-IsTable junk junk-IsJunk 10 login_user
      (codes "ann") (codes "pw") with_ann two-Quiet (ann-Asks two.sessions 10 0 refl)
