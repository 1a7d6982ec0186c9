-- ===== src/Database/Store.antt =====
-- What YServerCore/Database.cpp promises: a store that knows at most one password for an id. MySQL's
-- part of it is a record of laws on the parameter.
use yserver_core.Common.{
  ℕ, ◌≡◌, ◌≢◌, refl, ap, ◌∙◌, List, [], ◌∷◌, Option, none, some, Bool, true, false, Result, ok, ltb,
  length, if◌then◌else◌, All, arith,
}
use yserver_core.CString.{same_text}
use yserver_core.Packet.{UserInfo}
use yserver_core.Database.{
  Row, Mysql, insert_text, id_text, account_text, id_of, pw_of, has_rows, is_valid_id,
  is_valid_account, create_account,
}
use yserver_core.Database.Queries.{NoQuote}

-- The password of each id that is known.
abbrev pub Store : Type 0
Store = List ℕ → Option (List ℕ)

abbrev pub is_known : Option (List ℕ) → Bool
is_known none = false
is_known (some pw) = true

abbrev pub opens : Option (List ℕ) → List ℕ → Bool
opens none pw = false
opens (some known) pw = same_text known pw

pub add : List ℕ → List ℕ → Store → Store
add id pw st other = if same_text id other then some pw else st other

-- A first request for an id is granted, and no other.
pub register : List ℕ → List ℕ → Store → Store
register id pw st = elim (is_known (st id)) [ true ↦ st | false ↦ add id pw st ]

pub register_new : (id pw : List ℕ) (st : Store) → st id ≡ none → register id pw st ≡ add id pw st
unfolding register
register_new id pw st free = rw (register, free) refl

pub register_known :
    (id pw known : List ℕ) (st : Store) → st id ≡ some known → register id pw st ≡ st
unfolding register
register_known id pw known st taken = rw (register, taken) refl

-- Text that a statement's literal holds as it is: no quote, and no escape.
abbrev pub IsLiteral : List ℕ → Type 0
IsLiteral text = NoQuote text × All (λ b. b ≢ 92) text

-- The table `users` behind the statements: ids are its key, and texts are compared byte by byte.
pub record IsTable (db : Mysql) : Type 0 where
  pub table : db.Conn → Store
  pub select_id :
      (id : List ℕ) (conn : db.Conn)
      → IsLiteral id
      → (rows : List Row) × ((db.store_result (db.query (id_text id) conn)).1 ≡ some rows)
        × (ltb 0 (length rows) ≡ is_known (table conn id))
  pub select_account :
      (id pw : List ℕ) (conn : db.Conn)
      → IsLiteral id
      → IsLiteral pw
      → (rows : List Row) × ((db.store_result (db.query (account_text id pw) conn)).1 ≡ some rows)
        × (ltb 0 (length rows) ≡ opens (table conn id) pw)
  pub select_keeps :
      (id pw : List ℕ) (conn : db.Conn)
      → IsLiteral id
      → IsLiteral pw
      → (table (db.store_result (db.query (id_text id) conn)).0 ≡ table conn)
        × (table (db.store_result (db.query (account_text id pw) conn)).0 ≡ table conn)
  pub insert :
      (id pw : List ℕ) (conn : db.Conn)
      → IsLiteral id
      → IsLiteral pw
      → table conn id ≡ none
      → table (db.query (insert_text id pw) conn) ≡ add id pw (table conn)

pub same_text_refl : (text : List ℕ) → same_text text text ≡ true
unfolding same_text
same_text_refl [] = refl
same_text_refl (b ∷ text) = ground (arith, same_text_refl text)

-- An account whose id and password are literals.
pub record Names (u : UserInfo) (id pw : List ℕ) : Type 0 where
  pub reads_id : id_of u ≡ ok id
  pub reads_pw : pw_of u ≡ ok pw
  pub id_literal : IsLiteral id
  pub pw_literal : IsLiteral pw

module _ (db : Mysql) (t : IsTable db) where
  -- A select's answer, and a connection whose table is as it was.
  abbrev pub Finds : Result (db.Conn × Bool) → Store → Bool → Type 0
  Finds r st found = (conn : db.Conn) × (r ≡ ok (conn, found)) × (t.table conn ≡ st)

  has_rows_lem :
      (text : List ℕ) (conn : db.Conn) (rows : List Row) (found : Bool)
      → (db.store_result (db.query text conn)).1 ≡ some rows
      → ltb 0 (length rows) ≡ found
      → has_rows db text conn ≡ ok ((db.store_result (db.query text conn)).0, found)
  unfolding has_rows
  has_rows_lem text conn rows found stored counts = rw (stored, counts) refl

  pub is_valid_id-Finds :
      (id : List ℕ) (conn : db.Conn)
      → IsLiteral id
      → Finds (is_valid_id db id conn) (t.table conn) (is_known (t.table conn id))
  unfolding is_valid_id
  is_valid_id-Finds id conn literal =
      let (rows, stored, counts) = t.select_id id conn literal in
      (
        _,
        has_rows_lem (id_text id) conn rows _ stored counts,
        (t.select_keeps id id conn literal literal).0,
      )

  pub is_valid_account-Finds :
      (u : UserInfo) (id pw : List ℕ) (conn : db.Conn)
      → Names u id pw
      → Finds (is_valid_account db u conn) (t.table conn) (opens (t.table conn id) pw)
  unfolding is_valid_account
  is_valid_account-Finds u id pw conn v =
      let (rows, stored, counts) = t.select_account id pw conn v.id_literal v.pw_literal in
      (
        _,
        rw (v.reads_id, v.reads_pw) (has_rows_lem (account_text id pw) conn rows _ stored counts),
        (t.select_keeps id pw conn v.id_literal v.pw_literal).1,
      )

  opens-add : (id pw : List ℕ) (st : Store) → opens (add id pw st id) pw ≡ true
  unfolding add
  opens-add id pw st = rw (same_text_refl id) (same_text_refl pw)

  pub create_account-Finds :
      (u : UserInfo) (id pw : List ℕ) (conn : db.Conn)
      → Names u id pw
      → t.table conn id ≡ none
      → Finds (create_account db u conn) (add id pw (t.table conn)) true
  unfolding create_account
  create_account-Finds u id pw conn v free =
      let inserted = t.insert id pw conn v.id_literal v.pw_literal free in
      let (conn', checks, keeps) =
        is_valid_account-Finds u id pw (db.query (insert_text id pw) conn) v in
      (
        conn',
        rw (v.reads_id, v.reads_pw)
            (checks
              ∙ ap (λ found. ok (conn', found))
                  (ap (λ (st : Store). opens (st id) pw) inserted
                    ∙ opens-add id pw (t.table conn))),
        keeps ∙ inserted,
      )
