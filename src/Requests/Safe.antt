-- ===== src/Requests/Safe.antt =====
-- The requests of YServerCore/PacketProcess.cpp on whatever packets: none of them loses a session.
use yserver_core.Common.{
  ℕ, List, ◌++◌, Option, none, some, Bool, Result, ok, Error, ◌>>=◌, or_fail, ltb, length, inl, inr,
  Bool-cases, ltb→lt, ltb→le,
}
use yserver_core.CString.Laws.{strcpy_s_fits, strcpy_s_too_long}
use yserver_core.CString.{c_string, strcpy_s, visible}
use yserver_core.Packet.{
  Header, IoType, UserInfo, MoveInfo, set_header, set_result, set_type, set_success, set_id,
}
use yserver_core.SessionManager.Kept.{Ends, Ends-bind, Ends-ok, Ends-err}
use yserver_core.Database.{
  Row, Mysql, id_of, pw_of, has_rows, is_valid_account, create_account, account_text, insert_text,
}

-- A call that returns or fails, but not by a use of a deleted session.
abbrev pub Any {ℓ} : {A : Type ℓ} → Result A → Type 0
Any r = Ends (λ _. Unit {0}) r

pub Any-bind {ℓ κ} :
    {A : Type ℓ} {B : Type κ} (r : Result A) (f : A → Result B)
    → Any r
    → ((a : A) → Any (f a))
    → Any (r >>= f)
Any-bind r f h g = Ends-bind (λ _. Unit {0}) (λ _. Unit {0}) r f h (λ a _. g a)

pub or_fail-Any : (o : Option (List ℕ)) → Any (or_fail o Error.out_of_bounds)
or_fail-Any none = λ e. absurd (cc)
or_fail-Any (some text) = tt

strcpy_s-Any : (buf text : List ℕ) → Any (strcpy_s buf text)
strcpy_s-Any buf text = elim (Bool-cases (ltb (length (visible text)) (length buf))) [
  | inl short ↦ Ends-ok (λ _. Unit {0}) _ (strcpy_s_fits buf text (ltb→lt _ _ short)) tt
  | inr long ↦
      Ends-err (λ _. Unit {0}) _ (strcpy_s_too_long buf text (ltb→le _ _ long)) (λ e. absurd (cc))
]

set_result-Any : (msg : List ℕ) (h : Header) → Any (set_result msg h)
unfolding set_result
set_result-Any msg h =
    Any-bind (strcpy_s h.io_result_info msg) _ (strcpy_s-Any h.io_result_info msg) (λ info. tt)

pub set_header-Any :
    (t : IoType) (val : Bool) (msg : List ℕ) (h : Header) → Any (set_header t val msg h)
unfolding set_header set_success
set_header-Any t val msg h =
    Any-bind (set_result msg (set_type t h)) _ (set_result-Any msg (set_type t h)) (λ h'. tt)

pub set_id-Any : (id : List ℕ) (m : MoveInfo) → Any (set_id id m)
unfolding set_id
set_id-Any id m = Any-bind (strcpy_s m.id id) _ (strcpy_s-Any m.id id) (λ id'. tt)

pub id_of-Any : (u : UserInfo) → Any (id_of u)
unfolding id_of
id_of-Any u = or_fail-Any (c_string (u.id ++ u.pw))

pw_of-Any : (u : UserInfo) → Any (pw_of u)
unfolding pw_of
pw_of-Any u = or_fail-Any (c_string u.pw)

module _ (db : Mysql) where
  pub has_rows-Any : (text : List ℕ) (conn : db.Conn) → Any (has_rows db text conn)
  unfolding has_rows
  has_rows-Any text conn = rows-Any (db.store_result (db.query text conn)).1
    where
      rows-Any :
          (o : Option (List Row))
          → Any {A = db.Conn × Bool} (
              or_fail o Error.null_pointer >>= λ rows.
              ok ((db.store_result (db.query text conn)).0, ltb 0 (length rows)))
      rows-Any none = λ e. absurd (cc)
      rows-Any (some rows) = tt

  pub is_valid_account-Any : (u : UserInfo) (conn : db.Conn) → Any (is_valid_account db u conn)
  unfolding is_valid_account
  is_valid_account-Any u conn =
      Any-bind (id_of u) _ (id_of-Any u)
        (λ id. Any-bind (pw_of u) _ (pw_of-Any u) (λ pw. has_rows-Any (account_text id pw) conn))

  pub create_account-Any : (u : UserInfo) (conn : db.Conn) → Any (create_account db u conn)
  unfolding create_account
  create_account-Any u conn = Any-bind (id_of u) _ (id_of-Any u) (λ id.
      Any-bind (pw_of u) _ (pw_of-Any u)
        (λ pw. is_valid_account-Any u (db.query (insert_text id pw) conn)))
