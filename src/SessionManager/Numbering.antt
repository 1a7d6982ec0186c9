-- ===== src/SessionManager/Numbering.antt =====
-- `AddSession` and `CloseSession` of YServerCore/SessionManager.h: a session's number is its place
-- in the vector, until another session is closed.
use yserver_core.Common.{
  ℕ, suc, ◌+◌, ◌-◌, ◌<◌, ◌≤◌, ◌≡◌, ◌≢◌, refl, sym, ◌∙◌, inl, inr, List, [], ◌∷◌, ◌++◌, Option, none,
  some, ok, err, Error, arith, length, set, get_elem?, last?, drop_last, length-drop_last,
  last?-get_elem?, get_elem?-lt, get_elem?-drop_last, get_elem?-set_self, get_elem?-set_ne,
  get_elem?-snoc, length-append, length-set, Option-cases, lt→ltb, le→ltb,
}
use yserver_core.Session.{Session}
use yserver_core.SessionManager.{Heap, store, Manager, add_session, close_session}

-- The session that stands at a place of the vector, numbered as the place.
pub record Placed (m : Manager) (i p : ℕ) : Type 0 where
  pub session : Session
  pub stored : m.heap p ≡ some session
  pub numbered : session.session_id ≡ i

-- The counter counts the vector, and every session in it is alive and numbered by its place.
pub record IsManaged (m : Manager) : Type 0 where
  pub counted : m.session_count ≡ length m.sessions
  pub placed : (i p : ℕ) → get_elem? m.sessions i ≡ some p → Placed m i p

pub Placed-unique : {m : Manager} {i j p : ℕ} → Placed m i p → Placed m j p → i ≡ j
Placed-unique a b = ground (arith, a.stored, b.stored, a.numbered, b.numbered)

pub store_self : (h : Heap) (p : ℕ) (s : Option Session) → store h p s p ≡ s
store_self h p s = ground arith

pub store_ne : (h : Heap) (p q : ℕ) (s : Option Session) → p ≢ q → store h p s q ≡ h q
store_ne h p q s ne = ground arith

-- What `AddSession` leaves.
abbrev pub added : ℕ → Session → Manager → Manager
added p s m = record m {
  heap = store m.heap p (some (record s { session_id = m.session_count }));
  sessions = m.sessions ++ p ∷ [];
  session_count = m.session_count + 1;
}

pub add_session_lem :
    (p : ℕ) (m : Manager) (s : Session) → m.heap p ≡ some s → add_session p m ≡ ok (added p s m)
unfolding add_session
add_session_lem p m s e = rw e refl

added-Placed :
    (p : ℕ) (m : Manager) (s : Session)
    → IsManaged m
    → ((i : ℕ) → get_elem? m.sessions i ≢ some p)
    → (i q : ℕ) → get_elem? (m.sessions ++ p ∷ []) i ≡ some q
    → Placed (added p s m) i q
added-Placed p m s v fresh i q e = elim (get_elem?-snoc m.sessions p i e) [
  | inl old ↦
      let before = v.placed i q old in
      record {
        session = before.session;
        stored = store_ne m.heap p q _ (λ same. fresh i (rw same old)) ∙ before.stored;
        numbered = before.numbered;
      }
  | inr (at, same) ↦ record {
    session = record s { session_id = m.session_count };
    stored = rw same (store_self m.heap p _);
    numbered = v.counted ∙ sym at;
  }
]

-- In a managed vector, `AddSession` of a session that is alive and not in the vector puts it at the
-- end and keeps the vector managed: the counter counts it, and every session is alive and numbered
-- by its place.
pub add_session-IsManaged :
    (p : ℕ) (m : Manager) (s : Session)
    → IsManaged m
    → m.heap p ≡ some s
    → ((i : ℕ) → get_elem? m.sessions i ≢ some p)
    → (m' : Manager) × (add_session p m ≡ ok m')
      × (m'.sessions ≡ m.sessions ++ p ∷ [])
      × IsManaged m'
add_session-IsManaged p m s v e fresh = (
  added p s m,
  add_session_lem p m s e,
  refl,
  record {
    counted = omega (arith, v.counted, length-append m.sessions (p ∷ []));
    placed = added-Placed p m s v fresh;
  },
)

-- What `CloseSession` leaves when the numbers are right.
abbrev closed : ℕ → ℕ → ℕ → Manager → Manager
closed p i back m = record m {
  heap = store m.heap p none;
  sessions = drop_last (set m.sessions i back);
  session_count = m.session_count - 1;
}

close_session_lem :
    (p i back : ℕ) (m : Manager) {n : ℕ}
    → Placed m i p
    → length m.sessions ≡ suc n
    → get_elem? m.sessions n ≡ some back
    → i < length m.sessions
    → close_session p m ≡ ok (closed p i back m)
unfolding close_session
close_session_lem p i back m {n} at size end inside =
    let found : last? m.sessions ≡ some back = last?-get_elem? m.sessions n size ∙ end in
    rw (at.stored, found, at.numbered, lt→ltb i (length m.sessions) inside) refl

-- The place of a number in the vector after a removal, and before it.
remaining :
    (xs : List ℕ) (i back j : ℕ) {n : ℕ}
    → length xs ≡ suc n
    → j < n
    → get_elem? (drop_last (set xs i back)) j ≡ get_elem? (set xs i back) j
remaining xs i back j size inside =
    get_elem?-drop_last (set xs i back) j (omega (arith, length-set xs i back))

remaining_below :
    (xs : List ℕ) (i back j : ℕ) {n q : ℕ}
    → length xs ≡ suc n
    → get_elem? (drop_last (set xs i back)) j ≡ some q
    → j < n
remaining_below xs i back j size e = omega (
  arith,
  get_elem?-lt (drop_last (set xs i back)) j e,
  length-drop_last (set xs i back),
  length-set xs i back,
)

-- A pointer stands at one place only.
distinct :
    {m : Manager} {i j p q : ℕ}
    → IsManaged m
    → get_elem? m.sessions i ≡ some p
    → get_elem? m.sessions j ≡ some q
    → i ≢ j
    → p ≢ q
distinct {m} {i} {j} {p} {q} v at at' ne same =
    ne (Placed-unique (v.placed i p at) (v.placed j p (rw same at')))

closed_last-Placed :
    (p n : ℕ) (m : Manager)
    → IsManaged m
    → length m.sessions ≡ suc n
    → get_elem? m.sessions n ≡ some p
    → (j q : ℕ) → get_elem? (drop_last (set m.sessions n p)) j ≡ some q
    → Placed (closed p n p m) j q
closed_last-Placed p n m v size end j q e =
    let below = remaining_below m.sessions n p j size e in
    let apart : n ≢ j = λ same. absurd (omega arith) in
    let old : get_elem? m.sessions j ≡ some q =
      sym (get_elem?-set_ne m.sessions n j p apart)
      ∙ sym (remaining m.sessions n p j size below)
      ∙ e in
    let before = v.placed j q old in
    record {
      session = before.session;
      stored = store_ne m.heap p q none (distinct v end old apart) ∙ before.stored;
      numbered = before.numbered;
    }

-- In a managed vector, `CloseSession` of the last session deletes that session and keeps the vector
-- managed.
pub close_session_last-IsManaged :
    (p n : ℕ) (m : Manager)
    → IsManaged m
    → length m.sessions ≡ suc n
    → get_elem? m.sessions n ≡ some p
    → (m' : Manager) × (close_session p m ≡ ok m') × (m'.heap p ≡ none) × IsManaged m'
close_session_last-IsManaged p n m v size end = (
  closed p n p m,
  close_session_lem p n p m (v.placed n p end) size end (omega arith),
  store_self m.heap p none,
  record {
    counted =
        omega (arith, v.counted, length-drop_last (set m.sessions n p), length-set m.sessions n p);
    placed = closed_last-Placed p n m v size end;
  },
)

close_session_beyond :
    (q : ℕ) (m : Manager) (s : Session)
    → m.heap q ≡ some s
    → length m.sessions ≤ s.session_id
    → close_session q m ≡ err Error.out_of_bounds
unfolding close_session
close_session_beyond q m s alive beyond = elim (Option-cases (last? m.sessions)) [
  | inl empty ↦ rw (alive, empty) refl
  | inr (back, end) ↦ rw (alive, end, le→ltb s.session_id (length m.sessions) beyond) refl
]

-- In a managed vector, `CloseSession` of a session that is not the last moves the last one to its
-- place, and counts one less. The moved session keeps its old number, so that `CloseSession` of it
-- indexes the vector beyond its end.
pub close_session_stale :
    (p q i n : ℕ) (m : Manager)
    → IsManaged m
    → length m.sessions ≡ suc n
    → get_elem? m.sessions i ≡ some p
    → get_elem? m.sessions n ≡ some q
    → i < n
    → (m' : Manager) × (close_session p m ≡ ok m')
      × (get_elem? m'.sessions i ≡ some q)
      × (m'.session_count ≡ n)
      × (close_session q m' ≡ err Error.out_of_bounds)
close_session_stale p q i n m v size at end before = (
  closed p i q m,
  close_session_lem p i q m (v.placed i p at) size end (omega arith),
  remaining m.sessions i q i size before ∙ get_elem?-set_self m.sessions i q (omega arith),
  omega (arith, v.counted),
  close_session_beyond q (closed p i q m) moved.session
      (store_ne m.heap p q none (distinct v at end apart) ∙ moved.stored)
      (omega
        (arith, moved.numbered, length-drop_last (set m.sessions i q), length-set m.sessions i q)),
)
  where
    moved : Placed m n q
    moved = v.placed n q end

    apart : i ≢ n
    apart same = absurd (omega arith)
