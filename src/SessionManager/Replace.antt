-- ===== src/SessionManager/Replace.antt =====
-- A request changes fields of one session of YServerCore/SessionManager.h in place.
use yserver_core.Common.{
  ℕ, ◌≡◌, ap, sym, ◌∙◌, inl, inr, some, Bool-cases, ◌==◌, ==→eq, eq_of_some, get_elem?, arith,
  false, ◌≢◌,
}
use yserver_core.Session.{Session}
use yserver_core.Session.Send.{IsIdle}
use yserver_core.SessionManager.{store, Manager}
use yserver_core.SessionManager.Numbering.{IsManaged, Placed, store_self, store_ne}

-- Every session of the manager has nothing waiting to be sent.
abbrev pub AllIdle : Manager → Type 0
AllIdle m = (i p : ℕ) (s : Session) → get_elem? m.sessions i ≡ some p → m.heap p ≡ some s → IsIdle s

-- The manager with one session replaced.
abbrev pub with_session : ℕ → Session → Manager → Manager
with_session p s m = record m { heap = store m.heap p (some s) }

==-false : (p q : ℕ) → (p == q) ≡ false → p ≢ q
==-false p q e same = ground arith

module _ (p : ℕ) (m : Manager) (s s' : Session) (alive : m.heap p ≡ some s) where
  replaced-Placed :
      (i q : ℕ) → s'.session_id ≡ s.session_id → Placed m i q → Placed (with_session p s' m) i q
  replaced-Placed i q same_id before = elim (Bool-cases (p == q)) [
    | inl here ↦
        let same = ==→eq p q here in
        let session_is : before.session ≡ s =
          eq_of_some (sym before.stored ∙ ap m.heap (sym same) ∙ alive) in
        record {
          session = s';
          stored = ap (store m.heap p (some s')) (sym same) ∙ store_self m.heap p (some s');
          numbered =
              same_id ∙ ap (λ (t : Session). t.session_id) (sym session_is) ∙ before.numbered;
        }
    | inr elsewhere ↦ record {
      session = before.session;
      stored = store_ne m.heap p q _ (==-false p q elsewhere) ∙ before.stored;
      numbered = before.numbered;
    }
  ]

  -- A session that keeps its number keeps the numbering.
  pub with_session-IsManaged :
      s'.session_id ≡ s.session_id → IsManaged m → IsManaged (with_session p s' m)
  with_session-IsManaged same_id v = record {
    counted = v.counted;
    placed = λ i q e. replaced-Placed i q same_id (v.placed i q e);
  }

  pub with_session-AllIdle : IsIdle s' → AllIdle m → AllIdle (with_session p s' m)
  with_session-AllIdle still idle i q t e stored = elim (Bool-cases (p == q)) [
    | inl here ↦
        let same = ==→eq p q here in
        let t_is : s' ≡ t =
          eq_of_some
            (sym (store_self m.heap p (some s')) ∙ ap (store m.heap p (some s')) same ∙ stored) in
        rw (← t_is) still
    | inr elsewhere ↦ idle i q t e (sym (store_ne m.heap p q _ (==-false p q elsewhere)) ∙ stored)
  ]
