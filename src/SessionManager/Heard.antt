-- ===== src/SessionManager/Heard.antt =====
-- What packets to every session leave of YServerCore/SessionManager.h: all is as it was but the wires.
use yserver_core.Common.{
  ℕ, ◌≡◌, refl, ap, sym, ◌∙◌, List, [], ◌++◌, some, length, append_assoc, append-nil, get_elem?,
  eq_of_some, subst,
}
use yserver_core.Session.{Session}
use yserver_core.Session.Send.{IsIdle, Sent}
use yserver_core.SessionManager.{Manager}
use yserver_core.SessionManager.Numbering.{IsManaged, Placed}
use yserver_core.SessionManager.Replace.{AllIdle}
use yserver_core.SessionManager.Broadcast.{Reached}

-- A managed vector of sessions with nothing waiting.
pub record Quiet (m : Manager) : Type 0 where
  pub managed : IsManaged m
  pub idle : AllIdle m

-- The manager after bytes went out to each of its sessions.
pub record Heard (out : List ℕ) (m m' : Manager) : Type 0 where
  pub sessions : m'.sessions ≡ m.sessions
  pub session_count : m'.session_count ≡ m.session_count
  pub reached :
      (i p : ℕ) (s : Session)
      → get_elem? m.sessions i ≡ some p
      → m.heap p ≡ some s
      → Reached out s m'.heap p

Heard-Placed :
    {out : List ℕ} {m m' : Manager}
    → Heard out m m'
    → IsManaged m
    → (i p : ℕ) → get_elem? m'.sessions i ≡ some p
    → Placed m' i p
Heard-Placed h v i p e =
    let before = v.placed i p (subst (λ l. get_elem? l i ≡ some p) h.sessions e) in
    let after =
      h.reached i p before.session (subst (λ l. get_elem? l i ≡ some p) h.sessions e)
        before.stored in
    record {
      session = after.session;
      stored = after.stored;
      numbered = after.sent.session_id ∙ before.numbered;
    }

pub Heard-Quiet : {out : List ℕ} {m m' : Manager} → Heard out m m' → Quiet m → Quiet m'
Heard-Quiet {m = m} {m' = m'} h q = record {
  managed = record {
    counted = h.session_count ∙ q.managed.counted ∙ ap length (sym h.sessions);
    placed = Heard-Placed h q.managed;
  };
  idle = λ i p s e stored.
      let at : get_elem? m.sessions i ≡ some p = subst (λ l. get_elem? l i ≡ some p) h.sessions e in
      let before = q.managed.placed i p at in
      let after = h.reached i p before.session at before.stored in
      subst IsIdle (eq_of_some (sym after.stored ∙ stored)) after.sent.idle;
}

pub Sent-then :
    {a b : List ℕ} {s s' s'' : Session} → Sent s a s' → Sent s' b s'' → Sent s (a ++ b) s''
Sent-then {a} {b} {s} h k = record {
  wire = k.wire ∙ ap (λ w. w ++ b) h.wire ∙ append_assoc s.wire a b;
  idle = k.idle;
  socket_data = k.socket_data ∙ h.socket_data;
  read = k.read ∙ h.read;
  session_id = k.session_id ∙ h.session_id;
  user_info = k.user_info ∙ h.user_info;
  session_state = k.session_state ∙ h.session_state;
}

pub Heard-then :
    {a b : List ℕ} {m m' m'' : Manager} → Heard a m m' → Heard b m' m'' → Heard (a ++ b) m m''
Heard-then h k = record {
  sessions = k.sessions ∙ h.sessions;
  session_count = k.session_count ∙ h.session_count;
  reached = λ i p s e stored.
      let first = h.reached i p s e stored in
      let second =
        k.reached i p first.session (subst (λ l. get_elem? l i ≡ some p) (sym h.sessions) e)
          first.stored in
      record {
        session = second.session;
        stored = second.stored;
        sent = Sent-then first.sent second.sent;
      };
}

pub Heard-nothing : (m : Manager) → Quiet m → Heard [] m m
Heard-nothing m q = record {
  sessions = refl;
  session_count = refl;
  reached = λ i p s e stored. record {
    session = s;
    stored = stored;
    sent = record {
      wire = sym (append-nil s.wire);
      idle = q.idle i p s e stored;
      socket_data = refl;
      read = refl;
      session_id = refl;
      user_info = refl;
      session_state = refl;
    };
  };
}
