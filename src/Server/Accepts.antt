-- ===== src/Server/Accepts.antt =====
-- `Server::OnAccept` and `Server::AcceptWork` of YServerCore/Server.cpp.
use yserver_core.Common.{
  ℕ, ◌-◌, ◌≡◌, ◌≢◌, ◌⊎◌, refl, ap, sym, ◌∙◌, [], ◌∷◌, ◌++◌, Option, none, some, true, false, Result,
  ok, get_elem?, arith, Bool-cases, inl, inr,
}
use yserver_core.CString.{codes}
use yserver_core.Packet.{buf_size}
use yserver_core.Framing.{IoUsage}
use yserver_core.Framing.Reassembly.{cleared-Holds}
use yserver_core.Session.{Session, on_accept, set_io_data_usage, ready_to_recieve}
use yserver_core.Session.Receive.{Waits}
use yserver_core.Session.Send.{IsIdle}
use yserver_core.SessionManager.{Manager, store}
use yserver_core.SessionManager.Numbering.{
  IsManaged, added, add_session_lem, add_session-IsManaged, store_self, store_ne,
}
use yserver_core.SessionManager.Replace.{with_session, with_session-IsManaged}
use yserver_core.Server.{Server, Accepted, accept, start_receiving, new_session, print_log}

-- A session that can receive and send.
pub record IsFresh (s : Session) : Type 0 where
  pub waits : Waits s []
  pub idle : IsIdle s

accepted-IsFresh :
    (a : Accepted)
    → IsFresh (on_accept a.socket_data (new_session a.memory.socket_data a.memory.user_info))
unfolding on_accept set_io_data_usage new_session
accepted-IsFresh a = record {
  waits = cleared-Holds IoUsage.read;
  idle = record { counted = refl; sized = (cleared-Holds IoUsage.write).sized };
}

ready-IsFresh : (s : Session) → IsFresh s → IsFresh (ready_to_recieve s).0
unfolding ready_to_recieve
ready-IsFresh s f = record {
  waits = record {
    rest = f.waits.rest;
    pointer = f.waits.pointer;
    counted = f.waits.counted;
    sized = f.waits.sized;
    prefix = f.waits.prefix;
  };
  idle = record { counted = f.idle.counted; sized = f.idle.sized };
}

ready_buffer :
    (s : Session) → IsFresh s → (ready_to_recieve s).1 ≡ record { buf = 0; len = buf_size }
unfolding ready_to_recieve
ready_buffer s f = ap (λ n. record { buf = n; len = buf_size - n }) f.waits.counted

ready_number : (s : Session) → (ready_to_recieve s).0.session_id ≡ s.session_id
unfolding ready_to_recieve
ready_number s = refl

-- A managed vector does not contain a pointer that is not in use, and a new session at it leaves the
-- vector managed.
module _ (p : ℕ) (m : Manager) (v : IsManaged m) (unused : m.heap p ≡ none) where
  away : (i : ℕ) → get_elem? m.sessions i ≢ some p
  away i e = ground (arith, (v.placed i p e).stored, unused)

  stored-IsManaged : (s : Option Session) → IsManaged (record m { heap = store m.heap p s })
  stored-IsManaged s = record {
    counted = v.counted;
    placed = λ i q e.
        let before = v.placed i q e in
        record {
          session = before.session;
          stored = store_ne m.heap p q s (λ same. away i (rw same e)) ∙ before.stored;
          numbered = before.numbered;
        };
  }

-- The server after an accepted socket: one session more, which is fresh, is alone at a new pointer
-- and has a receive into its whole buffer.
pub record Accepts (p : ℕ) (s s' : Server) : Type 0 where
  pub managed : IsManaged s'.manager
  pub sessions : s'.manager.sessions ≡ s.manager.sessions ++ p ∷ []
  pub session : Session
  pub stored : s'.manager.heap p ≡ some session
  pub fresh : IsFresh session
  pub receives : s'.receives ≡ s.receives ++ (p, record { buf = 0; len = buf_size }) ∷ []
  pub others : (q : ℕ) → p ≢ q → s'.manager.heap q ≡ s.manager.heap q

-- And after one that the port did not take.
pub record Refuses (p : ℕ) (s s' : Server) : Type 0 where
  pub managed : IsManaged s'.manager
  pub sessions : s'.manager.sessions ≡ s.manager.sessions
  pub deleted : s'.manager.heap p ≡ none
  pub receives : s'.receives ≡ s.receives
  pub others : (q : ℕ) → p ≢ q → s'.manager.heap q ≡ s.manager.heap q

module _ (a : Accepted) (s : Server) (v : IsManaged s.manager)
    (unused : s.manager.heap a.pointer ≡ none) where
  abbrev opened : Session
  opened = on_accept a.socket_data (new_session a.memory.socket_data a.memory.user_info)

  abbrev holding : Manager
  holding = record s.manager { heap = store s.manager.heap a.pointer (some opened) }

  abbrev numbered : Session
  numbered = record opened { session_id = s.manager.session_count }

  abbrev joined : Manager
  joined = added a.pointer opened holding

  joined_at : joined.heap a.pointer ≡ some numbered
  joined_at = store_self holding.heap a.pointer (some numbered)

  numbered-IsFresh : IsFresh numbered
  numbered-IsFresh =
      let f = accepted-IsFresh a in
      record { waits = f.waits; idle = record { counted = f.idle.counted; sized = f.idle.sized } }

  joined-IsManaged : IsManaged joined
  joined-IsManaged =
      let (m', adds, _, managed) =
        add_session-IsManaged a.pointer holding opened
          (stored-IsManaged a.pointer s.manager v unused (some opened))
          (store_self s.manager.heap a.pointer (some opened)) (away a.pointer s.manager v unused) in
      rw
        (same (
          sym (
            add_session_lem a.pointer holding opened
              (store_self s.manager.heap a.pointer (some opened)))
          ∙ adds))
        managed
    where
      same : {m m' : Manager} → ◌≡◌ {A = Result Manager} (ok m) (ok m') → m ≡ m'
      same e = cc

  abbrev welcomed : Server
  welcomed = print_log (codes "Connect Client ") (record s {
    manager = with_session a.pointer (ready_to_recieve numbered).0 joined;
    receives = s.receives ++ (a.pointer, (ready_to_recieve numbered).1) ∷ [];
  })

  accept_ok : a.associated ≡ true → accept a s ≡ ok (welcomed, true)
  unfolding accept start_receiving
  accept_ok taken =
      rw
        (
          taken,
          add_session_lem a.pointer holding opened
              (store_self s.manager.heap a.pointer (some opened)),
          joined_at,
        )
        refl

  welcomed-Accepts : Accepts a.pointer s welcomed
  welcomed-Accepts = record {
    managed =
        with_session-IsManaged a.pointer joined numbered (ready_to_recieve numbered).0 joined_at
          (ready_number numbered) joined-IsManaged;
    sessions = refl;
    session = (ready_to_recieve numbered).0;
    stored = store_self joined.heap a.pointer _;
    fresh = ready-IsFresh numbered numbered-IsFresh;
    receives = ap (λ b. s.receives ++ (a.pointer, b) ∷ []) (ready_buffer numbered numbered-IsFresh);
    others = λ q apart.
        store_ne joined.heap a.pointer q _ apart
        ∙ store_ne holding.heap a.pointer q _ apart
        ∙ store_ne s.manager.heap a.pointer q _ apart;
  }

  abbrev refused : Server
  refused =
      print_log (codes "Fail to Connect IoCompletionPort\n")
        (record s { manager = record s.manager { heap = store s.manager.heap a.pointer none } })

  refused_ok : a.associated ≡ false → accept a s ≡ ok (refused, false)
  unfolding accept
  refused_ok not_taken = rw not_taken refl

  refused-Refuses : Refuses a.pointer s refused
  refused-Refuses = record {
    managed = stored-IsManaged a.pointer s.manager v unused none;
    sessions = refl;
    deleted = store_self s.manager.heap a.pointer none;
    receives = refl;
    others = λ q apart. store_ne s.manager.heap a.pointer q none apart;
  }

  -- `Server::OnAccept` with a managed vector and a new session at a pointer that is not in use. If
  -- the completion port takes the socket, it returns true: the session is at the end of the vector,
  -- which stays managed, has empty buffers, and a receive into its whole buffer is started. If not,
  -- it returns false: the session is deleted, and the vector and the receives are as they were. No
  -- other session is touched.
  pub accept_lem :
      (s' : Server) × (((a.associated ≡ true)
          × (accept a s ≡ ok (s', true))
          × Accepts a.pointer s s')
        ⊎ ((a.associated ≡ false) × (accept a s ≡ ok (s', false)) × Refuses a.pointer s s'))
  accept_lem = elim (Bool-cases a.associated) [
    | inl taken ↦ (welcomed, inl (taken, accept_ok taken, welcomed-Accepts))
    | inr not_taken ↦ (refused, inr (not_taken, refused_ok not_taken, refused-Refuses))
  ]
