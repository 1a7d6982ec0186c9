-- ===== src/Server/Rounds.antt =====
-- The loop of `Server::AcceptWork` of YServerCore/Server.cpp.
use yserver_core.Common.{
  ℕ, ◌≡◌, ◌≢◌, refl, ap, sym, ◌∙◌, List, [], ◌∷◌, ◌++◌, Option, none, some, Bool, true, false, ok,
  All, ended, append-nil, append_assoc, inl, inr, if◌then◌else◌,
}
use yserver_core.CString.{codes}
use yserver_core.SessionManager.{Heap}
use yserver_core.SessionManager.Numbering.{IsManaged}
use yserver_core.Server.{Server, Accepted, accept, accept_work, print_log}
use yserver_core.Server.Accepts.{accept_lem}

-- What the loop is given up to the first failure: the pointers, and those whose sockets the port
-- takes.
abbrev pub pointers : List (Option Accepted) → List ℕ
pointers [] = []
pointers (none ∷ rounds) = []
pointers (some a ∷ rounds) = a.pointer ∷ pointers rounds

abbrev pub taken : List (Option Accepted) → List ℕ
taken [] = []
taken (none ∷ rounds) = []
taken (some a ∷ rounds) = let rest = taken rounds in if a.associated then a.pointer ∷ rest else rest

-- The pointers differ, and none of them is in use.
abbrev pub Distinct : List ℕ → Type 0
Distinct [] = Unit {0}
Distinct (p ∷ ps) = All (λ q. p ≢ q) ps × Distinct ps

abbrev pub Unused : Heap → List ℕ → Type 0
Unused heap = All (λ p. heap p ≡ none)

Unused-others :
    (p : ℕ) (heap heap' : Heap) (ps : List ℕ)
    → ((q : ℕ) → p ≢ q → heap' q ≡ heap q)
    → All (λ q. p ≢ q) ps
    → Unused heap ps
    → Unused heap' ps
Unused-others p heap heap' [] same apart unused = tt
Unused-others p heap heap' (q ∷ ps) same apart unused =
    (same q apart.0 ∙ unused.0, Unused-others p heap heap' ps same apart.1 unused.1)

accept_work_step :
    (a : Accepted) (rounds : List (Option Accepted)) (s s1 s2 : Server) (b : Bool)
    → accept a (print_log (codes "Wait Client\n") s) ≡ ok (s1, b)
    → accept_work rounds s1 ≡ ok s2
    → accept_work (some a ∷ rounds) s ≡ ok s2
unfolding accept_work
accept_work_step a rounds s s1 s2 b first rest = rw (first, rest) refl

-- `Server::AcceptWork` with a managed vector, when the pointers of the new sessions differ and are
-- not in use: it returns at the first accept that fails, or when none is left; the vector stays
-- managed, and at its end stand, in order, the sessions whose sockets the completion port took
-- before.
pub accept_work-IsManaged :
    (rounds : List (Option Accepted)) (s : Server)
    → IsManaged s.manager
    → Distinct (pointers rounds)
    → Unused s.manager.heap (pointers rounds)
    → (s' : Server) × (accept_work rounds s ≡ ok s')
      × IsManaged s'.manager
      × (s'.manager.sessions ≡ s.manager.sessions ++ taken rounds)
accept_work-IsManaged [] s v apart unused =
    (s, unfold accept_work in refl, v, sym (append-nil s.manager.sessions))
accept_work-IsManaged (none ∷ rounds) s v apart unused = (
  record (print_log (codes "Accept Error\n") (print_log (codes "Wait Client\n") s)) {
    accept_thread = ended;
  },
  unfold accept_work in refl,
  v,
  sym (append-nil s.manager.sessions),
)
accept_work-IsManaged (some a ∷ rounds) s v apart unused =
    let (s1, branches) = accept_lem a (print_log (codes "Wait Client\n") s) v unused.0 in
    elim branches [
      | inl (takes, first, here) ↦
          let (s2, rest, managed, vector) = accept_work-IsManaged rounds s1 here.managed apart.1 (
            Unused-others a.pointer s.manager.heap s1.manager.heap (pointers rounds) here.others
              apart.0 unused.1) in
          (
            s2,
            accept_work_step a rounds s s1 s2 true first rest,
            managed,
            vector
                ∙ ap (λ k. k ++ taken rounds) here.sessions
                ∙ append_assoc s.manager.sessions (a.pointer ∷ []) (taken rounds)
                ∙ ap
                    (λ b.
                      s.manager.sessions ++ (if b then a.pointer ∷ taken rounds else taken rounds))
                    (sym takes),
          )
      | inr (refuses, first, here) ↦
          let (s2, rest, managed, vector) = accept_work-IsManaged rounds s1 here.managed apart.1 (
            Unused-others a.pointer s.manager.heap s1.manager.heap (pointers rounds) here.others
              apart.0 unused.1) in
          (
            s2,
            accept_work_step a rounds s s1 s2 false first rest,
            managed,
            vector
                ∙ ap (λ k. k ++ taken rounds) here.sessions
                ∙ ap
                    (λ b.
                      s.manager.sessions ++ (if b then a.pointer ∷ taken rounds else taken rounds))
                    (sym refuses),
          )
    ]
