-- ===== src/System/Pending.antt =====
-- The sessions of the pending requests, and those of the vector, when a client is accepted.
use yserver_core.Common.{
  ℕ, ◌≡◌, ◌≢◌, ap, sym, ◌∙◌, [], ◌∷◌, ◌++◌, Option, none, some, arith, subst, All, inl, inr,
  get_elem?, get_elem?-snoc, eq_of_some,
}
use yserver_core.Handlers.{Request}
use yserver_core.Session.{Session}
use yserver_core.Session.Send.{IsIdle}
use yserver_core.SessionManager.{Heap}
use yserver_core.SessionManager.Broadcast.{Alive}
use yserver_core.SessionManager.Heard.{Quiet}
use yserver_core.SessionManager.Kept.{HeapKept, Alive-kept}
use yserver_core.Completions.{Started}
use yserver_core.Server.{Server}
use yserver_core.Server.Accepts.{Accepts, Refuses}

-- The sessions of the pending requests are there.
abbrev pub Answerable : Heap → Started → Type 0
Answerable heap = All λ (x : ℕ × Request). Alive heap x.0

pub Answerable-kept :
    {heap heap' : Heap} (rs : Started)
    → HeapKept heap heap'
    → Answerable heap rs
    → Answerable heap' rs
Answerable-kept [] k v = tt
Answerable-kept ((p, r) ∷ rs) k v = (Alive-kept p k v.0, Answerable-kept rs k v.1)

pub Answerable-one :
    {heap : Heap} (p : ℕ) (rs : Started)
    → Alive heap p
    → All (λ (x : ℕ × Request). x.0 ≡ p) rs
    → Answerable heap rs
Answerable-one p [] a v = tt
Answerable-one {heap} p ((q, r) ∷ rs) a v =
    (subst (Alive heap) (sym v.0) a, Answerable-one p rs a v.1)

pub Answerable-parts :
    {heap : Heap} (before : Started) (p : ℕ) (r : Request) (after : Started)
    → Answerable heap (before ++ (p, r) ∷ after)
    → Alive heap p × Answerable heap (before ++ after)
Answerable-parts [] p r after v = v
Answerable-parts (x ∷ before) p r after v =
    let (a, rest) = Answerable-parts before p r after v.1 in (a, (v.0, rest))

-- The heap at all pointers but one that was not in use.
pub Answerable-others :
    {heap heap' : Heap} (p : ℕ) (rs : Started)
    → heap p ≡ none
    → ((q : ℕ) → p ≢ q → heap' q ≡ heap q)
    → Answerable heap rs
    → Answerable heap' rs
Answerable-others p [] unused others v = tt
Answerable-others {heap} p ((q, r) ∷ rs) unused others v = (
  record {
    session = v.0.session;
    stored = others q (λ same. in_use (sym unused ∙ ap heap same ∙ v.0.stored)) ∙ v.0.stored;
    idle = v.0.idle;
  },
  Answerable-others p rs unused others v.1,
)
  where
    in_use : {s : Session} → ◌≡◌ {A = Option Session} none (some s) → ⊥
    in_use e = cc

module _ (p : ℕ) (s s' : Server) (q : Quiet s.manager) (unused : s.manager.heap p ≡ none) where
  in_vector : (i t : ℕ) → get_elem? s.manager.sessions i ≡ some t → p ≢ t
  in_vector i t e same =
      ground (arith, (q.managed.placed i t e).stored, unused, ap s.manager.heap same)

  pub accepted-Quiet : Accepts p s s' → Quiet s'.manager
  accepted-Quiet a = record {
    managed = a.managed;
    idle = λ i t u e stored.
        elim (get_elem?-snoc s.manager.sessions p i
          (subst (λ l. get_elem? l i ≡ some t) a.sessions e)) [
            | inl old ↦ q.idle i t u old (sym (a.others t (in_vector i t old)) ∙ stored)
            | inr (_, same) ↦
                subst IsIdle (eq_of_some (sym a.stored ∙ ap s'.manager.heap (sym same) ∙ stored))
                  a.fresh.idle
          ];
  }

  pub refused-Quiet : Refuses p s s' → Quiet s'.manager
  refused-Quiet a = record {
    managed = a.managed;
    idle = λ i t u e stored.
        let old = subst (λ l. get_elem? l i ≡ some t) a.sessions e in
        q.idle i t u old (sym (a.others t (in_vector i t old)) ∙ stored);
  }
