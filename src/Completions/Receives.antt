-- ===== src/Completions/Receives.antt =====
-- A receive of one session before the completions of others, as `Thread::NetworkProcess` of
-- YServerCore/Thread.cpp takes them.
use yserver_core.Common.{
  ℕ, ◌≡◌, refl, ap, sym, ◌∙◌, List, [], ◌∷◌, ◌++◌, true, false, some, ok, ◌==◌, arith, Bool-cases,
  ==→eq, inl, inr, All, eq_of_some,
}
use yserver_core.Handlers.{Request}
use yserver_core.Session.{Session, Received}
use yserver_core.Session.Receive.{complete_recv, complete_recvs}
use yserver_core.SessionManager.{Manager}
use yserver_core.Completions.{Event, received, Started, tagged, pointer_of, serve_one, serve}
use yserver_core.Completions.Rounds.{
  IsArmed, chunks_of, requests_of, requests_of-tagged_self, requests_of-tagged_ne,
  complete_recv-IsArmed, complete_recvs_join, after_receive,
}

-- The sessions are armed, and every session returns from its own receives.
pub record Serves (fuel : ℕ) (es : List Event) (m : Manager) : Type 0 where
  pub armed : (p : ℕ) (s : Session) → m.heap p ≡ some s → IsArmed s
  pub returns :
      (p : ℕ) (s : Session)
      → m.heap p ≡ some s
      → (r : Session × List Request) × (complete_recvs fuel (chunks_of p es) s ≡ ok r)
  pub alive : All (λ e. (s : Session) × (m.heap (pointer_of e) ≡ some s)) es

-- Every session went through its own receives, and started the requests of these.
pub record Isolated (fuel : ℕ) (es : List Event) (m m' : Manager) (started : Started) : Type 0 where
  pub vector : m'.sessions ≡ m.sessions
  pub count : m'.session_count ≡ m.session_count
  pub own :
      (p : ℕ) (s : Session)
      → m.heap p ≡ some s
      → (s' : Session) × (complete_recvs fuel (chunks_of p es) s ≡ ok (s', requests_of p started))
        × (m'.heap p ≡ some s')

pub serve_step :
    (fuel : ℕ) (e : Event) (es : List Event) (m m1 m' : Manager) (now later : Started)
    → serve_one fuel e m ≡ ok (m1, now)
    → serve fuel es m1 ≡ ok (m', later)
    → serve fuel (e ∷ es) m ≡ ok (m', now ++ later)
unfolding serve
serve_step fuel e es m m1 m' now later first rest = rw (first, rest) refl

All-map_imp :
    (P Q : Event → Type 0) (es : List Event) → ((e : Event) → P e → Q e) → All P es → All Q es
All-map_imp P Q [] imp v = tt
All-map_imp P Q (e ∷ es) imp v = (imp e v.0, All-map_imp P Q es imp v.1)

-- A receive of the session at `q`, which ends in `now`, before the events `es`.
module _ (fuel q b : ℕ) (bs : List ℕ) (es : List Event) (m : Manager) (s : Session) (now : Received)
    (here : m.heap q ≡ some s) (first : complete_recv fuel (b ∷ bs) s ≡ ok now) where
  abbrev pub after : Manager
  after = record m { heap = after_receive q (b ∷ bs) s now.session m.heap }

  after_self : (p : ℕ) → (q == p) ≡ true → after.heap p ≡ some now.session
  after_self p same = ground (arith, same)

  after_ne : (p : ℕ) → (q == p) ≡ false → after.heap p ≡ m.heap p
  after_ne p apart = ground (arith, apart)

  own_chunks :
      (p : ℕ) → (q == p) ≡ true → chunks_of p (received q b bs ∷ es) ≡ (b ∷ bs) ∷ chunks_of p es
  own_chunks p same = rw same refl

  other_chunks : (p : ℕ) → (q == p) ≡ false → chunks_of p (received q b bs ∷ es) ≡ chunks_of p es
  other_chunks p apart = rw apart refl

  after-alive :
      (p : ℕ) → ((t : Session) × (m.heap p ≡ some t)) → (t : Session) × (after.heap p ≡ some t)
  after-alive p (t, e) = elim (Bool-cases (q == p)) [
    | inl same ↦ (now.session, after_self p same)
    | inr apart ↦ (t, after_ne p apart ∙ e)
  ]

  after-IsArmed :
      IsArmed s
      → ((p : ℕ) (t : Session) → m.heap p ≡ some t → IsArmed t)
      → (p : ℕ) (t : Session) → after.heap p ≡ some t
      → IsArmed t
  after-IsArmed armed all p t e = elim (Bool-cases (q == p)) [
    | inl same ↦
        let is_now : now.session ≡ t = eq_of_some (sym (after_self p same) ∙ e) in
        rw (← is_now) (complete_recv-IsArmed fuel (b ∷ bs) s first armed)
    | inr apart ↦ all p t (sym (after_ne p apart) ∙ e)
  ]

  after-returns :
      (r : Session × List Request) × (complete_recvs fuel (chunks_of q es) now.session ≡ ok r)
      → ((p : ℕ) (t : Session)
          → m.heap p ≡ some t
          → (r : Session × List Request) × (complete_recvs fuel
                (chunks_of p (received q b bs ∷ es))
                t
              ≡ ok r))
      → (p : ℕ) (t : Session) → after.heap p ≡ some t
      → (r : Session × List Request) × (complete_recvs fuel (chunks_of p es) t ≡ ok r)
  after-returns rest all p t e = elim (Bool-cases (q == p)) [
    | inl same ↦
        let is_now : now.session ≡ t = eq_of_some (sym (after_self p same) ∙ e) in
        let is_p : q ≡ p = ==→eq q p same in
        (
          rest.0,
          ap (λ k. complete_recvs fuel (chunks_of k es) t) (sym is_p)
              ∙ ap (complete_recvs fuel (chunks_of q es)) (sym is_now)
              ∙ rest.1,
        )
    | inr apart ↦
        let (r, runs) = all p t (sym (after_ne p apart) ∙ e) in
        (r, ap (λ k. complete_recvs fuel k t) (sym (other_chunks p apart)) ∙ runs)
  ]

  pub Serves-rest :
      Serves fuel (received q b bs ∷ es) m
      → (r : Session × List Request) × (complete_recvs fuel (chunks_of q es) now.session ≡ ok r)
      → Serves fuel es after
  Serves-rest v rest = record {
    armed = after-IsArmed (v.armed q s here) v.armed;
    returns = after-returns rest v.returns;
    alive =
        All-map_imp (λ e. (t : Session) × (m.heap (pointer_of e) ≡ some t))
          (λ e. (t : Session) × (after.heap (pointer_of e) ≡ some t)) es
          (λ e. after-alive (pointer_of e)) v.alive.1;
  }

  pub Isolated-received :
      (m' : Manager) (later : Started)
      → Isolated fuel es after m' later
      → Isolated fuel (received q b bs ∷ es) m m' (tagged q now.requests ++ later)
  Isolated-received m' later v = record {
    vector = v.vector;
    count = v.count;
    own = λ p t e. elim (Bool-cases (q == p)) [
      | inl same ↦ own_self p t same e
      | inr apart ↦ own_ne p t apart e
    ];
  }
    where
      own_self :
          (p : ℕ) (t : Session)
          → (q == p) ≡ true
          → m.heap p ≡ some t
          → (s' : Session) × (complete_recvs fuel (chunks_of p (received q b bs ∷ es)) t
              ≡ ok (s', requests_of p (tagged q now.requests ++ later)))
            × (m'.heap p ≡ some s')
      own_self p t same e =
          let is_p : q ≡ p = ==→eq q p same in
          let is_s : s ≡ t = eq_of_some (sym here ∙ ap m.heap is_p ∙ e) in
          let (s', runs, stored) = v.own p now.session (after_self p same) in
          let whole =
            complete_recvs_join fuel (b ∷ bs) (chunks_of p es) s s' now (requests_of p later) first
              runs in
          (
            s',
            ap (λ k. complete_recvs fuel k t) (own_chunks p same)
                ∙ ap (complete_recvs fuel ((b ∷ bs) ∷ chunks_of p es)) (sym is_s)
                ∙ whole
                ∙ ap (λ k. ok (s', k))
                    (sym (
                      ap (λ k. requests_of p (tagged k now.requests ++ later)) is_p
                      ∙ requests_of-tagged_self p now.requests later)),
            stored,
          )

      own_ne :
          (p : ℕ) (t : Session)
          → (q == p) ≡ false
          → m.heap p ≡ some t
          → (s' : Session) × (complete_recvs fuel (chunks_of p (received q b bs ∷ es)) t
              ≡ ok (s', requests_of p (tagged q now.requests ++ later)))
            × (m'.heap p ≡ some s')
      own_ne p t apart e =
          let (s', runs, stored) = v.own p t (after_ne p apart ∙ e) in
          (
            s',
            ap (λ k. complete_recvs fuel k t) (other_chunks p apart)
                ∙ runs
                ∙ ap (λ k. ok (s', k)) (sym (requests_of-tagged_ne p q now.requests later apart)),
            stored,
          )
