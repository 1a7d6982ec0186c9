-- ===== src/Programs/Senders/Schedules.antt =====
-- All the turns of the threads of Server/main.cpp that run `Send`, in the order of a schedule.
use yserver_core.Common.{
  ℕ, zero, suc, ◌+◌, ◌*◌, ◌-◌, ◌^◌, ◌<◌, ◌≤◌, ◌≡◌, ◌≢◌, refl, ap, sym, ◌∙◌, List, [], ◌∷◌, Option,
  none, some, true, false, ok, arith, length, replicate, All, subst, get_elem?, set,
  get_elem?-set_self, get_elem?-set_ne, get_elem?-lt, ◌==◌, if◌then◌else◌, Bool-cases, ==→eq, eq→==,
  inl, inr, Option-cases, eq_of_some,
}
use yserver_core.Session.{Session}
use yserver_core.SessionManager.{Manager}
use yserver_core.SessionManager.Heard.{Quiet}
use yserver_core.SessionManager.Kept.{Kept, Kept-Quiet, Kept-refl, Kept-trans}
use yserver_core.Programs.{Local, Sender, advance, send_loops, all_returned}
use yserver_core.Programs.Announced.{Announced}
use yserver_core.Programs.Senders.{
  msg, tally, owed, owed_all, need, Enough, IsSending, Told, Told-nothing, Told-then,
}
use yserver_core.Programs.Senders.Turns.{advance-Turned}

owed_all-set :
    (p : ℕ) (xs : List Sender) (j : ℕ) (x x' : Sender)
    → get_elem? xs j ≡ some x
    → owed_all p (set xs j x') + owed p x ≡ owed_all p xs + owed p x'
owed_all-set p [] j x x' e = absurd (cc)
owed_all-set p (y ∷ xs) zero x x' e =
    let same : owed p y ≡ owed p x = ap (owed p) (eq_of_some e) in omega (arith, same)
owed_all-set p (y ∷ xs) (suc j) x x' e = omega (arith, owed_all-set p xs j x x' e)

All-set :
    (P : Sender → Type 0) (xs : List Sender) (j : ℕ) (x' : Sender)
    → All P xs
    → P x'
    → All P (set xs j x')
All-set P [] j x' all new = tt
All-set P (y ∷ xs) zero x' all new = (new, all.1)
All-set P (y ∷ xs) (suc j) x' all new = (all.0, All-set P xs j x' all.1 new)

All-get :
    (P : Sender → Type 0) (xs : List Sender) (j : ℕ) {x : Sender}
    → All P xs
    → get_elem? xs j ≡ some x
    → P x
All-get P [] j all e = absurd (cc)
All-get P (y ∷ xs) zero all e = subst P (eq_of_some e) all.0
All-get P (y ∷ xs) (suc j) all e = All-get P xs j all.1 e

-- Threads that need no turn have returned, and owe nothing.
all_returned_lem :
    (sessions : List ℕ) (xs : List Sender) (p : ℕ)
    → Enough sessions [] xs
    → (all_returned xs ≡ true) × (owed_all p xs ≡ 0)
unfolding all_returned
all_returned_lem sessions [] p enough = (refl, refl)
all_returned_lem sessions (x ∷ xs) p enough =
    let (later, nothing_more) = all_returned_lem sessions xs p (λ j y e. enough (suc j) y e) in
    one x.rounds x.pointers (enough zero x refl) later nothing_more
  where
    one :
        (rounds : List Local) (pointers : List ℕ)
        → length pointers + length rounds * (1 + length sessions) ≤ 0
        → all_returned xs ≡ true
        → owed_all p xs ≡ 0
        → ((if length rounds == 0
              then (if length pointers == 0 then all_returned xs else false)
              else false)
            ≡ true)
          × (length rounds + tally p pointers + owed_all p xs ≡ 0)
    one [] [] small later nothing_more = (later, omega (arith, nothing_more))
    one (l ∷ ls) [] small later nothing_more = absurd (omega arith)
    one rounds (q ∷ qs) small later nothing_more = absurd (omega arith)

Enough-next :
    (sessions schedule : List ℕ) (j : ℕ) (xs : List Sender) (x x' : Sender)
    → get_elem? xs j ≡ some x
    → need sessions x' ≡ need sessions x - 1
    → Enough sessions (j ∷ schedule) xs
    → Enough sessions schedule (set xs j x')
Enough-next sessions schedule j xs x x' at less enough k y e = elim (Bool-cases (k == j)) [
  | inl here ↦
      let same = ==→eq k j here in
      let is_x' : x' ≡ y = eq_of_some (
        sym (get_elem?-set_self xs j x' (get_elem?-lt xs j at))
        ∙ ap (get_elem? (set xs j x')) (sym same)
        ∙ e) in
      let before = enough j x at in
      rw (sym is_x') (omega (arith, less, before, first, ap (λ n. tally n schedule) same))
  | inr other ↦
      let before = enough k y (sym (get_elem?-set_ne xs j k x' (apart k j other)) ∙ e) in
      omega (arith, before, tally_other k other)
]
  where
    apart : (a b : ℕ) → (a == b) ≡ false → b ≢ a
    apart a b e same = ground arith

    first : tally j (j ∷ schedule) ≡ 1 + tally j schedule
    first = rw (eq→== j j refl) refl

    tally_other : (k : ℕ) → (k == j) ≡ false → tally k (j ∷ schedule) ≡ tally k schedule
    tally_other k other = rw other (omega arith)

Enough-skip :
    (sessions schedule : List ℕ) (j : ℕ) (xs : List Sender)
    → get_elem? xs j ≡ none
    → Enough sessions (j ∷ schedule) xs
    → Enough sessions schedule xs
Enough-skip sessions schedule j xs gone enough k y e = elim (Bool-cases (k == j)) [
  | inl here ↦ absurd (absent (sym gone ∙ ap (get_elem? xs) (sym (==→eq k j here)) ∙ e))
  | inr other ↦ omega (arith, enough k y e, tally_other other)
]
  where
    absent : ◌≡◌ {A = Option Sender} none (some y) → ⊥
    absent e = cc

    tally_other : (k == j) ≡ false → tally k (j ∷ schedule) ≡ tally k schedule
    tally_other other = rw other (omega arith)

module _ (last_error : Session → ℕ) (documented : (s : Session) → last_error s < 2 ^ 31) where
  send_loops_skip :
      (j : ℕ) (schedule : List ℕ) (xs : List Sender) (m : Manager)
      → get_elem? xs j ≡ none
      → send_loops last_error (j ∷ schedule) xs m ≡ send_loops last_error schedule xs m
  unfolding send_loops
  send_loops_skip j schedule xs m gone = rw (gone, send_loops) refl

  send_loops_turn :
      (j : ℕ) (schedule : List ℕ) (xs : List Sender) (m m' : Manager) (x x' : Sender)
      → get_elem? xs j ≡ some x
      → advance last_error x m ≡ ok (x', m')
      → send_loops last_error (j ∷ schedule) xs m ≡ send_loops last_error schedule (set xs j x') m'
  unfolding send_loops
  send_loops_turn j schedule xs m m' x x' at returns = rw (at, send_loops) (rw returns refl)

  Told-as :
      (f g : ℕ → ℕ) (m m' : Manager)
      → ((i p : ℕ) → get_elem? m.sessions i ≡ some p → f p ≡ g p)
      → Told f m m'
      → Told g m m'
  Told-as f g m m' same told i p s e stored =
      let (out, a, r) = told i p s e stored in
      (out, subst (λ n. Announced (replicate n msg) out) (same i p e) a, r)

  -- Whatever the order, as long as every thread gets its turns: all return, and each session of the
  -- vector was sent every message that the threads owed to it.
  pub send_loops-Told :
      (schedule : List ℕ) (xs : List Sender) (m : Manager)
      → Quiet m
      → All (IsSending m.sessions) xs
      → Enough m.sessions schedule xs
      → (xs' : List Sender) × (m' : Manager) × (send_loops last_error schedule xs m ≡ ok (xs', m'))
        × (all_returned xs' ≡ true)
        × Kept m m'
        × Told (λ p. owed_all p xs) m m'
  send_loops-Told [] xs m quiet sending enough = (
    xs,
    m,
    unfold send_loops in refl,
    (all_returned_lem m.sessions xs 0 enough).0,
    Kept-refl m,
    Told-as (λ p. 0) (λ p. owed_all p xs) m m
        (λ i p e. sym (all_returned_lem m.sessions xs p enough).1) (Told-nothing m quiet),
  )
  send_loops-Told (j ∷ schedule) xs m quiet sending enough = elim (Option-cases (get_elem? xs j)) [
    | inl gone ↦
        let (xs', m', runs, returned, kept, told) =
          send_loops-Told schedule xs m quiet sending
            (Enough-skip m.sessions schedule j xs gone enough) in
        (xs', m', send_loops_skip j schedule xs m gone ∙ runs, returned, kept, told)
    | inr (x, at) ↦
        let (x', m1, turn) =
          advance-Turned last_error documented x.rounds x.packet x.pointers m quiet
            (All-get (IsSending m.sessions) xs j sending at) in
        let same = turn.kept.sessions in
        let sending' : All (IsSending m1.sessions) (set xs j x') =
          subst (λ l. All (IsSending l) (set xs j x')) (sym same)
            (All-set (IsSending m.sessions) xs j x' sending turn.sending) in
        let enough' : Enough m1.sessions schedule (set xs j x') =
          subst (λ l. Enough l schedule (set xs j x')) (sym same)
            (Enough-next m.sessions schedule j xs x x' at turn.needs enough) in
        let (xs', m', runs, returned, kept, told) =
          send_loops-Told schedule (set xs j x') m1 (Kept-Quiet turn.kept quiet) sending' enough' in
        (
          xs',
          m',
          send_loops_turn j schedule xs m m1 x x' at turn.returns ∙ runs,
          returned,
          Kept-trans turn.kept kept,
          Told-as (λ p. turn.sent p + owed_all p (set xs j x')) (λ p. owed_all p xs) m m'
              (λ i p e. omega (arith, turn.owes i p e, owed_all-set p xs j x x' at))
              (Told-then turn.sent (λ p. owed_all p (set xs j x')) m m1 m' turn.kept turn.told
                told),
        )
  ]
