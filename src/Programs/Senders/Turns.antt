-- ===== src/Programs/Senders/Turns.antt =====
-- One turn of a thread of Server/main.cpp that runs `Send`.
use yserver_core.Common.{
  ℕ, zero, suc, ◌+◌, ◌-◌, ◌^◌, ◌<◌, ◌≡◌, ◌≢◌, refl, ap, sym, List, [], ◌∷◌, some, true, false, ok,
  arith, All, get_elem?, ◌==◌, if◌then◌else◌, Bool-cases, ==→eq, eq→==, inl, inr, eq_of_some,
}
use yserver_core.Packet.Layout.{chat_message_image}
use yserver_core.Session.{Session}
use yserver_core.SessionManager.{Manager, store}
use yserver_core.SessionManager.Numbering.{Placed-unique}
use yserver_core.SessionManager.Heard.{Quiet}
use yserver_core.SessionManager.Kept.{Kept, Kept-refl, Kept-stored}
use yserver_core.Programs.{Local, Sender, advance}
use yserver_core.Programs.Announced.{IsSaying, says_lem, send_saying}
use yserver_core.Programs.Senders.{msg, tally, owed, need, IsSending, Told, Told-nothing, Told-one}

tally_none : (p : ℕ) (qs : List ℕ) → ((i : ℕ) → get_elem? qs i ≢ some p) → tally p qs ≡ 0
tally_none p [] away = refl
tally_none p (q ∷ qs) away = elim (Bool-cases (p == q)) [
  | inl here ↦ absurd (away zero (ap some (sym (==→eq p q here))))
  | inr other ↦ rw other (omega (arith, tally_none p qs (λ i. away (suc i))))
]

tally_once :
    (p : ℕ) (qs : List ℕ) (i : ℕ)
    → get_elem? qs i ≡ some p
    → ((j : ℕ) → get_elem? qs j ≡ some p → i ≡ j)
    → tally p qs ≡ 1
tally_once p [] i e once = absurd (cc)
tally_once p (q ∷ qs) zero e once =
    let same : (p == q) ≡ true = eq→== p q (sym (eq_of_some e)) in
    rw same (omega (arith, tally_none p qs (λ j e'. absurd (omega (arith, once (suc j) e')))))
tally_once p (q ∷ qs) (suc i) e once =
    let other : (p == q) ≡ false =
      apart p q (λ same. absurd (omega (arith, once zero (ap some (sym same))))) in
    rw other (omega (arith, tally_once p qs i e (λ j e'. omega (arith, once (suc j) e'))))
  where
    apart : (a b : ℕ) → a ≢ b → (a == b) ≡ false
    apart a b ne = ground arith

module _ (last_error : Session → ℕ) (documented : (s : Session) → last_error s < 2 ^ 31) where
  -- What one turn does: the thread needs one turn less, and what it still owed to a session of the
  -- vector was sent or is owed still.
  pub record Turned (x x' : Sender) (m m' : Manager) : Type 0 where
    pub returns : advance last_error x m ≡ ok (x', m')
    pub sending : IsSending m.sessions x'
    pub kept : Kept m m'
    pub sent : ℕ → ℕ
    pub told : Told sent m m'
    pub owes : (i p : ℕ) → get_elem? m.sessions i ≡ some p → owed p x ≡ sent p + owed p x'
    pub needs : need m.sessions x' ≡ need m.sessions x - 1

  turn_sends :
      (rounds : List Local) (packet : List ℕ) (q : ℕ) (qs : List ℕ) (m : Manager)
      → Quiet m
      → IsSending m.sessions (record { rounds = rounds; packet = packet; pointers = q ∷ qs })
      → (x' : Sender) × (m' : Manager) × Turned
          (record { rounds = rounds; packet = packet; pointers = q ∷ qs })
          x'
          m
          m'
  unfolding advance
  turn_sends rounds packet q qs m quiet v =
      let (saying, i, at) = v.placed.0 in
      let there = quiet.managed.placed i q at in
      let (o, sends, open_still, sent) =
        send_saying last_error documented there.session saying
          (quiet.idle i q there.session at there.stored) in
      (
        record { rounds = rounds; packet = packet; pointers = qs },
        record m { heap = store m.heap q (some o.session) },
        record {
          returns = rw (there.stored, sends, open_still) refl;
          sending = record { rounds = v.rounds; placed = v.placed.1 };
          kept =
              Kept-stored m q there.session o.session there.stored
                (λ _. record { session_id = sent.session_id; idle = sent.idle });
          sent = λ p. if p == q then 1 else 0;
          told = Told-one m q there.session o.session quiet saying there.stored sent;
          owes = λ j p e. omega arith;
          needs = omega arith;
        },
      )

  turn_begins :
      (l : Local) (ls : List Local) (packet : List ℕ) (m : Manager)
      → Quiet m
      → IsSending m.sessions (record { rounds = l ∷ ls; packet = packet; pointers = [] })
      → (x' : Sender) × (m' : Manager) × Turned
          (record { rounds = l ∷ ls; packet = packet; pointers = [] })
          x'
          m
          m'
  unfolding advance
  turn_begins l ls packet m quiet v =
      let (message, made, saying) =
        says_lem l msg v.rounds.0 ((omega arith, (omega arith, (omega arith, tt))), omega arith) in
      (
        record { rounds = ls; packet = chat_message_image message; pointers = m.sessions },
        m,
        record {
          returns = rw made refl;
          sending = record {
            rounds = v.rounds.1;
            placed = all_placed (chat_message_image message) saying m.sessions (λ i p e. (i, e));
          };
          kept = Kept-refl m;
          sent = λ p. 0;
          told = Told-nothing m quiet;
          owes = λ i p e. omega (
            arith,
            tally_once p m.sessions i e
                (λ j e'. Placed-unique (quiet.managed.placed i p e) (quiet.managed.placed j p e')),
          );
          needs = omega arith;
        },
      )
    where
      all_placed :
          (packet' : List ℕ)
          → IsSaying msg packet'
          → (ps : List ℕ)
          → ((i p : ℕ) → get_elem? ps i ≡ some p → (j : ℕ) × (get_elem? m.sessions j ≡ some p))
          → All (λ p. IsSaying msg packet' × (i : ℕ) × (get_elem? m.sessions i ≡ some p)) ps
      all_placed packet' saying [] at = tt
      all_placed packet' saying (p ∷ ps) at = (
        (saying, (at zero p refl).0, (at zero p refl).1),
        all_placed packet' saying ps (λ i q e. at (suc i) q e),
      )

  turn_rests :
      (packet : List ℕ) (m : Manager)
      → Quiet m
      → IsSending m.sessions (record { rounds = []; packet = packet; pointers = [] })
      → (x' : Sender) × (m' : Manager) × Turned
          (record { rounds = []; packet = packet; pointers = [] })
          x'
          m
          m'
  unfolding advance
  turn_rests packet m quiet v = (
    record { rounds = []; packet = packet; pointers = [] },
    m,
    record {
      returns = refl;
      sending = v;
      kept = Kept-refl m;
      sent = λ p. 0;
      told = Told-nothing m quiet;
      owes = λ i p e. omega arith;
      needs = omega arith;
    },
  )

  pub advance-Turned :
      (rounds : List Local) (packet pointers : List ℕ) (m : Manager)
      → Quiet m
      → IsSending m.sessions (record { rounds = rounds; packet = packet; pointers = pointers })
      → (x' : Sender) × (m' : Manager) × Turned
          (record { rounds = rounds; packet = packet; pointers = pointers })
          x'
          m
          m'
  advance-Turned [] packet [] m quiet v = turn_rests packet m quiet v
  advance-Turned (l ∷ ls) packet [] m quiet v = turn_begins l ls packet m quiet v
  advance-Turned rounds packet (q ∷ qs) m quiet v = turn_sends rounds packet q qs m quiet v
