-- ===== src/Programs/Senders.antt =====
-- The threads of Server/main.cpp that run `Send` side by side: what they owe to the sessions, and what
-- each session hears of them.
pub mod Turns
pub mod Schedules
use yserver_core.Common.{
  ℕ, zero, suc, ◌+◌, ◌*◌, ◌-◌, ◌^◌, ◌<◌, ◌≤◌, ◌≡◌, ◌≢◌, refl, ap, sym, ◌∙◌, List, [], ◌∷◌, ◌++◌,
  Option, none, some, true, false, ok, arith, length, replicate, All, subst, get_elem?, set,
  get_elem?-set_self, get_elem?-set_ne, get_elem?-lt, append-nil, ◌==◌, if◌then◌else◌, Bool-cases,
  ==→eq, eq→==, inl, inr, Option-cases, eq_of_some,
}
use yserver_core.CString.{codes}
use yserver_core.Packet.Layout.{chat_message_image}
use yserver_core.Session.{Session}
use yserver_core.Session.Send.{IsIdle, Sent}
use yserver_core.SessionManager.{Manager, store}
use yserver_core.SessionManager.Numbering.{Placed-unique, store_self, store_ne}
use yserver_core.SessionManager.Broadcast.{Reached}
use yserver_core.SessionManager.Heard.{Quiet, Sent-then}
use yserver_core.SessionManager.Kept.{Kept, Kept-Quiet, Kept-refl, Kept-trans, Kept-stored}
use yserver_core.Programs.{Local, Sender, advance, send_loops, all_returned}
use yserver_core.Programs.Typed.{IsLocal}
use yserver_core.Programs.Announced.{
  Announced, nothing, Announced-append, IsSaying, says_lem, IsSaying-Announced, send_saying,
}

abbrev pub msg : List ℕ
msg = codes "Msg"

-- How often a number stands in a list.
abbrev pub tally : ℕ → List ℕ → ℕ
tally p [] = 0
tally p (q ∷ qs) = (if p == q then 1 else 0) + tally p qs

-- The messages that a thread has still to send to a pointer, and the turns that it needs.
abbrev pub owed : ℕ → Sender → ℕ
owed p x = length x.rounds + tally p x.pointers

abbrev pub owed_all : ℕ → List Sender → ℕ
owed_all p [] = 0
owed_all p (x ∷ xs) = owed p x + owed_all p xs

abbrev pub need : List ℕ → Sender → ℕ
need sessions x = length x.pointers + length x.rounds * (1 + length sessions)

-- Every thread gets the turns that it needs.
abbrev pub Enough : List ℕ → List ℕ → List Sender → Type 0
Enough sessions schedule xs =
    (j : ℕ) (x : Sender) → get_elem? xs j ≡ some x → need sessions x ≤ tally j schedule

-- A thread whose locals have the right lengths, in a call for sessions of the vector.
pub record IsSending (sessions : List ℕ) (x : Sender) : Type 0 where
  pub rounds : All IsLocal x.rounds
  pub placed :
      All (λ p. IsSaying msg x.packet × (i : ℕ) × (get_elem? sessions i ≡ some p)) x.pointers

-- Each session of the vector was sent so many messages, as bytes of its own.
abbrev pub Told : (ℕ → ℕ) → Manager → Manager → Type 0
Told f m m' =
    (i p : ℕ) (s : Session)
    → get_elem? m.sessions i ≡ some p
    → m.heap p ≡ some s
    → (out : List ℕ) × Announced (replicate (f p) msg) out × Reached out s m'.heap p

replicate-append : (a b : ℕ) → replicate a msg ++ replicate b msg ≡ replicate (a + b) msg
replicate-append zero b = let e : b ≡ 0 + b = omega arith in ap (λ k. replicate k msg) e
replicate-append (suc a) b =
    let e : suc (a + b) ≡ suc a + b = omega arith in
    ap (◌∷◌ msg) (replicate-append a b) ∙ ap (λ k. replicate k msg) e

Reached-same :
    (s : Session) (m : Manager) (p : ℕ) → IsIdle s → m.heap p ≡ some s → Reached [] s m.heap p
Reached-same s m p idle stored = record {
  session = s;
  stored = stored;
  sent = record {
    wire = sym (append-nil s.wire);
    idle = idle;
    socket_data = refl;
    read = refl;
    session_id = refl;
    user_info = refl;
    session_state = refl;
  };
}

pub Told-nothing : (m : Manager) → Quiet m → Told (λ p. 0) m m
Told-nothing m q i p s e stored = ([], nothing, Reached-same s m p (q.idle i p s e stored) stored)

pub Told-then :
    (f g : ℕ → ℕ) (m m' m'' : Manager)
    → Kept m m'
    → Told f m m'
    → Told g m' m''
    → Told (λ p. f p + g p) m m''
Told-then f g m m' m'' k first second i p s e stored =
    let (out, a, r) = first i p s e stored in
    let (out', a', r') =
      second i p r.session (subst (λ l. get_elem? l i ≡ some p) (sym k.sessions) e) r.stored in
    (
      out ++ out',
      subst (λ l. Announced l (out ++ out')) (replicate-append (f p) (g p)) (Announced-append a a'),
      record { session = r'.session; stored = r'.stored; sent = Sent-then r.sent r'.sent },
    )

-- One session is sent a message.
pub Told-one :
    (m : Manager) (q : ℕ) {packet : List ℕ} (t t' : Session)
    → Quiet m
    → IsSaying msg packet
    → m.heap q ≡ some t
    → Sent t packet t'
    → Told (λ p. if p == q then 1 else 0) m (record m { heap = store m.heap q (some t') })
Told-one m q {packet} t t' quiet v there sent i p s e stored = elim (Bool-cases (p == q)) [
  | inl here ↦
      let same = ==→eq p q here in
      let s_is : t ≡ s = eq_of_some (sym there ∙ ap m.heap (sym same) ∙ stored) in
      (
        packet,
        rw here (IsSaying-Announced v),
        record {
          session = t';
          stored = ap (store m.heap q (some t')) same ∙ store_self m.heap q (some t');
          sent = subst (λ u. Sent u packet t') s_is sent;
        },
      )
  | inr other ↦
      let now : Manager = record m { heap = store m.heap q (some t') } in
      (
        [],
        rw other nothing,
        Reached-same s now p (quiet.idle i p s e stored)
            (store_ne m.heap q p _ (apart p q other) ∙ stored),
      )
]
  where
    apart : (a b : ℕ) → (a == b) ≡ false → b ≢ a
    apart a b e same = ground arith
