-- ===== src/SessionManager/Kept.antt =====
-- Sends by the sessions of YServerCore/SessionManager.h, of whatever packets: no session goes away, and
-- each keeps its number.
use yserver_core.Common.{
  ℕ, ◌^◌, ◌<◌, ◌≡◌, ◌≢◌, refl, ap, sym, ◌∙◌, List, [], ◌∷◌, none, some, true, false, Result, ok,
  err, Error, ◌>>=◌, ◌>>◌, suc, require, if◌then◌else◌, arith, inl, inr, Bool-cases, Option-cases,
  ==→eq, ◌==◌, eq_of_some, subst, All, get_elem?, length,
}
use yserver_core.Packet.{buf_size}
use yserver_core.Packet.Layout.{read_header}
use yserver_core.Packet.Words.{HasWord}
use yserver_core.Framing.{IoData}
use yserver_core.Session.{Session, Outcome, buffer_packet, send, send_packet}
use yserver_core.Session.Send.{IsIdle, buffer_packet_branches, send_packet_never_closes}
use yserver_core.SessionManager.{Heap, store, Manager, send_each, all_message}
use yserver_core.SessionManager.Numbering.{store_self, store_ne}
use yserver_core.SessionManager.Broadcast.{Alive}
use yserver_core.SessionManager.Heard.{Quiet}

-- A call returns such a value, or fails, but not by a use of a deleted session.
abbrev pub Ends {ℓ} : {A : Type ℓ} → (A → Type 0) → Result A → Type 0
Ends P (ok value) = P value
Ends P (err e) = e ≢ Error.use_after_free

-- What the rest of a chain makes of it.
module _ {ℓ κ} {A : Type ℓ} {B : Type κ} (First : A → Type 0) (Last : B → Type 0) where
  pub Ends-bind :
      (call : Result A) (rest : A → Result B)
      → Ends First call
      → ((given : A) → First given → Ends Last (rest given))
      → Ends Last (call >>= rest)
  Ends-bind (ok given) rest ends goes = goes given ends
  Ends-bind (err fault) rest ends goes = ends

pub Ends-map {ℓ} :
    {A : Type ℓ} (P Q : A → Type 0) (r : Result A) → ((a : A) → P a → Q a) → Ends P r → Ends Q r
Ends-map P Q (ok a) f h = f a h
Ends-map P Q (err e) f h = h

-- Sessions with nothing waiting stay, with their numbers and nothing waiting.
pub record Stays (s s' : Session) : Type 0 where
  pub session_id : s'.session_id ≡ s.session_id
  pub idle : IsIdle s'

pub record HeapKept (heap heap' : Heap) : Type 0 where
  pub kept :
      (p : ℕ) (s : Session)
      → heap p ≡ some s
      → IsIdle s
      → (s' : Session) × (heap' p ≡ some s') × Stays s s'

pub record Kept (m m' : Manager) : Type 0 where
  pub sessions : m'.sessions ≡ m.sessions
  pub session_count : m'.session_count ≡ m.session_count
  pub heap : HeapKept m.heap m'.heap

pub HeapKept-refl : (heap : Heap) → HeapKept heap heap
HeapKept-refl heap = record {
  kept = λ p s e idle. (s, e, record { session_id = refl; idle = idle });
}

pub HeapKept-trans : {a b c : Heap} → HeapKept a b → HeapKept b c → HeapKept a c
HeapKept-trans h k = record {
  kept = λ p s e idle.
      let (s', e', first) = h.kept p s e idle in
      let (s'', e'', second) = k.kept p s' e' first.idle in
      (s'', e'', record { session_id = second.session_id ∙ first.session_id; idle = second.idle });
}

pub Kept-trans : {a b c : Manager} → Kept a b → Kept b c → Kept a c
Kept-trans h k = record {
  sessions = k.sessions ∙ h.sessions;
  session_count = k.session_count ∙ h.session_count;
  heap = HeapKept-trans h.heap k.heap;
}

pub HeapKept-store :
    (heap : Heap) (p : ℕ) (s s' : Session)
    → heap p ≡ some s
    → (IsIdle s → Stays s s')
    → HeapKept heap (store heap p (some s'))
HeapKept-store heap p s s' alive stays = record {
  kept = λ q t e idle. elim (Bool-cases (p == q)) [
    | inl here ↦
        let same = ==→eq p q here in
        let t_is : s ≡ t = eq_of_some (sym alive ∙ ap heap same ∙ e) in
        (
          s',
          ap (store heap p (some s')) (sym same) ∙ store_self heap p (some s'),
          subst (λ u. Stays u s') t_is (stays (subst IsIdle (sym t_is) idle)),
        )
    | inr there ↦
        (t, store_ne heap p q _ (apart p q there) ∙ e, record { session_id = refl; idle = idle })
  ];
}
  where
    apart : (a b : ℕ) → (a == b) ≡ false → a ≢ b
    apart a b e same = ground arith

pub Kept-refl : (m : Manager) → Kept m m
Kept-refl m = record { sessions = refl; session_count = refl; heap = HeapKept-refl m.heap }

pub Kept-stored :
    (m : Manager) (p : ℕ) (s s' : Session)
    → m.heap p ≡ some s
    → (IsIdle s → Stays s s')
    → Kept m (record m { heap = store m.heap p (some s') })
Kept-stored m p s s' alive stays = record {
  sessions = refl;
  session_count = refl;
  heap = HeapKept-store m.heap p s s' alive stays;
}

pub Alive-kept : {heap heap' : Heap} (p : ℕ) → HeapKept heap heap' → Alive heap p → Alive heap' p
Alive-kept p h a =
    let (s', e', stays) = h.kept p a.session a.stored a.idle in
    record { session = s'; stored = e'; idle = stays.idle }

pub Kept-Quiet : {m m' : Manager} → Kept m m' → Quiet m → Quiet m'
Kept-Quiet {m} {m'} k q = record {
  managed = record {
    counted = k.session_count ∙ q.managed.counted ∙ ap length (sym k.sessions);
    placed = λ i p e.
        let at = q.managed.placed i p (before i p e) in
        let (s', e', stays) =
          k.heap.kept p at.session at.stored (q.idle i p at.session (before i p e) at.stored) in
        record { session = s'; stored = e'; numbered = stays.session_id ∙ at.numbered };
  };
  idle = λ i p s e stored.
      let at = q.managed.placed i p (before i p e) in
      let (s', e', stays) =
        k.heap.kept p at.session at.stored (q.idle i p at.session (before i p e) at.stored) in
      subst IsIdle (eq_of_some (sym e' ∙ stored)) stays.idle;
}
  where
    before : (i p : ℕ) → get_elem? m'.sessions i ≡ some p → get_elem? m.sessions i ≡ some p
    before i p e = subst (λ l. get_elem? l i ≡ some p) k.sessions e

pub Ends-ok {ℓ} : {A : Type ℓ} (P : A → Type 0) {r : Result A} (a : A) → r ≡ ok a → P a → Ends P r
Ends-ok P a e h = subst (Ends P) (sym e) h

pub Ends-err {ℓ} :
    {A : Type ℓ} (P : A → Type 0) {r : Result A} (e : Error)
    → r ≡ err e
    → e ≢ Error.use_after_free
    → Ends P r
Ends-err P e same apart = subst (Ends P) (sym same) apart

module _ (last_error : Session → ℕ) (documented : (s : Session) → last_error s < 2 ^ 31)
    (packet : List ℕ) (has_word : HasWord packet) where
  -- What a send leaves of its session.
  abbrev pub SentBy : Session → Outcome → Type 0
  SentBy s o = Stays s o.session × (o.closes ≡ false)

  sends :
      (s : Session) (io : IoData)
      → buffer_packet packet s.write ≡ ok io
      → send_packet last_error (some packet) s ≡ ok (send last_error (record s { write = io }))
  unfolding send_packet
  sends s io e = rw e refl

  sends_not :
      (s : Session) (e : Error)
      → buffer_packet packet s.write ≡ err e
      → send_packet last_error (some packet) s ≡ err e
  unfolding send_packet
  sends_not s e fails = rw fails refl

  send_stays :
      (s : Session) (io : IoData)
      → length io.bytes ≡ buf_size
      → Stays s (send last_error (record s { write = io })).session
  unfolding send
  send_stays s io sized = record {
    session_id = refl;
    idle = record { counted = refl; sized = sized };
  }

  unreadable :
      (io : IoData) → read_header packet ≡ none → buffer_packet packet io ≡ err Error.out_of_bounds
  unfolding buffer_packet
  unreadable io e = rw (buffer_packet, e) refl

  pub send_packet-Ends :
      (s : Session) → IsIdle s → Ends (SentBy s) (send_packet last_error (some packet) s)
  send_packet-Ends s idle = elim (Option-cases (read_header packet)) [
    | inl none_there ↦
        Ends-err (SentBy s) Error.out_of_bounds (sends_not s _ (unreadable s.write none_there))
          (λ e. absurd (cc))
    | inr ((h, rest), reads) ↦
        elim (buffer_packet_branches packet rest h s.write reads idle.sized
          (omega (arith, idle.counted)) (has_word h rest reads)) [
            | inl (_, locks) ↦
                Ends-err (SentBy s) Error.deadlock (sends_not s _ locks) (λ e. absurd (cc))
            | inr rest_cases ↦ elim rest_cases [
              | inl (_, over) ↦
                  Ends-err (SentBy s) Error.out_of_bounds (sends_not s _ over) (λ e. absurd (cc))
              | inr (io, buffers, b) ↦
                  let o = send last_error (record s { write = io }) in
                  Ends-ok (SentBy s) o (sends s io buffers) (
                    send_stays s io b.sized,
                    send_packet_never_closes last_error packet s o documented (sends s io buffers),
                  )
            ]
          ]
  ]

  send_each_at :
      (p : ℕ) (ps : List ℕ) (heap : Heap) (s : Session)
      → heap p ≡ some s
      → send_each last_error packet (p ∷ ps) heap ≡ (
          send_packet last_error (some packet) s >>= λ o.
          (require (if o.closes then false else true) Error.deadlock
            >> send_each last_error packet ps (store heap p (some o.session))))
  unfolding send_each
  send_each_at p ps heap s e = rw e refl

  goes_on :
      (o : Outcome) (r : Result Heap)
      → o.closes ≡ false
      → (require (if o.closes then false else true) Error.deadlock >> r) ≡ r
  goes_on o r e = rw e refl

  All-kept :
      (ps : List ℕ) (heap heap' : Heap)
      → HeapKept heap heap'
      → All (Alive heap) ps
      → All (Alive heap') ps
  All-kept [] heap heap' k v = tt
  All-kept (p ∷ ps) heap heap' k v = (Alive-kept p k v.0, All-kept ps heap heap' k v.1)

  send_each-Ends :
      (ps : List ℕ) (heap : Heap)
      → All (Alive heap) ps
      → Ends (HeapKept heap) (send_each last_error packet ps heap)
  send_each-Ends [] heap v =
      Ends-ok (HeapKept heap) heap (unfold send_each in refl) (HeapKept-refl heap)
  send_each-Ends (p ∷ ps) heap v =
      let s = v.0.session in
      subst (Ends (HeapKept heap)) (sym (send_each_at p ps heap s v.0.stored)) (
        Ends-bind (SentBy s) (HeapKept heap) (send_packet last_error (some packet) s) _
          (send_packet-Ends s v.0.idle)
          (λ o sent.
            let now : Heap = store heap p (some o.session) in
            let kept = HeapKept-store heap p s o.session v.0.stored (λ _. sent.0) in
            subst (Ends (HeapKept heap))
              (sym (goes_on o (send_each last_error packet ps now) sent.1))
              (Ends-map (HeapKept now) (HeapKept heap) (send_each last_error packet ps now)
                (λ last later. HeapKept-trans kept later)
                (send_each-Ends ps now (All-kept ps heap now kept v.1)))))

  pub all_message-Ends : (m : Manager) → Quiet m → Ends (Kept m) (all_message last_error packet m)
  unfolding all_message
  all_message-Ends m q =
      Ends-bind (HeapKept m.heap) (Kept m) (send_each last_error packet m.sessions m.heap) _
        (send_each-Ends m.sessions m.heap (Quiet-Alive m.sessions (λ i p e. placed_alive i p e)))
        (λ heap k. record { sessions = refl; session_count = refl; heap = k })
    where
      placed_alive : (i p : ℕ) → get_elem? m.sessions i ≡ some p → Alive m.heap p
      placed_alive i p e =
          let at = q.managed.placed i p e in
          record {
            session = at.session;
            stored = at.stored;
            idle = q.idle i p at.session e at.stored;
          }

      Quiet-Alive :
          (ps : List ℕ)
          → ((i p : ℕ) → get_elem? ps i ≡ some p → Alive m.heap p)
          → All (Alive m.heap) ps
      Quiet-Alive [] at = tt
      Quiet-Alive (p ∷ ps) at = (at 0 p refl, Quiet-Alive ps (λ i q e. at (suc i) q e))
