-- ===== src/SessionManager/Broadcast.antt =====
-- `AllMessage` of YServerCore/SessionManager.h: a packet to every session.
use yserver_core.Common.{
  ℕ, zero, suc, ◌^◌, ◌<◌, ◌≤◌, ◌≡◌, ◌≢◌, refl, ap, sym, ◌∙◌, List, [], ◌∷◌, some, false, ok, arith,
  length, take, get_elem?, eq_of_some,
}
use yserver_core.Packet.{Header, buf_size}
use yserver_core.Packet.Layout.{read_header}
use yserver_core.Session.{Session, Outcome, send_packet}
use yserver_core.Session.Send.{IsIdle, Sent, send_packet-Sent, send_packet_never_closes}
use yserver_core.SessionManager.{Heap, store, Manager, send_each, all_message}
use yserver_core.SessionManager.Numbering.{IsManaged, store_self, store_ne, Placed-unique}

-- The session at a pointer after bytes went out to it.
pub record Reached (out : List ℕ) (s : Session) (heap : Heap) (p : ℕ) : Type 0 where
  pub session : Session
  pub stored : heap p ≡ some session
  pub sent : Sent s out session

pub record Alive (heap : Heap) (p : ℕ) : Type 0 where
  pub session : Session
  pub stored : heap p ≡ some session
  pub idle : IsIdle session

-- Every pointer of the list stands in it once, and is a session with nothing waiting.
record Audience (heap : Heap) (ps : List ℕ) : Type 0 where
  alive : (i p : ℕ) → get_elem? ps i ≡ some p → Alive heap p
  once : (i j p : ℕ) → get_elem? ps i ≡ some p → get_elem? ps j ≡ some p → i ≡ j

-- What a broadcast does to the heap.
pub record Broadcast (out : List ℕ) (ps : List ℕ) (heap heap' : Heap) : Type 0 where
  pub reached :
      (i p : ℕ) (s : Session) → get_elem? ps i ≡ some p → heap p ≡ some s → Reached out s heap' p
  pub untouched : (q : ℕ) → ((i : ℕ) → get_elem? ps i ≢ some q) → heap' q ≡ heap q

managed-Audience :
    (m : Manager)
    → IsManaged m
    → ((i p : ℕ) (s : Session) → get_elem? m.sessions i ≡ some p → m.heap p ≡ some s → IsIdle s)
    → Audience m.heap m.sessions
managed-Audience m v idle = record {
  alive = λ i p e.
      let at = v.placed i p e in
      record { session = at.session; stored = at.stored; idle = idle i p at.session e at.stored };
  once = λ i j p e e'. Placed-unique (v.placed i p e) (v.placed j p e');
}

module _ (out : List ℕ) (p : ℕ) (ps : List ℕ) (heap heap' : Heap) (s s' : Session)
    (alive : heap p ≡ some s) (sent : Sent s out s') (away : (i : ℕ) → get_elem? ps i ≢ some p)
    (b : Broadcast out ps (store heap p (some s')) heap') where
  Reached-head : (q : ℕ) (t : Session) → p ≡ q → heap q ≡ some t → Reached out t heap' q
  Reached-head q t same stored =
      let t_is_s : t ≡ s = eq_of_some (sym stored ∙ ap heap (sym same) ∙ alive) in
      record {
        session = s';
        stored = ap heap' (sym same) ∙ b.untouched p away ∙ store_self heap p (some s');
        sent = rw t_is_s sent;
      }

  Reached-cons :
      (i q : ℕ) (t : Session)
      → get_elem? (p ∷ ps) i ≡ some q
      → heap q ≡ some t
      → Reached out t heap' q
  Reached-cons zero q t e stored = Reached-head q t (eq_of_some e) stored
  Reached-cons (suc i) q t e stored =
      b.reached i q t e (store_ne heap p q _ (λ same. away i (rw same e)) ∙ stored)

  Broadcast-cons : Broadcast out (p ∷ ps) heap heap'
  Broadcast-cons = record {
    reached = Reached-cons;
    untouched = λ q elsewhere.
        b.untouched q (λ i. elsewhere (suc i))
        ∙ store_ne heap p q _ (λ same. elsewhere zero (ap some same));
  }

module _ (last_error : Session → ℕ) (documented : (s : Session) → last_error s < 2 ^ 31)
    (packet rest : List ℕ) (h : Header) (reads : read_header packet ≡ some (h, rest))
    (fits : h.size ≤ buf_size) (inside : h.size ≤ length packet) where
  send_each_step :
      (p : ℕ) (ps : List ℕ) (heap : Heap) (s : Session) (o : Outcome)
      → heap p ≡ some s
      → send_packet last_error (some packet) s ≡ ok o
      → o.closes ≡ false
      → send_each last_error packet (p ∷ ps) heap
        ≡ send_each last_error packet ps (store heap p (some o.session))
  unfolding send_each
  send_each_step p ps heap s o alive sends open_still = rw (alive, sends, open_still) refl

  Audience-tail :
      (p : ℕ) (ps : List ℕ) (heap : Heap) (s : Session)
      → Audience heap (p ∷ ps)
      → Audience (store heap p (some s)) ps
  Audience-tail p ps heap s a = record {
    alive = λ i q e.
        let before = a.alive (suc i) q e in
        record {
          session = before.session;
          stored =
              store_ne heap p q _
                (λ same. absurd (omega (arith, a.once zero (suc i) p refl (rw same e))))
              ∙ before.stored;
          idle = before.idle;
        };
    once = λ i j q e e'. omega (arith, a.once (suc i) (suc j) q e e');
  }

  send_each-Broadcast :
      (ps : List ℕ) (heap : Heap)
      → Audience heap ps
      → (heap' : Heap) × (send_each last_error packet ps heap ≡ ok heap')
        × Broadcast (take h.size packet) ps heap heap'
  send_each-Broadcast [] heap a = (
    heap,
    unfold send_each in refl,
    record { reached = λ i p s e. absurd (cc); untouched = λ q away. refl },
  )
  send_each-Broadcast (p ∷ ps) heap a =
      let head = a.alive zero p refl in
      let (o, sends, sent) =
        send_packet-Sent last_error packet rest h head.session head.idle reads fits inside in
      let now : Heap = store heap p (some o.session) in
      let (heap', others, b) = send_each-Broadcast ps now (Audience-tail p ps heap o.session a) in
      (
        heap',
        send_each_step p ps heap head.session o head.stored sends
              (send_packet_never_closes last_error packet head.session o documented sends)
            ∙ others,
        Broadcast-cons (take h.size packet) p ps heap heap' head.session o.session head.stored sent
            (λ i e. absurd (omega (arith, a.once zero (suc i) p refl e))) b,
      )

  -- `AllMessage` of a packet whose size is at most that of its memory and of the buffer, to a
  -- managed vector of idle sessions, when `WSAGetLastError` gives no negative code: it returns,
  -- each session of the vector is sent the packet's first `Size` bytes, each other session, the
  -- vector and the counter are as they were.
  pub all_message-Broadcast :
      (m : Manager)
      → IsManaged m
      → ((i p : ℕ) (s : Session) → get_elem? m.sessions i ≡ some p → m.heap p ≡ some s → IsIdle s)
      → (m' : Manager) × (all_message last_error packet m ≡ ok m')
        × (m'.sessions ≡ m.sessions)
        × (m'.session_count ≡ m.session_count)
        × Broadcast (take h.size packet) m.sessions m.heap m'.heap
  all_message-Broadcast m v idle =
      let (heap', sends, b) = send_each-Broadcast m.sessions m.heap (managed-Audience m v idle) in
      (record m { heap = heap' }, unfold all_message in rw sends refl, refl, refl, b)
