-- ===== src/System/Moves.antt =====
-- What a completion and an announcement leave of the sessions.
use yserver_core.Common.{
  ℕ, ◌^◌, ◌<◌, ◌≡◌, refl, List, [], ◌∷◌, some, false, Result, ok, >>=-eq-ok, ◌==◌, subst, All,
  Bool-cases, inl, inr,
}
use yserver_core.Packet.Words.{chat_message_image-HasWord}
use yserver_core.Packet.Layout.{chat_message_image}
use yserver_core.Packet.{s_chat}
use yserver_core.CString.{codes}
use yserver_core.Framing.{IoData, IoUsage, deliver, absorb}
use yserver_core.Handlers.{Request, server_table}
use yserver_core.Session.{Session, Received, on_recv, on_send, after_recv, ready_to_recieve}
use yserver_core.Session.Send.{IsIdle}
use yserver_core.SessionManager.{Manager, store}
use yserver_core.SessionManager.Numbering.{store_self}
use yserver_core.SessionManager.Heard.{Quiet}
use yserver_core.SessionManager.Kept.{
  Ends, Stays, Kept, Kept-trans, Kept-refl, Kept-stored, all_message-Ends,
}
use yserver_core.Completions.{
  Completion, Event, received, disconnected, sent, failed, Started, tagged, by_usage,
  network_process, serve_one, completion_of, pointer_of, usage_of,
}
use yserver_core.Client.{console_message}
use yserver_core.Programs.{Local, announce}

pub Ends-returns {ℓ} :
    {A : Type ℓ} (P : A → Type 0) (r : Result A) (a : A) → Ends P r → r ≡ ok a → P a
Ends-returns P r a h e = subst (Ends P) e h

-- What a completion gives: sessions that stay, and requests of its own session.
abbrev pub Serves : ℕ → Manager → Manager × Started → Type 0
Serves p m (m', started) = Kept m m' × All (λ (x : ℕ × Request). x.0 ≡ p) started

tagged-All : (p : ℕ) (rs : List Request) → All (λ (x : ℕ × Request). x.0 ≡ p) (tagged p rs)
tagged-All p [] = tt
tagged-All p (r ∷ rs) = (refl, tagged-All p rs)

after_recv-Stays :
    (s : Session) (io : IoData × List Request) → IsIdle s → Stays s (after_recv s io).session
unfolding ready_to_recieve
after_recv-Stays s io idle = record {
  session_id = refl;
  idle = record { counted = idle.counted; sized = idle.sized };
}

on_recv-Stays :
    (fuel n : ℕ) (s : Session) (r : Received)
    → (n == 0) ≡ false
    → on_recv fuel n s ≡ ok r
    → IsIdle s
    → Stays s r.session
unfolding on_recv
on_recv-Stays fuel n s r some_bytes e idle =
    let (io, _, result) = >>=-eq-ok (absorb server_table fuel n s.read) _ (rw some_bytes at e) in
    subst (λ (k : Result Received). Ends (λ x. Stays s x.session) k) result
      (after_recv-Stays s io idle)

by_usage-Serves :
    (fuel : ℕ) (c : Completion) (usage : IoUsage) (s : Session) (m : Manager)
    (k : Manager × Started)
    → m.heap c.key ≡ some s
    → (c.transfer_size == 0) ≡ false
    → by_usage fuel c usage s m ≡ ok k
    → Serves c.key m k
unfolding by_usage on_send
by_usage-Serves fuel c IoUsage.read s m k alive some_bytes e =
    let (r, receives, result) = >>=-eq-ok (on_recv fuel c.transfer_size s) _ e in
    Ends-returns (Serves c.key m) _ k
      (
        Kept-stored m c.key s r.session alive
            (on_recv-Stays fuel c.transfer_size s r some_bytes receives),
        tagged-All c.key r.requests,
      )
      result
by_usage-Serves fuel c IoUsage.write s m k alive some_bytes e =
    Ends-returns (Serves c.key m) (ok (m, [])) k (Kept-refl m, tt) (rw some_bytes at e)
by_usage-Serves fuel c IoUsage.error s m k alive some_bytes e =
    Ends-returns (Serves c.key m) (ok (m, [])) k (Kept-refl m, tt) e

network_process-Serves :
    (fuel : ℕ) (c : Completion) (s : Session) (m : Manager) (k : Manager × Started)
    → m.heap c.key ≡ some s
    → network_process fuel c m ≡ ok k
    → Serves c.key m k
unfolding network_process by_usage
network_process-Serves fuel c s m k alive e = elim (Bool-cases (c.transfer_size == 0)) [
  | inl nothing_there ↦
      Ends-returns (Serves c.key m) (ok (m, [])) k (Kept-refl m, tt) (rw nothing_there at e)
  | inr some_bytes ↦ elim (Bool-cases c.result) [
    | inl succeeds ↦
        by_usage-Serves fuel c (usage_of c.slot s) s m k alive some_bytes
          (rw (some_bytes, succeeds, alive) at e)
    | inr fails ↦
        Ends-returns (Serves c.key m) (ok (m, [])) k (Kept-refl m, tt) (rw (some_bytes, fails) at e)
  ]
]

Serves-after :
    (p : ℕ) {m m1 : Manager} (k : Manager × Started) → Kept m m1 → Serves p m1 k → Serves p m k
Serves-after p (m', started) before (kept, mine) = (Kept-trans before kept, mine)

pub serve_one-Serves :
    (fuel : ℕ) (e : Event) (s : Session) (m : Manager) (k : Manager × Started)
    → m.heap (pointer_of e) ≡ some s
    → serve_one fuel e m ≡ ok k
    → Serves (pointer_of e) m k
unfolding serve_one
serve_one-Serves fuel (received p b bs) s m k alive e =
    let s' : Session = record s { read = deliver (b ∷ bs) s.read } in
    let m' : Manager = record m { heap = store m.heap p (some s') } in
    Serves-after p k
      (Kept-stored m p s s' alive (λ idle. record {
        session_id = refl;
        idle = record { counted = idle.counted; sized = idle.sized };
      }))
      (network_process-Serves fuel (completion_of (received p b bs)) s' m' k
        (store_self m.heap p (some s')) (rw alive at e))
serve_one-Serves fuel (disconnected p) s m k alive e =
    network_process-Serves fuel (completion_of (disconnected p)) s m k alive e
serve_one-Serves fuel (sent p n) s m k alive e =
    network_process-Serves fuel (completion_of (sent p n)) s m k alive e
serve_one-Serves fuel (failed p slot) s m k alive e =
    network_process-Serves fuel (completion_of (failed p slot)) s m k alive e

pub announce-Kept :
    (last_error : Session → ℕ) (l : Local) (text : List ℕ) (m m' : Manager)
    → ((s : Session) → last_error s < 2 ^ 31)
    → Quiet m
    → announce last_error l text m ≡ ok m'
    → Kept m m'
unfolding announce
announce-Kept last_error l text m m' documented q e =
    let (message, _, sends) =
      >>=-eq-ok (console_message l.padding l.id l.message s_chat (codes "Server") text) _ e in
    Ends-returns (Kept m) _ m'
      (all_message-Ends last_error documented (chat_message_image message)
        (chat_message_image-HasWord message) m q)
      sends
