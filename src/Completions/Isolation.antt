-- ===== src/Completions/Isolation.antt =====
-- Completions of several sessions in whatever order, as `Thread::NetworkProcess` of
-- YServerCore/Thread.cpp takes them.
use yserver_core.Common.{ℕ, ◌≡◌, refl, ap, sym, ◌∙◌, List, [], ◌∷◌, ◌++◌, ok, eq→==}
use yserver_core.Session.Receive.{complete_recvs}
use yserver_core.SessionManager.{Manager}
use yserver_core.Completions.{Event, received, disconnected, sent, failed, Started, tagged, serve}
use yserver_core.Completions.Rounds.{
  chunks_of, complete_recvs_parts, serve_one_received, serve_one_disconnected, serve_one_failed,
  serve_one_sent,
}
use yserver_core.Completions.Receives.{
  Serves, Isolated, serve_step, after, Serves-rest, Isolated-received,
}

Serves-skip :
    (fuel : ℕ) (e : Event) (es : List Event) (m : Manager)
    → ((p : ℕ) → chunks_of p (e ∷ es) ≡ chunks_of p es)
    → Serves fuel (e ∷ es) m
    → Serves fuel es m
Serves-skip fuel e es m same v = record {
  armed = v.armed;
  returns = λ p s at.
      let (r, runs) = v.returns p s at in
      (r, ap (λ k. complete_recvs fuel k s) (sym (same p)) ∙ runs);
  alive = v.alive.1;
}

Isolated-skip :
    (fuel : ℕ) (e : Event) (es : List Event) (m m' : Manager) (later : Started)
    → ((p : ℕ) → chunks_of p (e ∷ es) ≡ chunks_of p es)
    → Isolated fuel es m m' later
    → Isolated fuel (e ∷ es) m m' later
Isolated-skip fuel e es m m' later same v = record {
  vector = v.vector;
  count = v.count;
  own = λ p s at.
      let (s', runs, stored) = v.own p s at in
      (s', ap (λ k. complete_recvs fuel k s) (same p) ∙ runs, stored);
}

-- For a list of events at the sessions in any order (receives of some bytes, disconnections, sends
-- that are complete, calls that failed): if the buffers of all sessions have their usages, the
-- session of every event exists, and every session returns from its own receives one after the
-- other, then the worker returns from all the completions. Every session is as after its own
-- receives alone and started their requests, in order. The vector and the counter are as they were,
-- so that not even a disconnection closes a session.
pub serve-Isolated :
    (fuel : ℕ) (es : List Event) (m : Manager)
    → Serves fuel es m
    → (m' : Manager) × (started : Started) × (serve fuel es m ≡ ok (m', started))
      × Isolated fuel es m m' started
serve-Isolated fuel [] m v = (
  m,
  [],
  unfold serve in refl,
  record { vector = refl; count = refl; own = λ p s e. (s, unfold complete_recvs in refl, e) },
)
serve-Isolated fuel (received q b bs ∷ es) m v =
    let (s, here) = v.alive.0 in
    let (r, runs) = v.returns q s here in
    let (now, first, rest) =
      complete_recvs_parts fuel (b ∷ bs) (chunks_of q es) s
        (ap (λ k. complete_recvs fuel k s) (sym (rw (eq→== q q refl) refl)) ∙ runs) in
    let m1 = after fuel q b bs es m s now here first in
    let (m', later, serves, isolated) =
      serve-Isolated fuel es m1 (Serves-rest fuel q b bs es m s now here first v rest) in
    (
      m',
      tagged q now.requests ++ later,
      serve_step fuel (received q b bs) es m m1 m' (tagged q now.requests) later
          (serve_one_received fuel q b bs m s (v.armed q s here) here first) serves,
      Isolated-received fuel q b bs es m s now here first m' later isolated,
    )
serve-Isolated fuel (disconnected q ∷ es) m v =
    let (m', later, serves, isolated) =
      serve-Isolated fuel es m (Serves-skip fuel (disconnected q) es m (λ p. refl) v) in
    (
      m',
      later,
      serve_step fuel (disconnected q) es m m m' [] later (serve_one_disconnected fuel q m) serves,
      Isolated-skip fuel (disconnected q) es m m' later (λ p. refl) isolated,
    )
serve-Isolated fuel (sent q n ∷ es) m v =
    let (s, here) = v.alive.0 in
    let (m', later, serves, isolated) =
      serve-Isolated fuel es m (Serves-skip fuel (sent q n) es m (λ p. refl) v) in
    (
      m',
      later,
      serve_step fuel (sent q n) es m m m' [] later
          (serve_one_sent fuel q n m s (v.armed q s here) here) serves,
      Isolated-skip fuel (sent q n) es m m' later (λ p. refl) isolated,
    )
serve-Isolated fuel (failed q slot ∷ es) m v =
    let (m', later, serves, isolated) =
      serve-Isolated fuel es m (Serves-skip fuel (failed q slot) es m (λ p. refl) v) in
    (
      m',
      later,
      serve_step fuel (failed q slot) es m m m' [] later (serve_one_failed fuel q slot m) serves,
      Isolated-skip fuel (failed q slot) es m m' later (λ p. refl) isolated,
    )
