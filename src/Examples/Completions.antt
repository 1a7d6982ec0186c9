-- ===== src/Examples/Completions.antt =====
-- Runs of the completions of YServerCore/Thread.cpp.
use yserver_core.Common.{
  ℕ, ◌≡◌, ◌⊎◌, inl, inr, refl, ap, ◌∙◌, List, [], ◌∷◌, some, ok, arith, drop, Bool-cases,
  eq_of_some, ==→eq, ◌==◌,
}
use yserver_core.Packet.Layout.{user_info_image, header_image, word_bytes}
use yserver_core.Handlers.{Request, login}
use yserver_core.Handlers.Wire.{request_image, requests_image}
use yserver_core.Session.{Session}
use yserver_core.Session.Receive.{complete_recvs, images-Arrives, complete_recvs-Arrives}
use yserver_core.SessionManager.{Manager}
use yserver_core.Completions.{Event, received, disconnected, sent, Started, serve}
use yserver_core.Completions.Rounds.{IsArmed, chunks_of}
use yserver_core.Completions.Receives.{Serves, Isolated}
use yserver_core.Completions.Isolation.{serve-Isolated}
use yserver_core.Examples.Data.{login_user, login-IsRequest, fresh, fresh-Waits, two}
use yserver_core.Examples.Sessions.{login_length}

abbrev events : List Event
events =
    received 10 3 (drop 1 (requests_image (login login_user ∷ [])))
    ∷ disconnected 10
    ∷ sent 11 80
    ∷ []

login_bytes :
    3 ∷ drop 1 (requests_image (login login_user ∷ [])) ≡ requests_image (login login_user ∷ [])
unfolding requests_image request_image user_info_image header_image word_bytes
login_bytes = refl

fresh-IsArmed : (number : ℕ) → IsArmed (fresh number)
unfolding fresh
fresh-IsArmed number = record { reads = refl; writes = refl }

fresh_or : (p : ℕ) (s : Session) → two.heap p ≡ some s → (fresh 0 ≡ s) ⊎ (fresh 1 ≡ s)
fresh_or p s e = ground arith

two-IsArmed : (p : ℕ) (s : Session) → two.heap p ≡ some s → IsArmed s
two-IsArmed p s e = elim (fresh_or p s e) [
  | inl first ↦ rw (← first) (fresh-IsArmed 0)
  | inr second ↦ rw (← second) (fresh-IsArmed 1)
]

ten_returns :
    (r : Session × List Request) × (complete_recvs 5000 (chunks_of 10 events) (fresh 0) ≡ ok r)
ten_returns =
    let (s', runs, _) = complete_recvs-Arrives 5000 (fresh 0) (omega arith) (fresh-Waits 0) (
      images-Arrives ((login login_user ∷ []) ∷ [])
        ((omega (arith, login_length), omega (arith, login_length), (login-IsRequest, tt)), tt)) in
    (_, ap (λ k. complete_recvs 5000 (k ∷ []) (fresh 0)) login_bytes ∙ runs)

returns_nothing : (s : Session) → (r : Session × List Request) × (complete_recvs 5000 [] s ≡ ok r)
unfolding complete_recvs
returns_nothing s = (_, refl)

events-Serves : Serves 5000 events two
events-Serves = record {
  armed = two-IsArmed;
  returns = λ p s e. elim (Bool-cases (10 == p)) [
    | inl same ↦
        let is_p : 10 ≡ p = ==→eq 10 p same in
        let is_s : fresh 0 ≡ s = eq_of_some (ap two.heap is_p ∙ e) in
        rw (← is_p, ← is_s) ten_returns
    | inr apart ↦ rw apart (returns_nothing s)
  ];
  alive = ((fresh 0, refl), ((fresh 0, refl), ((fresh 1, refl), tt)));
}

serve-Isolated_example :
    (m' : Manager) × (started : Started) × (serve 5000 events two ≡ ok (m', started))
    × Isolated 5000 events two m' started
serve-Isolated_example = serve-Isolated 5000 events two events-Serves
