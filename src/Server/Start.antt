-- ===== src/Server/Start.antt =====
-- `Server::Run` and `Server::CreateListenSocket` of YServerCore/Server.cpp.
use yserver_core.Common.{
  ℕ, ◌≡◌, ◌⊎◌, inl, inr, refl, Bool, Option, none, started, some, true, false, arith,
}
use yserver_core.Server.{Calls, Server, create_listen_socket, run}

-- Every call of the start succeeds.
pub record Up (c : Calls) : Type 0 where
  pub port : ℕ
  pub socket : ℕ
  pub has_port : c.port ≡ some port
  pub started : c.started ≡ true
  pub has_socket : c.socket ≡ some socket
  pub bound : c.bound ≡ true
  pub listens : c.listens ≡ true

-- A server that accepts on the port and the socket of its calls.
pub record IsRunning (c : Calls) (s : Server) : Type 0 where
  pub accepting : s.accept_thread ≡ started
  pub iocp : s.iocp ≡ c.port
  pub listen_socket : s.listen_socket ≡ c.socket

-- The result on every branch.
abbrev pub Outcomes : Calls → Server → Type 0
Outcomes c s =
    (Up c × ((run c s).1 ≡ true) × IsRunning c (run c s).0)
    ⊎ ((¬ Up c) × ((run c s).1 ≡ false) × ((run c s).0.accept_thread ≡ s.accept_thread))

run_branches :
    (port : Option ℕ) (started : Bool) (socket : Option ℕ) (bound listens : Bool) (s : Server)
    → Outcomes
        (record {
          port = port;
          started = started;
          socket = socket;
          bound = bound;
          listens = listens;
        })
        s
unfolding run create_listen_socket
run_branches none t k b l s = inr (λ up. ground (arith, up.has_port), refl, refl)
run_branches (some p) false k b l s = inr (λ up. ground (arith, up.started), refl, refl)
run_branches (some p) true none b l s = inr (λ up. ground (arith, up.has_socket), refl, refl)
run_branches (some p) true (some k) false l s = inr (λ up. ground (arith, up.bound), refl, refl)
run_branches (some p) true (some k) true false s =
    inr (λ up. ground (arith, up.listens), refl, refl)
run_branches (some p) true (some k) true true s = inl (
  record {
    port = p;
    socket = k;
    has_port = refl;
    started = refl;
    has_socket = refl;
    bound = refl;
    listens = refl;
  },
  refl,
  record { accepting = refl; iocp = refl; listen_socket = refl },
)

-- `Server::Run` on every branch: either every call of the start succeeds, it returns true and the
-- server accepts on its port and its socket; or some call fails, it returns false and starts no
-- accepting.
pub run_lem : (c : Calls) (s : Server) → Outcomes c s
run_lem c s = run_branches c.port c.started c.socket c.bound c.listens s
