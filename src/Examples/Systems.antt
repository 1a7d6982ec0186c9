-- ===== src/Examples/Systems.antt =====
-- A server that a client joins while two logins are pending, of which the later one runs first.
use yserver_core.Common.{
  ◌≡◌, ◌≢◌, refl, subst, sym, List, ℕ, ◌++◌, [], ◌∷◌, ok, err, Error, none, some, true, inl, inr,
  get_elem?,
}
use yserver_core.CString.{codes}
use yserver_core.Handlers.{login}
use yserver_core.Database.Store.{opens}
use yserver_core.Requests.{World, run_request}
use yserver_core.Requests.Refines.{LogsIn, login-LogsIn}
use yserver_core.Server.{Server, accept}
use yserver_core.Server.Accepts.{accept_lem}
use yserver_core.System.{System, world_of, Reach, accepts, runs, start, next}
use yserver_core.System.Reached.{IsServing, Reach-IsServing, Reach-Grows, pending-alive}
use yserver_core.Examples.Data.{
  login_user, fresh, fresh-IsIdle, two-IsManaged, junk, junk-IsJunk, no_error, no_error-lt,
}
use yserver_core.Examples.Servers.{server, client}
use yserver_core.Examples.Tables.{table, table-IsTable, empty, two-Quiet, ann-Asks}

abbrev asked : System table
asked = record {
  server = server;
  conn = (empty, none);
  log = [];
  pending = (10, login login_user) ∷ (11, login login_user) ∷ [];
}

asked-IsServing : IsServing asked
asked-IsServing = record {
  quiet = two-Quiet;
  pending = (
    record { session = fresh 0; stored = refl; idle = fresh-IsIdle 0 },
    (record { session = fresh 1; stored = refl; idle = fresh-IsIdle 1 }, tt),
  );
}

accepted :
    (s : Server) × (accept client server ≡ ok (s, true)) × (s.manager.sessions ≡ 10 ∷ 11 ∷ 13 ∷ [])
accepted =
    let (s, branches) = accept_lem client server two-IsManaged refl in
    elim branches [
      | inl (_, returns, joins) ↦ (s, returns, joins.sessions)
      | inr (refused, _, _) ↦ absurd (cc)
    ]

abbrev joined : System table
joined = record asked { server = accepted.0 }

joined-Reach : Reach no_error table 5000 asked joined
joined-Reach = next start (accepts client accepted.0 true refl accepted.1)

later :
    LogsIn no_error no_error-lt table table-IsTable junk junk-IsJunk
      (world_of table joined)
      11
      login_user
      (opens (table-IsTable.table joined.conn (codes "ann")) (codes "pw"))
later =
    login-LogsIn no_error no_error-lt table table-IsTable junk junk-IsJunk 11 login_user
      (codes "ann") (codes "pw") (world_of table joined)
      (Reach-IsServing no_error no_error-lt table 5000 asked-IsServing joined-Reach).quiet
      (ann-Asks joined.server.manager.sessions 11 1
        (subst (λ l. get_elem? l 1 ≡ some 11) (sym accepted.2) refl))

abbrev world : World table
world = later.served.world

abbrev answered : System table
answered = record {
  server = record joined.server { manager = world.manager };
  conn = world.conn;
  log = world.log;
  pending = (10, login login_user) ∷ [];
}

answered-Reach : Reach no_error table 5000 asked answered
answered-Reach = next joined-Reach (
    runs junk ((10, login login_user) ∷ []) [] 11 (login login_user) world refl
      later.served.returns)

Reach-IsServing_example : IsServing answered
Reach-IsServing_example =
    Reach-IsServing no_error no_error-lt table 5000 asked-IsServing answered-Reach

pending-alive_example :
    run_request no_error table junk 10 (login login_user) (world_of table answered)
    ≢ err Error.use_after_free
pending-alive_example =
    pending-alive no_error no_error-lt table 5000 junk [] [] 10 (login login_user) asked-IsServing
      answered-Reach refl

Reach-Grows_example : (more : List ℕ) × (answered.server.manager.sessions ≡ (10 ∷ 11 ∷ []) ++ more)
Reach-Grows_example = Reach-Grows no_error no_error-lt table 5000 asked-IsServing answered-Reach
