-- ===== src/Programs/Ends.antt =====
-- How objects of the programs end: the destructors of YServerCore/Server.cpp, YServerCore/Thread.cpp,
-- YServerCore/SessionManager.h and Client/Client/Client.cpp, which join threads that never started.
use yserver_core.Common.{
  ℕ, zero, suc, ◌<◌, ◌≡◌, refl, List, false, true, err, Error, not_started, arith, StdThread, Bool,
  inl, inr, ◌⊎◌, ◌∙◌,
}
use yserver_core.Threads.{Thread, join_from, destroy_thread, initialize, set_server, new_thread}
use yserver_core.Server.{Server, Calls, run, destroy_server}
use yserver_core.Server.Start.{Up, IsRunning, run_lem}
use yserver_core.Session.{Session}
use yserver_core.Programs.{Local, Sender, go_on, server_main}

-- No worker was started.
pub record IsUnstarted (t : Thread) : Type 0 where
  pub counted : 0 < t.max_thread_count
  pub pool : t.pool 0 ≡ not_started

join_from_unstarted :
    (n i : ℕ) (pool : ℕ → StdThread)
    → 0 < n
    → pool i ≡ not_started
    → join_from n i pool ≡ err Error.terminated
unfolding join_from
join_from_unstarted zero i pool some_threads e = absurd (omega arith)
join_from_unstarted (suc n) i pool some_threads e = rw e refl

destroy_thread_unstarted : (t : Thread) → IsUnstarted t → destroy_thread t ≡ err Error.terminated
unfolding destroy_thread
destroy_thread_unstarted t v =
    rw (join_from_unstarted t.max_thread_count 0 t.pool v.counted v.pool) refl

destroy_server_terminates :
    (t : Thread) (s : Server)
    → s.accept_thread ≡ not_started
    → destroy_server t s ≡ err Error.terminated
unfolding destroy_server
destroy_server_terminates t s never = rw never refl

-- The thread object of a server that runs: its loop that starts the workers is commented out.
abbrev pub initialized : ℕ → Thread
initialized concurrency = (initialize (set_server true (new_thread concurrency))).0

initialized-IsUnstarted : (concurrency : ℕ) → IsUnstarted (initialized concurrency)
unfolding initialize set_server new_thread
initialized-IsUnstarted concurrency = record { counted = omega arith; pool = refl }

module _ (last_error : Session → ℕ) where
  -- The server's program on a server whose accepting thread was not started, when some call of its
  -- start fails: whatever the schedule and the rounds, it ends in `std::terminate`, for its
  -- destructors join threads that never started; that of the thread object, which `Initialize`
  -- leaves without workers, ends so by itself.
  pub server_main_down :
      (c : Calls) (concurrency : ℕ) (s : Server) (schedule : List ℕ) (senders : List Sender)
      (ls : List Local) (input : List ℕ)
      → s.accept_thread ≡ not_started
      → ¬ Up c
      → (server_main last_error c (initialized concurrency) s schedule senders ls input
          ≡ err Error.terminated)
        × (destroy_thread (initialized concurrency) ≡ err Error.terminated)
  unfolding server_main
  server_main_down c concurrency s schedule senders ls input fresh down = (
    down_ends (run c s).0 (run c s).1 (run_lem c s),
    destroy_thread_unstarted (initialized concurrency) (initialized-IsUnstarted concurrency),
  )
    where
      down_ends :
          (s' : Server) (up : Bool)
          → (Up c × (up ≡ true) × IsRunning c s')
            ⊎ ((¬ Up c) × (up ≡ false) × (s'.accept_thread ≡ s.accept_thread))
          → go_on last_error (initialized concurrency) schedule senders ls input (s', up)
            ≡ err Error.terminated
      down_ends s' up (inl (is_up, _, _)) = absurd (down is_up)
      down_ends s' false (inr (_, _, same)) =
          unfold go_on in destroy_server_terminates (initialized concurrency) s' (same ∙ fresh)
      down_ends s' true (inr (_, never, _)) = absurd (cc)
