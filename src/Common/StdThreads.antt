-- ===== src/Common/StdThreads.antt =====
-- A std::thread as a member of a class, and what its `join` does in the class's destructor.
use yserver_core.Common.Outcome.{Error, Result, ok, err}

-- Default constructed, with no function to run; or made with a function, which runs or has returned.
pub data StdThread : Type 0 where
  not_started started ended : StdThread

-- A thread whose function is a loop over a flag that was cleared, which is taken to return.
abbrev pub stopped : StdThread → StdThread
stopped not_started = not_started
stopped started = ended
stopped ended = ended

-- `join` throws std::system_error if there is nothing to wait for, and a destructor lets no exception
-- out. Of a thread whose function has returned it returns; else it waits.
abbrev pub join : StdThread → Result (Unit {0})
join not_started = err Error.terminated
join started = err Error.out_of_fuel
join ended = ok tt
