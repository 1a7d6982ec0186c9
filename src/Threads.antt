-- ===== src/Threads.antt =====
-- The class of YServerCore/Thread.h and YServerCore/Thread.cpp without its network loop: the
-- identities of threads and the queues of work. A queued function is a number.
pub mod Identities
pub mod Queues
use yserver_core.Common.{
  StdThread, not_started, join, Result, ok, err, ◌>>=◌, ◌>>◌, ℕ, zero, suc, ◌+◌, ◌*◌, ◌%◌, ◌^◌,
  List, [], ◌∷◌, ◌++◌, Bool, true, false, if◌then◌else◌,
}
use yserver_core.CString.{codes}

-- What is queued for `Work`.
pub record Data : Type 0 where
  pub num : ℕ

unfoldable pub new_data : ℕ → Data
new_data num = record { num = num }

-- The thread_local `LThreadId` before `InitLocalThread`.
abbrev pub new_l_thread_id : ℕ
new_l_thread_id = 0

-- The queue `data_q` keeps the numbers of its data. `pool` is the map `ThreadPool`, whose operator [] makes a thread with no function for a new key;
-- `printed` has the numbers that `Work` writes to the console.
pub record Thread : Type 0 where
  pub max_thread_count : ℕ
  pub pool : ℕ → StdThread
  pub has_server : Bool
  pub running : Bool
  pub job_q : List ℕ
  pub job_q2 : List ℕ
  pub data_q : List ℕ
  pub printed : List ℕ
  pub log : List (List ℕ)

unfoldable pub new_thread : ℕ → Thread
new_thread concurrency = record {
  max_thread_count = concurrency * 2 + 1;
  pool = λ _. not_started;
  has_server = false;
  running = false;
  job_q = [];
  job_q2 = [];
  data_q = [];
  printed = [];
  log = [];
}

unfoldable pub set_server : Bool → Thread → Thread
set_server server t = record t { has_server = server }

-- The loop that starts the workers is commented out.
unfoldable pub initialize : Thread → Thread × Bool
initialize t =
    if t.has_server
    then (record t { running = true }, true)
    else (record t { log = t.log ++ codes "Need Set Server" ∷ [] }, false)

unfoldable pub close_thread : Thread → Thread
close_thread t = record t { running = false }

-- `SThreadId.fetch_add(1)` on a 32-bit counter, and what a 16-bit `LThreadId` keeps of it.
unfoldable pub init_local_thread : ℕ → ℕ × ℕ
init_local_thread s_thread_id = (s_thread_id % 2 ^ 16, (s_thread_id + 1) % 2 ^ 32)

-- Nothing takes from the first two queues.
unfoldable pub add_work : ℕ → Thread → Thread
add_work func t = record t { job_q = t.job_q ++ func ∷ [] }

unfoldable pub add_work2 : ℕ → Thread → Thread
add_work2 func t = record t { job_q2 = t.job_q2 ++ func ∷ [] }

unfoldable pub add_data : Data → Thread → Thread
add_data d t = record t { data_q = t.data_q ++ d.num ∷ [] }

-- The body of the loop of `Work` behind its wait, which goes on only if the queue is not empty.
unfoldable pub work : Thread → Thread
work t = take_data t.data_q
  where
    take_data : List ℕ → Thread
    take_data [] = t
    take_data (num ∷ rest) = record t { data_q = rest; printed = t.printed ++ num ∷ [] }

-- The loop of the destructor, over the keys from `i` on.
unfoldable pub join_from : ℕ → ℕ → (ℕ → StdThread) → Result (Unit {0})
join_from zero i pool = ok tt
join_from (suc n) i pool = join (pool i) >> join_from n (i + 1) pool

unfoldable pub destroy_thread : Thread → Result Thread
destroy_thread t = join_from t.max_thread_count 0 t.pool >>= λ _. ok (record t { running = false })
