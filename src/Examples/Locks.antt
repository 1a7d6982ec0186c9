-- ===== src/Examples/Locks.antt =====
-- Runs of the lock of YServerCore/Lock.cpp.
use yserver_core.Common.{ℕ, ◌*◌, ◌-◌, ◌^◌, ◌≡◌, refl, ok, err, Error, arith, replicate}
use yserver_core.Lock.{
  Lock, free, alone, spin, write_attempt, writer, try_write_lock, try_write_unlock, try_read_lock,
  try_read_unlock, write_lock_guard,
}
use yserver_core.Lock.Writers.{System, Reach, start, next, locks, set_depth, writers_exclusive}
use yserver_core.Lock.Guards.{IsShared, write_lock_guard_shares}
use yserver_core.Lock.Readers.{read_then_write_stuck, try_read_lock_carries}

-- Thread 3 holds the lock.
abbrev held : Lock
held = record { lock_flag = 3 * 2 ^ 16; lock_count = 1 }

locks_free : try_write_lock 3 alone free ≡ ok held
unfolding try_write_lock spin write_attempt
locks_free = refl

abbrev taken : System
taken = record { lock = held; depth = set_depth (λ _. 0) 3 1 }

taken-Reach : Reach taken
taken-Reach = next start (locks 3 held (omega arith) (omega arith) (omega arith) locks_free)

writers_exclusive_example : ◌≡◌ {A = ℕ} 3 3
writers_exclusive_example = writers_exclusive 3 3 taken-Reach (omega arith) (omega arith)

free-IsShared : IsShared 0 free
free-IsShared = record { flag = refl; few = omega arith }

write_lock_guard_shares_example :
    (l' l'' : Lock) × (write_lock_guard 1 alone free ≡ ok l')
    × (write_lock_guard 2 alone l' ≡ ok l'')
    × IsShared 2 l''
write_lock_guard_shares_example =
    write_lock_guard_shares 1 2 0 free (omega arith) (omega arith) (omega arith) free-IsShared

read_then_write_stuck_example :
    (read wrote : Lock) × (try_read_lock 1 alone free ≡ ok read)
    × (try_write_lock 2 alone (try_read_unlock read) ≡ ok wrote)
    × (writer (try_write_unlock wrote).lock_flag ≡ 2)
    × (try_write_lock 3 (replicate 5000 (λ l. l)) (try_write_unlock wrote) ≡ err Error.out_of_fuel)
read_then_write_stuck_example =
    read_then_write_stuck 1 2 3 5000 (omega arith) (omega arith) (omega arith) (omega arith)
      (omega arith)

abbrev crowded : Lock
crowded = record { lock_flag = 2 ^ 16 - 1; lock_count = 2 ^ 16 - 1 }

try_read_lock_carries_example :
    (l' : Lock) × (try_read_lock 2 alone crowded ≡ ok l') × (writer l'.lock_flag ≡ 1)
try_read_lock_carries_example =
    try_read_lock_carries 2 crowded (omega arith) (record { flag = refl; few = omega arith })
