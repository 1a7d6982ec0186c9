-- ===== src/Lock/Readers.antt =====
-- `TryReadLock` and `TryReadUnLock` of YServerCore/Lock.cpp, and what readers leave to writers.
use yserver_core.Common.{
  ℕ, zero, suc, ◌+◌, ◌-◌, ◌*◌, ◌^◌, ◌<◌, ◌≡◌, ◌≢◌, refl, ok, err, Error, arith, replicate,
}
use yserver_core.Lock.{
  Lock, free, writer, u16, alone, spin, read_attempt, write_attempt, try_write_lock,
  try_write_unlock, try_read_lock, try_read_unlock,
}
use yserver_core.Lock.Guards.{IsShared}

-- On a lock with fewer than 2 ^ 16 - 1 readers and no writer, `TryReadLock` and then
-- `TryReadUnLock` of an identified thread leave the word as it was, and `LockCount` one higher.
pub try_read_unlock-try_read_lock :
    (t n : ℕ) (l : Lock)
    → 0 < t
    → n + 1 < 2 ^ 16
    → IsShared n l
    → (l' : Lock) × (try_read_lock t alone l ≡ ok l')
      × ((try_read_unlock l').lock_flag ≡ l.lock_flag)
      × ((try_read_unlock l').lock_count ≡ u16 (l.lock_count + 1))
unfolding try_read_lock try_read_unlock spin read_attempt
try_read_unlock-try_read_lock t n l pos room sh = (
  record { lock_flag = n + 1; lock_count = u16 (l.lock_count + 1) },
  ground (arith, sh.flag, sh.few),
  omega (arith, sh.flag),
  refl,
)

-- The lock that a writer gets, and the one that it leaves, with the count above 0 before.
abbrev written : ℕ → ℕ → Lock
written t c = record { lock_flag = t * 2 ^ 16; lock_count = c + 1 }

module _ (t c : ℕ) (pos : 0 < t) (lt : t < 2 ^ 16) (some_count : 0 < c)
    (room : c + 1 < 2 ^ 16) where
  write_gets : try_write_lock t alone (record { lock_flag = 0; lock_count = c }) ≡ ok (written t c)
  unfolding try_write_lock spin write_attempt
  write_gets = ground arith

  write_keeps : try_write_unlock (written t c) ≡ record { lock_flag = t * 2 ^ 16; lock_count = c }
  unfolding try_write_unlock
  write_keeps = ground arith

-- No number of rounds gets another thread a lock that a thread keeps.
kept_out :
    (n w : ℕ) (l : Lock)
    → 0 < l.lock_flag
    → spin (write_attempt w) (replicate n (λ l. l)) l ≡ err Error.out_of_fuel
unfolding spin write_attempt
kept_out zero w l taken = refl
kept_out (suc n) w l taken = ground (arith, kept_out n w l taken)

stays_out :
    (n t w : ℕ)
    → 0 < t
    → t ≢ w
    → try_write_lock w (replicate n (λ l. l)) (record { lock_flag = t * 2 ^ 16; lock_count = 1 })
      ≡ err Error.out_of_fuel
unfolding try_write_lock
stays_out n t w pos apart =
    ground (arith, kept_out n w (record { lock_flag = t * 2 ^ 16; lock_count = 1 }) (omega arith))

-- On a new lock, after `TryReadLock` and `TryReadUnLock` of one identified thread, `TryWriteLock`
-- and `TryWriteUnLock` of another: the word still names the writer, and a third thread that tries
-- to write gets the lock in no number of attempts.
pub read_then_write_stuck :
    (u t w n : ℕ)
    → 0 < u
    → 0 < t
    → t < 2 ^ 16
    → 0 < w
    → t ≢ w
    → (read wrote : Lock) × (try_read_lock u alone free ≡ ok read)
      × (try_write_lock t alone (try_read_unlock read) ≡ ok wrote)
      × (writer (try_write_unlock wrote).lock_flag ≡ t)
      × (try_write_lock w (replicate n (λ l. l)) (try_write_unlock wrote) ≡ err Error.out_of_fuel)
read_then_write_stuck u t w n pos_u pos_t lt pos_w apart =
    let (read, reads, flag, count) =
      try_read_unlock-try_read_lock u 0 free pos_u (omega arith)
        (record { flag = refl; few = omega arith }) in
    let left : try_read_unlock read ≡ record { lock_flag = 0; lock_count = 1 } =
      λ i. record { lock_flag = flag i; lock_count = count i } in
    let keeps = write_keeps t 1 pos_t lt (omega arith) (omega arith) in
    (
      read,
      written t 1,
      reads,
      rw left (write_gets t 1 pos_t lt (omega arith) (omega arith)),
      rw keeps (omega arith),
      rw keeps (stays_out n t w pos_t apart),
    )

-- On a lock with 2 ^ 16 - 1 readers and no writer, one more `TryReadLock` of an identified thread
-- makes the word name thread 1 as its writer.
pub try_read_lock_carries :
    (t : ℕ) (l : Lock)
    → 0 < t
    → IsShared (2 ^ 16 - 1) l
    → (l' : Lock) × (try_read_lock t alone l ≡ ok l') × (writer l'.lock_flag ≡ 1)
unfolding try_read_lock spin read_attempt
try_read_lock_carries t l pos sh = (
  record { lock_flag = 2 ^ 16; lock_count = u16 (l.lock_count + 1) },
  ground (arith, sh.flag),
  omega arith,
)
