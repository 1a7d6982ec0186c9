-- ===== src/Lock/Guards.antt =====
-- What the readers' operations of YServerCore/Lock.cpp, and the guards of YServerCore/Lock.h that
-- call them, do to the writers' lock.
use yserver_core.Common.{ℕ, ◌+◌, ◌^◌, ◌<◌, ◌≡◌, refl, List, ok, arith}
use yserver_core.Lock.{
  Lock, u16, alone, spin, read_attempt, try_write_lock, try_read_lock, write_lock_guard,
}

-- A lock that readers share: no writer, and `n` of them.
pub record IsShared (n : ℕ) (l : Lock) : Type 0 where
  pub flag : l.lock_flag ≡ n
  pub few : n < 2 ^ 16

-- An identified thread gets the lock as a reader at once while no thread writes.
pub try_read_lock-IsShared :
    (t n : ℕ) (l : Lock)
    → 0 < t
    → n + 1 < 2 ^ 16
    → IsShared n l
    → (l' : Lock) × (try_read_lock t alone l ≡ ok l') × IsShared (n + 1) l'
unfolding try_read_lock spin read_attempt
try_read_lock-IsShared t n l pos room sh = (
  record { lock_flag = n + 1; lock_count = u16 (l.lock_count + 1) },
  ground (arith, sh.flag, sh.few),
  record { flag = refl; few = room },
)

-- On a lock with fewer than 2 ^ 16 - 2 readers and no writer, two identified threads get a
-- `WriteLockGuard` each, one after the other, and are two readers more.
pub write_lock_guard_shares :
    (t u n : ℕ) (l : Lock)
    → 0 < t
    → 0 < u
    → n + 2 < 2 ^ 16
    → IsShared n l
    → (l' l'' : Lock) × (write_lock_guard t alone l ≡ ok l')
      × (write_lock_guard u alone l' ≡ ok l'')
      × IsShared (n + 2) l''
unfolding write_lock_guard
write_lock_guard_shares t u n l pos pos' room sh =
    let (l1, first, sh1) = try_read_lock-IsShared t n l pos (omega arith) sh in
    let (l2, second, sh2) = try_read_lock-IsShared u (n + 1) l1 pos' (omega arith) sh1 in
    (l1, l2, first, second, record { flag = omega (arith, sh2.flag); few = room })

-- On a lock with readers and no writer, `TryWriteLock` of a thread whose `LThreadId` is 0 returns
-- at once, and the readers stay.
pub try_write_lock_unidentified :
    (n : ℕ) (rounds : List (Lock → Lock)) (l : Lock)
    → IsShared n l
    → (l' : Lock) × (try_write_lock 0 rounds l ≡ ok l') × IsShared n l'
unfolding try_write_lock
try_write_lock_unidentified n rounds l sh = (
  record l { lock_count = u16 (l.lock_count + 1) },
  ground (arith, sh.flag, sh.few),
  record { flag = sh.flag; few = sh.few },
)
