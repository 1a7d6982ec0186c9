-- ===== src/Lock.antt =====
-- YServerCore/Lock.h and YServerCore/Lock.cpp: a spin lock in a 32-bit word. The upper half holds
-- the identity of the thread that writes, the lower half counts readers; `LockCount` counts how
-- often the writer has locked. A thread is its `LThreadId`, which is 0 until
-- `Thread::InitLocalThread` runs on it.
pub mod Writers
pub mod Guards
pub mod Readers
use yserver_core.Common.{
  ℕ, zero, suc, ◌+◌, ◌-◌, ◌*◌, ◌/◌, ◌%◌, ◌^◌, List, [], ◌∷◌, Option, none, some, Result, ok, err,
  Error, ◌>>=◌, ◌==◌, if◌then◌else◌,
}

pub record Lock : Type 0 where
  pub lock_flag : ℕ
  pub lock_count : ℕ

abbrev pub free : Lock
free = record { lock_flag = 0; lock_count = 0 }

pub data LockType : Type 0 where
  lock_global lock_session lock_db : LockType

-- The two constructors. No operation reads the type, which is left out of the lock.
unfoldable pub new_lock : LockType → Lock
new_lock type = free

-- `(LockFlag & WriteLockThreadMask) >> 16` and `LockFlag & ReadLockCountMask` of a 32-bit word.
abbrev pub writer : ℕ → ℕ
writer flag = flag / 2 ^ 16

abbrev pub readers : ℕ → ℕ
readers flag = flag % 2 ^ 16

abbrev pub u16 : ℕ → ℕ
u16 n = n % 2 ^ 16

abbrev pub u32 : ℕ → ℕ
u32 n = n % 2 ^ 32

-- `compare_exchange_strong` with `Empty`, and the count behind it, which only the writer changes.
unfoldable pub write_attempt : ℕ → Lock → Option Lock
write_attempt thread l =
    if l.lock_flag == 0
    then some (record { lock_flag = u32 (thread * 2 ^ 16); lock_count = u16 (l.lock_count + 1) })
    else none

-- The load of the word and its exchange are two steps: `expected` is what was loaded, masked.
unfoldable pub read_attempt : ℕ → Lock → Option Lock
read_attempt expected l =
    if l.lock_flag == expected
    then some (record { lock_flag = u32 (expected + 1); lock_count = u16 (l.lock_count + 1) })
    else none

-- The spinning of a thread: before each attempt the other threads act. The time-out only prints, so
-- the loop ends by success alone; with no more rounds given it is still running.
unfoldable pub spin : (Lock → Option Lock) → List (Lock → Lock) → Lock → Result Lock
spin attempt [] l = err Error.out_of_fuel
spin attempt (others ∷ rounds) l = elim (attempt (others l)) [
  | some l' ↦ ok l'
  | none ↦ spin attempt rounds (others l)
]

unfoldable pub try_write_lock : ℕ → List (Lock → Lock) → Lock → Result Lock
try_write_lock thread rounds l =
    if writer l.lock_flag == thread
    then ok (record l { lock_count = u16 (l.lock_count + 1) })
    else spin (write_attempt thread) rounds l

-- The assert on the readers holds always: it tests a text.
unfoldable pub try_write_unlock : Lock → Lock
try_write_unlock l =
    let last_lock_count = u16 (l.lock_count + 2 ^ 16 - 1) in
    record {
      lock_flag = if last_lock_count == 0 then 0 else l.lock_flag;
      lock_count = last_lock_count;
    }

-- With nothing between the load and the exchange.
unfoldable pub try_read_lock : ℕ → List (Lock → Lock) → Lock → Result Lock
try_read_lock thread rounds l =
    if writer l.lock_flag == thread
    then ok (record l { lock_flag = u32 (l.lock_flag + 1) })
    else spin (λ now. read_attempt (readers now.lock_flag) now) rounds l

unfoldable pub try_read_unlock : Lock → Lock
try_read_unlock l = record l { lock_flag = u32 (l.lock_flag + 2 ^ 32 - 1) }

-- Both guards call the readers' operations.
unfoldable pub write_lock_guard : ℕ → List (Lock → Lock) → Lock → Result Lock
write_lock_guard thread rounds l = try_read_lock thread rounds l

unfoldable pub read_lock_guard : ℕ → List (Lock → Lock) → Lock → Result Lock
read_lock_guard thread rounds l = try_read_lock thread rounds l

unfoldable pub end_guard : Lock → Lock
end_guard l = try_read_unlock l

-- The macros `WriteLock` and `ReadLock`: a guard for the rest of a block.
unfoldable pub write_lock : ℕ → List (Lock → Lock) → (Lock → Result Lock) → Lock → Result Lock
write_lock thread rounds block l =
    write_lock_guard thread rounds l >>= λ held. block held >>= λ left. ok (end_guard left)

unfoldable pub read_lock : ℕ → List (Lock → Lock) → (Lock → Result Lock) → Lock → Result Lock
read_lock thread rounds block l =
    read_lock_guard thread rounds l >>= λ held. block held >>= λ left. ok (end_guard left)

-- No other thread acts in a round.
abbrev pub alone : List (Lock → Lock)
alone = (λ l. l) ∷ []
