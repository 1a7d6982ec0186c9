-- ===== src/Threads/Identities.antt =====
-- The identities that `Thread::InitLocalThread` of YServerCore/Thread.cpp gives, which are what the
-- lock of YServerCore/Lock.cpp knows its writers by.
use yserver_core.Common.{ℕ, zero, suc, ◌+◌, ◌-◌, ◌%◌, ◌^◌, ◌<◌, ◌≡◌, ◌≢◌, refl, ap, arith}
use yserver_core.Threads.{init_local_thread}

-- The counter after `n` threads have been initialised, and the identity of the next.
unfoldable pub counter : ℕ → ℕ
counter zero = 1
counter (suc n) = (init_local_thread (counter n)).1

abbrev pub identity : ℕ → ℕ
identity n = (init_local_thread (counter n)).0

counter_lem : (n : ℕ) → n < 2 ^ 32 - 1 → counter n ≡ n + 1
unfolding counter init_local_thread
counter_lem zero lt = refl
counter_lem (suc n) lt = omega (arith, counter_lem n (omega arith))

identity_lem : (n : ℕ) → n < 2 ^ 32 - 1 → identity n ≡ (n + 1) % 2 ^ 16
unfolding init_local_thread
identity_lem n lt = ap (λ k. k % 2 ^ 16) (counter_lem n lt)

-- Of the first 2 ^ 16 - 1 threads that `InitLocalThread` runs on, two get different identities, and
-- neither is 0; the thread after them gets 0, the identity of a thread that was never initialised.
pub identity-distinct :
    (i j : ℕ)
    → i < j
    → j < 2 ^ 16 - 1
    → (identity i ≢ identity j) × (identity i ≢ 0) × (identity j ≢ 0) × (identity (2 ^ 16 - 1) ≡ 0)
identity-distinct i j lt few =
    let a = identity_lem i (omega arith) in
    let b = identity_lem j (omega arith) in
    let c = identity_lem (2 ^ 16 - 1) (omega arith) in
    (omega (arith, a, b), omega (arith, a), omega (arith, b), c)
