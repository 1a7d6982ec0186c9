-- ===== src/Lock/Writers.antt =====
-- `TryWriteLock` and `TryWriteUnLock` of YServerCore/Lock.cpp, used by writers only.
use yserver_core.Common.{
  ℕ, ◌+◌, ◌-◌, ◌*◌, ◌^◌, ◌<◌, ◌≡◌, ◌≢◌, ◌⊎◌, inl, inr, refl, some, arith, ◌==◌, if◌then◌else◌,
  Bool-cases, Option-cases, ok, ==→eq, eq→==, false, ap, sym, ◌∙◌,
}
use mathlib.Core.Bool.{false≢true}
use yserver_core.Lock.{
  Lock, free, writer, u16, alone, spin, write_attempt, try_write_lock, try_write_unlock,
}

-- The lock, and how often each thread holds it.
pub record System : Type 0 where
  pub lock : Lock
  pub depth : ℕ → ℕ

abbrev pub set_depth : (ℕ → ℕ) → ℕ → ℕ → ℕ → ℕ
set_depth depth t n u = if t == u then n else depth u

-- An identified thread gets the lock, by an attempt of its own or again as its writer, or leaves
-- it. A thread holds the lock less than 2 ^ 16 times.
pub data Step (s : System) : System → Type 0 where
  locks :
      (t : ℕ) (l : Lock)
      → 0 < t
      → t < 2 ^ 16
      → s.depth t + 1 < 2 ^ 16
      → try_write_lock t alone s.lock ≡ ok l
      → Step s (record { lock = l; depth = set_depth s.depth t (s.depth t + 1) })
  unlocks :
      (t : ℕ)
      → 0 < s.depth t
      → Step s
          (record { lock = try_write_unlock s.lock; depth = set_depth s.depth t (s.depth t - 1) })

pub data Reach : System → Type 0 where
  start : Reach (record { lock = free; depth = λ _. 0 })
  next : {s s' : System} → Reach s → Step s s' → Reach s'

-- Nobody holds the lock, or one thread does, as often as the lock counts.
pub record IsFree (s : System) : Type 0 where
  flag : s.lock.lock_flag ≡ 0
  count : s.lock.lock_count ≡ 0
  nobody : (u : ℕ) → s.depth u ≡ 0

pub record IsHeld (s : System) : Type 0 where
  holder : ℕ
  identified : 0 < holder
  small : holder < 2 ^ 16
  flag : s.lock.lock_flag ≡ holder * 2 ^ 16
  count : s.lock.lock_count ≡ s.depth holder
  entered : 0 < s.depth holder
  bounded : s.depth holder < 2 ^ 16
  others : (u : ℕ) → holder ≢ u → s.depth u ≡ 0

set_depth_self : (d : ℕ → ℕ) (t n : ℕ) → set_depth d t n t ≡ n
set_depth_self d t n = ground arith

set_depth_ne : (d : ℕ → ℕ) (t n u : ℕ) → t ≢ u → set_depth d t n u ≡ d u
set_depth_ne d t n u ne = ground arith

entered_lem :
    (t : ℕ) (l l' : Lock)
    → t < 2 ^ 16
    → l.lock_count ≡ 0
    → write_attempt t l ≡ some l'
    → (l.lock_flag ≡ 0) × (l'.lock_flag ≡ t * 2 ^ 16) × (l'.lock_count ≡ 1)
unfolding write_attempt
entered_lem t l l' lt none_yet e = ground arith

attempt_free : (t : ℕ) (l l' : Lock) → write_attempt t l ≡ some l' → l.lock_flag ≡ 0
unfolding write_attempt
attempt_free t l l' e = ground arith

enter-IsHeld :
    (s : System) (t : ℕ) (l : Lock)
    → 0 < t
    → t < 2 ^ 16
    → write_attempt t s.lock ≡ some l
    → IsFree s
    → IsHeld (record { lock = l; depth = set_depth s.depth t (s.depth t + 1) })
enter-IsHeld s t l pos lt e f =
    let (_, flag, count) = entered_lem t s.lock l lt f.count e in
    let self = set_depth_self s.depth t (s.depth t + 1) in
    let zero_before = f.nobody t in
    record {
      holder = t;
      identified = pos;
      small = lt;
      flag = flag;
      count = omega (arith, count, self, zero_before);
      entered = omega (arith, self);
      bounded = omega (arith, self, zero_before);
      others = λ u ne. set_depth_ne s.depth t _ u ne ∙ f.nobody u;
    }

reenter-IsHeld :
    (s : System) (t : ℕ)
    → writer s.lock.lock_flag ≡ t
    → s.depth t + 1 < 2 ^ 16
    → IsHeld s
    → IsHeld (record {
      lock = record s.lock { lock_count = u16 (s.lock.lock_count + 1) };
      depth = set_depth s.depth t (s.depth t + 1);
    })
reenter-IsHeld s t e room h =
    let same : h.holder ≡ t = omega (arith, h.flag) in
    let self = set_depth_self s.depth t (s.depth t + 1) in
    let count : s.lock.lock_count ≡ s.depth t = h.count ∙ ap s.depth same in
    record {
      holder = t;
      identified = omega (arith, h.identified);
      small = omega (arith, h.small);
      flag = omega (arith, h.flag);
      count = omega (arith, count, self);
      entered = omega (arith, self);
      bounded = omega (arith, self);
      others = λ u ne. set_depth_ne s.depth t _ u ne ∙ h.others u (λ same'. ne (sym same ∙ same'));
    }

-- Only the holder leaves.
leaver : (s : System) (t : ℕ) → 0 < s.depth t → (h : IsHeld s) → h.holder ≡ t
leaver s t held h = elim (Bool-cases (h.holder == t)) [
  | inl same ↦ ==→eq _ _ same
  | inr other ↦ absurd (omega (arith, h.others t (λ same. false≢true (sym other ∙ eq→== _ _ same))))
]

unlock_last : (l : Lock) → l.lock_count ≡ 1 → try_write_unlock l ≡ free
unfolding try_write_unlock
unlock_last l e = ground arith

unlock_more :
    (l : Lock) (n : ℕ)
    → l.lock_count ≡ n + 2
    → n + 2 < 2 ^ 16
    → try_write_unlock l ≡ record l { lock_count = n + 1 }
unfolding try_write_unlock
unlock_more l n e room = ground arith

leave-Inv :
    (s : System) (t : ℕ)
    → 0 < s.depth t
    → IsHeld s
    → IsFree
        (record { lock = try_write_unlock s.lock; depth = set_depth s.depth t (s.depth t - 1) })
      ⊎ IsHeld
          (record { lock = try_write_unlock s.lock; depth = set_depth s.depth t (s.depth t - 1) })
leave-Inv s t held h = elim (Bool-cases (s.depth t == 1)) [
  | inl last ↦
      let one : s.depth t ≡ 1 = ==→eq _ _ last in
      let unlocked = unlock_last s.lock (count ∙ one) in
      inl (record {
        flag = ap (λ (l : Lock). l.lock_flag) unlocked;
        count = ap (λ (l : Lock). l.lock_count) unlocked;
        nobody = λ u. elim (Bool-cases (t == u)) [
          | inl here ↦ omega (arith, set_depth_at u (==→eq _ _ here), one)
          | inr there ↦
              set_depth_ne s.depth t _ u (apart u there)
              ∙ h.others u (λ same'. apart u there (sym same ∙ same'))
        ];
      })
  | inr more ↦
      let two : s.depth t ≡ (s.depth t - 2) + 2 = ground arith in
      let unlocked =
        unlock_more s.lock (s.depth t - 2) (count ∙ two) (omega (arith, two, bounded)) in
      inr (record {
        holder = t;
        identified = omega (arith, h.identified, same);
        small = omega (arith, h.small, same);
        flag = ap (λ (l : Lock). l.lock_flag) unlocked ∙ h.flag ∙ ap (λ n. n * 2 ^ 16) same;
        count = ap (λ (l : Lock). l.lock_count) unlocked ∙ omega (arith, self, two);
        entered = omega (arith, self, two);
        bounded = omega (arith, self, two, bounded);
        others =
            λ u ne. set_depth_ne s.depth t _ u ne ∙ h.others u (λ same'. ne (sym same ∙ same'));
      })
]
  where
    same : h.holder ≡ t
    same = leaver s t held h

    count : s.lock.lock_count ≡ s.depth t
    count = h.count ∙ ap s.depth same

    bounded : s.depth t < 2 ^ 16
    bounded = omega (arith, h.bounded, ap s.depth same)

    self : set_depth s.depth t (s.depth t - 1) t ≡ s.depth t - 1
    self = set_depth_self s.depth t (s.depth t - 1)

    set_depth_at : (u : ℕ) → t ≡ u → set_depth s.depth t (s.depth t - 1) u ≡ s.depth t - 1
    set_depth_at u here = ap (set_depth s.depth t (s.depth t - 1)) (sym here) ∙ self

    apart : (u : ℕ) → (t == u) ≡ false → t ≢ u
    apart u there same' = false≢true (sym there ∙ eq→== _ _ same')

locks_cases :
    (t : ℕ) (l l' : Lock)
    → try_write_lock t alone l ≡ ok l'
    → ((writer l.lock_flag ≡ t) × (l' ≡ record l { lock_count = u16 (l.lock_count + 1) }))
      ⊎ (write_attempt t l ≡ some l')
unfolding try_write_lock spin
locks_cases t l l' e = elim (Option-cases (write_attempt t l)) [
  | inl busy ↦ ground arith
  | inr (got, wins) ↦ ground arith
]

locks-Inv :
    (s : System) (t : ℕ) (l : Lock)
    → 0 < t
    → t < 2 ^ 16
    → s.depth t + 1 < 2 ^ 16
    → try_write_lock t alone s.lock ≡ ok l
    → IsFree s ⊎ IsHeld s
    → IsHeld (record { lock = l; depth = set_depth s.depth t (s.depth t + 1) })
locks-Inv s t l pos lt room e (inl f) = elim (locks_cases t s.lock l e) [
  | inl (again, _) ↦ absurd (omega (arith, f.flag))
  | inr wins ↦ enter-IsHeld s t l pos lt wins f
]
locks-Inv s t l pos lt room e (inr h) = elim (locks_cases t s.lock l e) [
  | inl (again, same) ↦ rw same (reenter-IsHeld s t again room h)
  | inr wins ↦ absurd (omega (arith, attempt_free t s.lock l wins, h.flag, h.identified))
]

Step-Inv : {s s' : System} → Step s s' → IsFree s ⊎ IsHeld s → IsFree s' ⊎ IsHeld s'
Step-Inv {s} (locks t l pos lt room e) inv = inr (locks-Inv s t l pos lt room e inv)
Step-Inv (unlocks t held) (inl f) = absurd (omega (arith, f.nobody t))
Step-Inv {s} (unlocks t held) (inr h) = leave-Inv s t held h

Reach-Inv : {s : System} → Reach s → IsFree s ⊎ IsHeld s
Reach-Inv start = inl (record { flag = refl; count = refl; nobody = λ u. refl })
Reach-Inv (next r st) = Step-Inv st (Reach-Inv r)

-- In every state that identified threads reach by `TryWriteLock` and `TryWriteUnLock`, none of them
-- holding the lock 2 ^ 16 times: two threads that hold the lock are the same.
pub writers_exclusive : {s : System} (t u : ℕ) → Reach s → 0 < s.depth t → 0 < s.depth u → t ≡ u
writers_exclusive {s} t u r ht hu = elim (Reach-Inv r) [
  | inl f ↦ absurd (omega (arith, f.nobody t))
  | inr h ↦ sym (leaver s t ht h) ∙ leaver s u hu h
]

-- In every state that identified threads reach by `TryWriteLock` and `TryWriteUnLock`, none of them
-- holding the lock 2 ^ 16 times: if no thread holds the lock, it is as it was made.
pub writers_release : {s : System} → Reach s → ((u : ℕ) → s.depth u ≡ 0) → s.lock ≡ free
writers_release {s} r nobody = elim (Reach-Inv r) [
  | inl f ↦ λ i. record { lock_flag = f.flag i; lock_count = f.count i }
  | inr h ↦ absurd (omega (arith, nobody h.holder, h.entered))
]
