-- ===== src/Common/Family.antt =====
-- Families of numbers over threads, and their sums.
use mathlib.Core.Bool.{false≢true}
use mathlib.Core.Path.{◌≡◌, refl, sym, ap, ◌∙◌}
use mathlib.Core.Logic.{◌≢◌, inl, inr}
use Prim.Native.Nat.{ℕ, zero, suc, ◌+◌, ◌*◌, ◌≤◌, ◌<◌}
use native.Mathlib.Omega.{arith}
use yserver_core.Common.Tests.{◌==◌, if◌then◌else◌, Bool-cases, ==→eq, eq→==}

-- The sum of a family over the threads below `n`, and the family with one value changed.
abbrev pub total : ℕ → (ℕ → ℕ) → ℕ
total zero f = 0
total (suc n) f = f n + total n f

abbrev pub update {ℓ} : {A : Type ℓ} → (ℕ → A) → ℕ → A → ℕ → A
update f i v j = if i == j then v else f j

pub update_self {ℓ} : {A : Type ℓ} (f : ℕ → A) (i : ℕ) (v : A) → update f i v i ≡ v
update_self f i v = ground arith

pub update_ne {ℓ} : {A : Type ℓ} (f : ℕ → A) (i j : ℕ) (v : A) → i ≢ j → update f i v j ≡ f j
update_ne f i j v ne = ground arith

total-ext : (n : ℕ) (f g : ℕ → ℕ) → ((j : ℕ) → j < n → f j ≡ g j) → total n f ≡ total n g
total-ext zero f g same = refl
total-ext (suc n) f g same =
    omega (arith, same n (omega arith), total-ext n f g (λ j lt. same j (omega arith)))

pub total-update :
    (n : ℕ) (f g : ℕ → ℕ) (i : ℕ)
    → i < n
    → ((j : ℕ) → i ≢ j → g j ≡ f j)
    → total n g + f i ≡ total n f + g i
total-update zero f g i lt same = absurd (omega arith)
total-update (suc n) f g i lt same = elim (Bool-cases (i == n)) [
  | inl last ↦
      let e : i ≡ n = ==→eq _ _ last in
      omega (
        arith,
        ap f e,
        ap g e,
        total-ext n f g (λ j below. sym (same j (λ e'. absurd (omega arith)))),
      )
  | inr earlier ↦
      let ne : i ≢ n = λ e. false≢true (sym earlier ∙ eq→== _ _ e) in
      omega (arith, same n ne, total-update n f g i (omega (arith, ne)) same)
]

pub total-le : (n b : ℕ) (f : ℕ → ℕ) → ((j : ℕ) → f j ≤ b) → total n f ≤ n * b
total-le zero b f small = omega arith
total-le (suc n) b f small = omega (arith, small n, total-le n b f small)

-- With one thread idle, the others have at most `n - 1` packets.
pub total_room :
    (n b : ℕ) (f : ℕ → ℕ) (i : ℕ) → ((j : ℕ) → f j ≤ b) → i < n → f i ≡ 0 → total n f + b ≤ n * b
total_room zero b f i small lt idle = absurd (omega arith)
total_room (suc n) b f i small lt idle = elim (Bool-cases (i == n)) [
  | inl last ↦ let e : i ≡ n = ==→eq _ _ last in omega (arith, ap f e, total-le n b f small)
  | inr earlier ↦
      let ne : i ≢ n = λ e. false≢true (sym earlier ∙ eq→== _ _ e) in
      omega (arith, small n, total_room n b f i small (omega (arith, ne)) idle)
]
