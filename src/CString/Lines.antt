-- ===== src/CString/Lines.antt =====
-- Lines of the standard input, as `fgets` gives them.
use yserver_core.Common.{
  ℕ, zero, suc, ◌+◌, ◌-◌, ◌<◌, ◌≡◌, ◌≢◌, refl, ap, ap₂, sym, List, [], ◌∷◌, ◌++◌, true, false,
  arith, length, drop, ==→eq, Bool-cases, inl, inr, ◌==◌, All, subst,
}
use yserver_core.CString.{same_text, newline, read_line, fgets, filled_by, NoZero}

-- A line without its newline, as it is typed.
pub record IsLine (line : List ℕ) : Type 0 where
  pub no_newline : All (λ b. b ≢ newline) line
  pub no_zero : NoZero line

read_line_lem :
    (n : ℕ) (line rest : List ℕ)
    → length line < n
    → All (λ b. b ≢ newline) line
    → read_line n (line ++ newline ∷ rest) ≡ (line ++ newline ∷ [], rest)
unfolding read_line
read_line_lem zero line rest room plain = absurd (omega arith)
read_line_lem (suc n) [] rest room plain = refl
read_line_lem (suc n) (b ∷ line) rest room plain =
    rw (read_line_lem n line rest (omega arith) plain.1) (ground (arith, plain.0))

-- The bytes of an array that holds a line.
filled_by_lem :
    (buf line : List ℕ)
    → filled_by buf (line ++ newline ∷ [])
      ≡ (line ++ newline ∷ []) ++ 0 ∷ drop (length (line ++ newline ∷ []) + 1) buf
filled_by_lem buf [] = refl
filled_by_lem buf (b ∷ line) = refl

pub fgets_lem :
    (buf line rest : List ℕ)
    → length line + 1 < length buf
    → IsLine line
    → fgets buf (line ++ newline ∷ rest)
      ≡ ((line ++ newline ∷ []) ++ 0 ∷ drop (length (line ++ newline ∷ []) + 1) buf, rest)
unfolding fgets
fgets_lem buf line rest room v =
    rw (read_line_lem (length buf - 1) line rest (omega arith) v.no_newline)
      (ap (λ k. (k, rest)) (filled_by_lem buf line))

pub fgets_end : (buf : List ℕ) → fgets buf [] ≡ (buf, [])
unfolding fgets
fgets_end buf = rw (read_end (length buf - 1)) refl
  where
    read_end : (n : ℕ) → read_line n [] ≡ ([], [])
    read_end zero = unfold read_line in refl
    read_end (suc n) = unfold read_line in refl

pub line-NoZero : (line : List ℕ) → NoZero line → NoZero (line ++ newline ∷ [])
line-NoZero [] v = (omega arith, tt)
line-NoZero (b ∷ line) v = (v.0, line-NoZero line v.1)

pub same_text→eq : (xs ys : List ℕ) → same_text xs ys ≡ true → xs ≡ ys
unfolding same_text
same_text→eq [] [] e = refl
same_text→eq [] (y ∷ ys) e = cc
same_text→eq (x ∷ xs) [] e = cc
same_text→eq (x ∷ xs) (y ∷ ys) e = elim (Bool-cases (x == y)) [
  | inl same ↦ ap₂ ◌∷◌ (==→eq x y same) (same_text→eq xs ys (rw same at e))
  | inr apart ↦ cc
]

-- A text with a newline is not one without.
has_newline : (line : List ℕ) → ¬ (All (λ b. b ≢ newline) (line ++ newline ∷ []))
has_newline [] v = v.0 refl
has_newline (b ∷ line) v = has_newline line v.1

pub same_text_line :
    (line word : List ℕ)
    → All (λ b. b ≢ newline) word
    → same_text (line ++ newline ∷ []) word ≡ false
same_text_line line word plain = elim (Bool-cases (same_text (line ++ newline ∷ []) word)) [
  | inl same ↦ absurd (
      has_newline line
        (subst (All λ b. b ≢ newline) (sym (same_text→eq (line ++ newline ∷ []) word same)) plain))
  | inr apart ↦ apart
]
