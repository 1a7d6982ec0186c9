-- ===== src/CString.antt =====
-- Text in fixed arrays of char: the C runtime's calls as the sources use them
-- (`strcpy_s` into an array, and `(string)array`, which reads up to the first zero byte).
pub mod Laws
pub mod Lines
use Prim.Native.Char.{code}
use Prim.Native.String.{String}
use mathlib.Core.Option
use yserver_core.Common.{
  ℕ, zero, suc, ◌+◌, ◌-◌, ◌≢◌, Bool, true, false, List, [], ◌∷◌, ◌++◌, Option, none, some, Result,
  ok, err, Error, ltb, ◌==◌, if◌then◌else◌, length, drop,
}

-- The bytes of a literal, without its final zero.
abbrev pub codes : String → List ℕ
codes String.[] = []
codes (String.◌∷◌ c s) = code c ∷ codes s

-- `s.c_str()` of a std::string `s`, without the final zero: what a C function sees of it.
unfoldable pub visible : List ℕ → List ℕ
visible [] = []
visible (b ∷ bs) = if b == 0 then [] else b ∷ visible bs

-- `(string)p` for `char* p`: the bytes up to the first zero in the memory at `p`; `none` if there
-- is no zero, when the read leaves that memory.
unfoldable pub c_string : List ℕ → Option (List ℕ)
c_string [] = none
c_string (b ∷ bs) = if b == 0 then some [] else Option.map (◌∷◌ b) (c_string bs)

-- `strcpy_s(buf, text.c_str())`: a text that does not fit with its zero byte is refused by the
-- runtime's invalid parameter handler.
unfoldable pub strcpy_s : List ℕ → List ℕ → Result (List ℕ)
strcpy_s buf text =
    let seen = visible text in
    if ltb (length seen) (length buf)
    then ok (seen ++ 0 ∷ drop (length seen + 1) buf)
    else err Error.invalid_parameter

-- `strcmp(a, b) == 0`, on the texts up to their first zero byte.
unfoldable pub same_text : List ℕ → List ℕ → Bool
same_text [] [] = true
same_text [] (y ∷ ys) = false
same_text (x ∷ xs) [] = false
same_text (x ∷ xs) (y ∷ ys) = let rest = same_text xs ys in if x == y then rest else false

abbrev pub newline : ℕ
newline = 10

-- At most `n` bytes of the input, up to a newline, which is read too; and the rest of the input.
unfoldable pub read_line : ℕ → List ℕ → List ℕ × List ℕ
read_line zero input = ([], input)
read_line (suc n) [] = ([], [])
read_line (suc n) (b ∷ input) =
    let (line, rest) = read_line n input in
    if b == newline then (b ∷ [], input) else (b ∷ line, rest)

-- `fgets(buf, sizeof buf, stdin)`: the array and the rest of the input. At the input's end the array
-- is as it was.
abbrev pub filled_by : List ℕ → List ℕ → List ℕ
filled_by buf [] = buf
filled_by buf (b ∷ line) = (b ∷ line) ++ 0 ∷ drop (length (b ∷ line) + 1) buf

unfoldable pub fgets : List ℕ → List ℕ → List ℕ × List ℕ
fgets buf input =
    (filled_by buf (read_line (length buf - 1) input).0, (read_line (length buf - 1) input).1)

-- No zero byte stands in the text.
abbrev pub NoZero : List ℕ → Type 0
NoZero [] = Unit
NoZero (b ∷ bs) = (b ≢ 0) × NoZero bs
