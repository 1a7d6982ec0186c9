-- ===== src/Log.antt =====
-- YServerCore/Log.h: what is printed. `vprintf` on the conversions %s and %d, which are those of the
-- sources' formats.
pub mod Texts
use yserver_core.Common.{
  ℕ, zero, suc, ◌+◌, ◌-◌, ◌%◌, ◌/◌, ◌^◌, List, [], ◌∷◌, ◌++◌, Option, none, some, Bool, true, false,
  Result, ok, err, Error, ◌>>=◌, or_fail, ltb, ◌==◌, if◌then◌else◌,
}
use yserver_core.CString.{c_string, codes}

-- The class, which has no state, and `Get`: the static instance is made by the first call.
pub data Log : Type 0 where
  new_log : Log

unfoldable pub get : Option Log → Log
get none = new_log
get (some log) = log

abbrev pub percent : ℕ
percent = 37

-- The letters s and d.
abbrev pub for_text : ℕ
for_text = 115

abbrev pub for_number : ℕ
for_number = 100

-- What stands behind the format: the memory at a char*, or an int as a 32-bit word.
pub data Arg : Type 0 where
  text : List ℕ → Arg
  number : ℕ → Arg

-- The digits of a number below 10 to the fuel.
unfoldable pub digits : ℕ → ℕ → List ℕ
digits zero n = []
digits (suc fuel) n =
    let before = digits fuel (n / 10) in (if ltb n 10 then [] else before) ++ (48 + n % 10) ∷ []

-- An int in base 10.
unfoldable pub decimal : ℕ → List ℕ
decimal w = if ltb w (2 ^ 31) then digits 10 w else 45 ∷ digits 10 (2 ^ 32 - w)

-- What MSVC's `vprintf` reads behind a percent sign: flags, width, precision and size, and the
-- types of the conversions.
abbrev pub means : ℕ → Bool
means c = has c (codes "-+ #0123456789*.hlIjztwLdiouxXeEfFgGaAcCsSpnZ")
  where
    has : ℕ → List ℕ → Bool
    has c [] = false
    has c (b ∷ bs) = let later = has c bs in if c == b then true else later

-- A character without a meaning is printed as it is. A conversion without its argument, or with one
-- of another type, reads what was not passed. The other characters with a meaning are not modelled:
-- they are taken not to return.
abbrev pub missing : ℕ → List Arg → Result (List ℕ × List Arg)
missing c args = if means c then err Error.out_of_bounds else ok (c ∷ [], args)

unfoldable pub convert : ℕ → List Arg → Result (List ℕ × List Arg)
convert c [] = missing c []
convert c (text p ∷ args) =
    if c == for_text
    then (or_fail (c_string p) Error.out_of_bounds >>= λ out. ok (out, args))
    else missing c (text p ∷ args)
convert c (number w ∷ args) =
    if c == for_number then ok (decimal w, args) else missing c (number w ∷ args)

-- The rest of a format, behind a percent sign or not. The arguments that are left over are ignored.
unfoldable pub format : Bool → List ℕ → List Arg → Result (List ℕ)
format false [] args = ok []
format true [] args = err Error.out_of_bounds
format true (c ∷ cs) args = convert c args >>= λ (made : List ℕ × List Arg).
    format false cs made.1 >>= λ out. ok (made.0 ++ out)
format false (c ∷ cs) args = elim (c == percent) [
  | true ↦ format true cs args
  | false ↦ format false cs args >>= λ out. ok (c ∷ out)
]

-- `PrintLog`, as the text that it prints: the format is the memory at `str`.
unfoldable pub print_log : List ℕ → List Arg → Result (List ℕ)
print_log str args = or_fail (c_string str) Error.out_of_bounds >>= λ f. format false f args

abbrev pub error_io_pending : ℕ
error_io_pending = 997

-- `_itoa_s` into an array of 1024, whose bytes behind the text's zero are what it held; `last_error`
-- is what both calls of `WSAGetLastError` give.
unfoldable pub print_wsa_last_error : List ℕ → ℕ → Result (List ℕ)
print_wsa_last_error junk last_error =
    if last_error == error_io_pending then ok [] else print_log (decimal last_error ++ 0 ∷ junk) []
