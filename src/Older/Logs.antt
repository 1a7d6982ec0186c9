-- ===== src/Older/Logs.antt =====
-- Include/Log.h and the macros of Include/stdafx.h: what the older headers print.
use yserver_core.Common.{
  ℕ, List, [], ◌∷◌, ◌++◌, Option, none, some, Result, ok, Error, ◌>>=◌, or_fail, ◌==◌,
  if◌then◌else◌,
}
use yserver_core.CString.{codes, visible, c_string, newline}
use yserver_core.Log.{decimal, error_io_pending}

-- The class, which has no state, and `Get`: the static instance is made by the first call.
pub data Log : Type 0 where
  new_log : Log

unfoldable pub get : Option Log → Log
get none = new_log
get (some log) = log

-- `printf("%s\n", str.c_str())`.
unfoldable pub print_log : List ℕ → List ℕ
print_log str = visible str ++ newline ∷ []

-- `fixed` is what the C runtime prints of a float by "%.2f".
module _ (fixed : ℕ → List ℕ) where
  unfoldable pub print_number : ℕ → List ℕ
  print_number num = fixed num ++ newline ∷ []

  -- A char* is read up to its zero byte.
  unfoldable pub print_named : List ℕ → ℕ → Result (List ℕ)
  print_named str num = or_fail (c_string str) Error.out_of_bounds >>= λ name.
      ok (name ++ (codes " : " ++ print_number num))

-- A char* argument is made a std::string, which reads up to the zero byte.
unfoldable pub print_text : List ℕ → Result (List ℕ)
print_text str = or_fail (c_string str) Error.out_of_bounds >>= λ text. ok (print_log text)

unfoldable pub print_wsa_last_error : List ℕ → ℕ → Result (List ℕ)
print_wsa_last_error junk last_error =
    if last_error == error_io_pending then ok [] else print_text (decimal last_error ++ 0 ∷ junk)
