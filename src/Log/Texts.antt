-- ===== src/Log/Texts.antt =====
-- The texts that YServerCore/Log.h prints.
use yserver_core.Common.{
  ℕ, zero, suc, ◌+◌, ◌-◌, ◌*◌, ◌%◌, ◌/◌, ◌^◌, ◌≤◌, ◌<◌, ◌≡◌, ◌≢◌, refl, ap, sym, ◌∙◌, List, [], ◌∷◌,
  ◌++◌, false, Result, ok, err, ◌>>=◌, ltb, ◌==◌, if◌then◌else◌, arith, length, length-append,
  append-nil, All, inl, inr, ◌⊎◌, Bool-cases, ==→eq, ltb→lt, ltb→le,
}
use yserver_core.CString.{NoZero}
use yserver_core.CString.Laws.{c_string-append}
use yserver_core.Log.{
  Arg, percent, digits, decimal, format, print_log, error_io_pending, print_wsa_last_error,
}

-- No conversion stands in the text.
abbrev pub Plain : List ℕ → Type 0
Plain = All λ b. b ≢ percent

bind-ok : (r : Result (List ℕ)) → r ≡ (r >>= λ out. ok out)
bind-ok (ok out) = refl
bind-ok (err fault) = refl

bind-cons :
    (b : ℕ) (before : List ℕ) (r : Result (List ℕ))
    → ((r >>= λ out. ok (before ++ out)) >>= λ out. ok (b ∷ out))
      ≡ (r >>= λ out. ok (b ∷ (before ++ out)))
bind-cons b before (ok out) = refl
bind-cons b before (err fault) = refl

format_byte :
    (b : ℕ) (bs : List ℕ) (args : List Arg)
    → b ≢ percent
    → format false (b ∷ bs) args ≡ (format false bs args >>= λ out. ok (b ∷ out))
unfolding format
format_byte b bs args other = ground arith

format_skips :
    (before after : List ℕ) (args : List Arg)
    → Plain before
    → format false (before ++ after) args ≡ (format false after args >>= λ out. ok (before ++ out))
format_skips [] after args v = bind-ok (format false after args)
format_skips (b ∷ before) after args v =
    rw (format_byte b (before ++ after) args v.0, format_skips before after args v.1)
      (bind-cons b before (format false after args))

format_end : (args : List Arg) → format false [] args ≡ ok []
unfolding format
format_end args = refl

-- A text without a zero byte and a percent sign is printed as it is, whatever the arguments are.
pub print_log-Plain :
    (str junk : List ℕ) (args : List Arg)
    → NoZero str
    → Plain str
    → print_log (str ++ 0 ∷ junk) args ≡ ok str
unfolding print_log
print_log-Plain str junk args v plain = rw (c_string-append str junk v) (
    ap (λ t. format false t args) (sym (append-nil str))
    ∙ format_skips str [] args plain
    ∙ rw (format_end args) (ap ok (append-nil str)))

-- The number that decimal digits are read as, behind one that is already read.
pub value : List ℕ → ℕ → ℕ
value [] read = read
value (b ∷ bs) read = value bs (read * 10 + (b - 48))

value-append : (xs ys : List ℕ) (read : ℕ) → value (xs ++ ys) read ≡ value ys (value xs read)
unfolding value
value-append [] ys read = refl
value-append (x ∷ xs) ys read = value-append xs ys (read * 10 + (x - 48))

abbrev pub tens : ℕ → ℕ
tens zero = 1
tens (suc fuel) = 10 * tens fuel

value-digits : (fuel n : ℕ) → n < tens fuel → value (digits fuel n) 0 ≡ n
unfolding digits value
value-digits zero n small = omega arith
value-digits (suc fuel) n small = elim (Bool-cases (ltb n 10)) [
  | inl one ↦ rw one (omega (arith, ltb→lt _ _ one))
  | inr more ↦ rw more (
      value-append (digits fuel (n / 10)) ((48 + n % 10) ∷ []) 0
      ∙ omega (arith, value-digits fuel (n / 10) (omega arith)))
]

abbrev pub IsDigits : List ℕ → Type 0
IsDigits = All λ b. (48 ≤ b) × (b < 58)

digits-IsDigits : (fuel n : ℕ) → IsDigits (digits fuel n) × (length (digits fuel n) ≤ fuel)
unfolding digits
digits-IsDigits zero n = (tt, omega arith)
digits-IsDigits (suc fuel) n = elim (Bool-cases (ltb n 10)) [
  | inl one ↦ rw one (((omega arith, omega arith), tt), omega arith)
  | inr more ↦
      let (before, short) = digits-IsDigits fuel (n / 10) in
      rw more (
        append-IsDigits (digits fuel (n / 10)) (48 + n % 10) before (omega arith) (omega arith),
        omega (arith, length-append (digits fuel (n / 10)) ((48 + n % 10) ∷ [])),
      )
]
  where
    append-IsDigits :
        (ds : List ℕ) (d : ℕ) → IsDigits ds → 48 ≤ d → d < 58 → IsDigits (ds ++ d ∷ [])
    append-IsDigits [] d v low high = ((low, high), tt)
    append-IsDigits (x ∷ ds) d v low high = (v.0, append-IsDigits ds d v.1 low high)

digits-Plain : (ds : List ℕ) → IsDigits ds → Plain ds × NoZero ds
digits-Plain [] v = (tt, tt)
digits-Plain (d ∷ ds) v =
    let rest = digits-Plain ds v.1 in
    ((omega (arith, v.0.0), rest.0), (omega (arith, v.0.0), rest.1))

-- The 32-bit word that a text of `_itoa_s` in base 10 stands for.
pub word_of : List ℕ → ℕ
word_of [] = 0
word_of (b ∷ bs) = if b == 45 then 2 ^ 32 - value bs 0 else value (b ∷ bs) 0

word_of-IsDigits : (ds : List ℕ) → IsDigits ds → word_of ds ≡ value ds 0
unfolding word_of value
word_of-IsDigits [] v = refl
word_of-IsDigits (d ∷ ds) v = ground (arith, v.0.0)

pub record Printable (w : ℕ) : Type 0 where
  pub plain : Plain (decimal w)
  pub no_zero : NoZero (decimal w)
  pub short : length (decimal w) ≤ 11
  pub back : word_of (decimal w) ≡ w

pub decimal-Printable : (w : ℕ) → w < 2 ^ 32 → Printable w
decimal-Printable w is_word = elim (Bool-cases (ltb w (2 ^ 31))) [
  | inl low ↦
      let same : decimal w ≡ digits 10 w = unfold decimal in rw low refl in
      let (ds, short) = digits-IsDigits 10 w in
      let (plain, no_zero) = digits-Plain (digits 10 w) ds in
      record {
        plain = rw same plain;
        no_zero = rw same no_zero;
        short = omega (arith, ap length same);
        back =
            ap word_of same
            ∙ word_of-IsDigits (digits 10 w) ds
            ∙ value-digits 10 w (omega (arith, ltb→lt _ _ low));
      }
  | inr high ↦
      let same : decimal w ≡ 45 ∷ digits 10 (2 ^ 32 - w) = unfold decimal in rw high refl in
      let (ds, short) = digits-IsDigits 10 (2 ^ 32 - w) in
      let (plain, no_zero) = digits-Plain (digits 10 (2 ^ 32 - w)) ds in
      record {
        plain = rw same (omega arith, plain);
        no_zero = rw same (omega arith, no_zero);
        short = omega (arith, ap length same);
        back =
            ap word_of same
            ∙ unfold word_of in
              omega (arith, value-digits 10 (2 ^ 32 - w) (omega (arith, ltb→le _ _ high)));
      }
]

-- `printWSALastError` for every 32-bit code: for ERROR_IO_PENDING it prints nothing; for any other
-- it prints at most eleven bytes that read back, in decimal, as the code.
pub print_wsa_last_error_lem :
    (junk : List ℕ) (last_error : ℕ)
    → last_error < 2 ^ 32
    → ((last_error ≡ error_io_pending) × (print_wsa_last_error junk last_error ≡ ok []))
      ⊎ ((last_error ≢ error_io_pending)
          × (out : List ℕ) × (print_wsa_last_error junk last_error ≡ ok out)
          × (length out ≤ 11)
          × (word_of out ≡ last_error))
unfolding print_wsa_last_error
print_wsa_last_error_lem junk last_error is_word =
    elim (Bool-cases (last_error == error_io_pending)) [
      | inl pending ↦ inl (==→eq _ _ pending, rw pending refl)
      | inr other ↦
          let d = decimal-Printable last_error is_word in
          inr (
            ground arith,
            decimal last_error,
            rw other (print_log-Plain (decimal last_error) junk [] d.no_zero d.plain),
            d.short,
            d.back,
          )
    ]
