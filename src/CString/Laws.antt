-- ===== src/CString/Laws.antt =====
-- What `strcpy_s` leaves in the array, and what reading it back gives.
use yserver_core.Common.{
  ℕ, ◌+◌, ◌≤◌, ◌<◌, ◌≡◌, refl, ap, List, [], ◌∷◌, ◌++◌, some, ok, err, Error, arith, length, drop,
  length-append, append_assoc, length-drop,
}
use yserver_core.CString.{visible, c_string, strcpy_s, NoZero}

pub visible-NoZero : (text : List ℕ) → NoZero (visible text)
unfolding visible
visible-NoZero [] = tt
visible-NoZero (b ∷ bs) = ground (arith, visible-NoZero bs)

pub visible_lem : (text : List ℕ) → NoZero text → visible text ≡ text
unfolding visible
visible_lem [] h = refl
visible_lem (b ∷ bs) h = ground (arith, visible_lem bs h.1)

pub c_string-append : (text rest : List ℕ) → NoZero text → c_string (text ++ 0 ∷ rest) ≡ some text
unfolding c_string
c_string-append [] rest h = refl
c_string-append (b ∷ bs) rest h = ground (arith, c_string-append bs rest h.1)

pub strcpy_s_fits :
    (buf text : List ℕ)
    → length (visible text) < length buf
    → strcpy_s buf text ≡ ok (visible text ++ 0 ∷ drop (length (visible text) + 1) buf)
unfolding strcpy_s
strcpy_s_fits buf text h = ground arith

pub strcpy_s_too_long :
    (buf text : List ℕ)
    → length buf ≤ length (visible text)
    → strcpy_s buf text ≡ err Error.invalid_parameter
unfolding strcpy_s
strcpy_s_too_long buf text h = ground arith

-- A copy that returns had room, and wrote the text, a zero and nothing else.
pub strcpy_s_inversion :
    (buf text : List ℕ) {after : List ℕ}
    → strcpy_s buf text ≡ ok after
    → (length (visible text) < length buf)
      × (after ≡ visible text ++ 0 ∷ drop (length (visible text) + 1) buf)
unfolding strcpy_s
strcpy_s_inversion buf text e = ground arith

pub strcpy_s-length :
    (buf text : List ℕ) {after : List ℕ} → strcpy_s buf text ≡ ok after → length after ≡ length buf
strcpy_s-length buf text e =
    let (room, written) = strcpy_s_inversion buf text e in
    omega (
      arith,
      ap length written,
      length-append (visible text) (0 ∷ drop (length (visible text) + 1) buf),
      length-drop (length (visible text) + 1) buf,
    )

-- If `strcpy_s` returns, reading the array back gives the text up to its first zero byte, whatever
-- stands behind the array.
pub c_string-strcpy_s :
    (buf text rest : List ℕ) {after : List ℕ}
    → strcpy_s buf text ≡ ok after
    → c_string (after ++ rest) ≡ some (visible text)
c_string-strcpy_s buf text rest e =
    rw ((strcpy_s_inversion buf text e).1, append_assoc)
      (c_string-append (visible text) _ (visible-NoZero text))
