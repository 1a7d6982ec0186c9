-- ===== src/Older/Printed.antt =====
-- What Include/Log.h prints, against YServerCore/Log.h, and the `Query` of Include/Database.h.
use yserver_core.Common.{
  ℕ, ◌^◌, ◌<◌, ◌≡◌, ◌≢◌, refl, List, [], ◌∷◌, ◌++◌, true, false, ok, ◌>>=◌, arith, ◌==◌,
}
use yserver_core.CString.{codes, visible, newline, NoZero}
use yserver_core.CString.Laws.{c_string-append, visible_lem}
use yserver_core.Log as Now
use yserver_core.Log.{decimal, error_io_pending}
use yserver_core.Log.Texts.{decimal-Printable, print_log-Plain}
use yserver_core.Database.Connection.{Library}
use yserver_core.Older.Logs.{print_log, print_text, print_wsa_last_error}
use yserver_core.Older.Classes.{Database, query, log_failure}

-- Every text is printed as it is, percent signs included.
pub print_text_lem :
    (str junk : List ℕ) → NoZero str → print_text (str ++ 0 ∷ junk) ≡ ok (str ++ newline ∷ [])
unfolding print_text print_log
print_text_lem str junk v = rw (c_string-append str junk v, visible_lem str v) refl

-- `printWSALastError` of the older headers prints what that of the current ones prints, and a
-- newline, for every 32-bit code but ERROR_IO_PENDING.
pub print_wsa_last_error-newline :
    (junk : List ℕ) (last_error : ℕ)
    → last_error < 2 ^ 32
    → last_error ≢ error_io_pending
    → print_wsa_last_error junk last_error
      ≡ (Now.print_wsa_last_error junk last_error >>= λ out. ok (out ++ newline ∷ []))
unfolding print_wsa_last_error Now.print_wsa_last_error
print_wsa_last_error-newline junk last_error is_word other =
    let d = decimal-Printable last_error is_word in
    let apart : (last_error == error_io_pending) ≡ false = ground arith in
    rw
      (
        apart,
        print_text_lem (decimal last_error) junk d.no_zero,
        print_log-Plain (decimal last_error) junk [] d.no_zero d.plain,
      )
      refl

module _ (lib : Library) where
  -- A statement that fails on a connection that is open, whatever the library's error text is: the
  -- older `Query` returns, and prints the text as it is.
  pub query_fails_safely :
      (text reason junk : List ℕ) (d : Database lib)
      → d.connected ≡ true
      → (lib.query (visible text) d.conn).1 ≢ 0
      → lib.error (lib.query (visible text) d.conn).0 ≡ reason ++ 0 ∷ junk
      → NoZero reason
      → query lib text d
        ≡ ok (record d {
          conn = (lib.query (visible text) d.conn).0;
          log = d.log ++ (codes "Faile to Query" ++ newline ∷ []) ∷ (reason ++ newline ∷ []) ∷ [];
        })
  unfolding query log_failure
  query_fails_safely text reason junk d alive failed memory v =
      rw
        (
          alive,
          eq-false _ failed,
          memory,
          print_text_lem (codes "Faile to Query") [] (omega arith),
          print_text_lem reason junk v,
        )
        refl
    where
      eq-false : (n : ℕ) → n ≢ 0 → (n == 0) ≡ false
      eq-false n ne = ground arith
