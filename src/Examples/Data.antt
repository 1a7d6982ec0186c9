-- ===== src/Examples/Data.antt =====
-- Sample packets, sessions and managers of the server's types.
use yserver_core.Common.{
  not_started, true, ℕ, zero, suc, ◌^◌, ◌<◌, ◌≡◌, refl, [], ◌∷◌, ◌++◌, none, some, replicate, arith,
  eq_of_some, get_elem?, ◌≢◌, ap, ◌∙◌,
}
use yserver_core.CString.{codes}
use yserver_core.Packet.{
  Header, UserInfo, MoveInfo, code, c_login, c_move, user_info_size, move_info_size,
}
use yserver_core.Packet.Layout.{IsHeader, IsUserInfo, IsMoveInfo}
use yserver_core.Framing.{IoUsage, cleared}
use yserver_core.Framing.Bounds.{IsReady}
use yserver_core.Framing.Reassembly.{cleared-Holds}
use yserver_core.Handlers.{login}
use yserver_core.Handlers.Wire.{IsRequest, is_login}
use yserver_core.Session.{Session, SessionState}
use yserver_core.Session.Receive.{Waits}
use yserver_core.Session.Send.{IsIdle}
use yserver_core.Requests.{Junk}
use yserver_core.Requests.Accounts.{IsJunk}
use yserver_core.SessionManager.{Manager, store}
use yserver_core.SessionManager.Numbering.{IsManaged, Placed}

abbrev pub header : ℕ → ℕ → Header
header type size = record {
  io_type = type;
  size = size;
  success = 0;
  io_result_info = replicate 32 0;
  padding = 0 ∷ 0 ∷ 0 ∷ [];
}

abbrev pub user : ℕ → ℕ → UserInfo
user type size = record {
  header = header type size;
  id = codes "ann" ++ replicate 21 0;
  pw = codes "pw" ++ replicate 22 0;
}

pub header-IsHeader : (type size : ℕ) → type < 2 ^ 32 → size < 2 ^ 32 → IsHeader (header type size)
header-IsHeader type size t s = record {
  io_type_lt = t;
  size_lt = s;
  info_length = refl;
  padding_length = refl;
}

pub user-IsUserInfo : (type size : ℕ) → type < 2 ^ 32 → size < 2 ^ 32 → IsUserInfo (user type size)
user-IsUserInfo type size t s = record {
  is_header = header-IsHeader type size t s;
  id_length = refl;
  pw_length = refl;
}

abbrev pub login_user : UserInfo
login_user = user (code c_login) user_info_size

pub login_user-IsUserInfo : IsUserInfo login_user
login_user-IsUserInfo = user-IsUserInfo 3 92 (omega arith) (omega arith)

pub login-IsRequest : IsRequest (login login_user)
login-IsRequest = is_login login_user login_user-IsUserInfo (refl, refl)

abbrev pub step_east : MoveInfo
step_east = record {
  header = header (code c_move) move_info_size;
  id = codes "bob" ++ replicate 21 0;
  x = 1;
  y = 0;
  z = 0;
}

pub step_east-IsMoveInfo : IsMoveInfo step_east
step_east-IsMoveInfo = record {
  is_header = header-IsHeader 7 80 (omega arith) (omega arith);
  id_length = refl;
  x_lt = omega arith;
  y_lt = omega arith;
  z_lt = omega arith;
}

-- A session that was just accepted.
unfoldable pub fresh : ℕ → Session
fresh number = record {
  socket_data = record { socket = 5; sock_addr = [] };
  read = cleared IoUsage.read;
  write = cleared IoUsage.write;
  session_id = number;
  user_info = login_user;
  session_state = SessionState.wait;
  wire = [];
}

pub fresh-Waits : (number : ℕ) → Waits (fresh number) []
unfolding fresh
fresh-Waits number = cleared-Holds IoUsage.read

pub fresh-IsReady : (number : ℕ) → IsReady (fresh number).read
unfolding fresh
fresh-IsReady number = record {
  pointer = refl;
  counted = omega arith;
  sized = (cleared-Holds IoUsage.read).sized;
}

pub fresh-IsIdle : (number : ℕ) → IsIdle (fresh number)
unfolding fresh
fresh-IsIdle number = record { counted = refl; sized = (cleared-Holds IoUsage.write).sized }

-- A manager of two sessions, at the pointers 10 and 11, and a third session at 12.
abbrev pub two : Manager
two = record {
  heap =
      store (store (store (λ p. none) 10 (some (fresh 0))) 11 (some (fresh 1))) 12 (some (fresh 0));
  sessions = 10 ∷ 11 ∷ [];
  session_count = 2;
  heart_beat_thread = not_started;
  running = true;
}

fresh-number : (number : ℕ) → (fresh number).session_id ≡ number
unfolding fresh
fresh-number number = refl

two-Placed : (i p : ℕ) → get_elem? two.sessions i ≡ some p → Placed two i p
two-Placed zero p e =
    let at : 10 ≡ p = eq_of_some e in
    rw (← at) (record { session = fresh 0; stored = refl; numbered = fresh-number 0 })
two-Placed (suc zero) p e =
    let at : 11 ≡ p = eq_of_some e in
    rw (← at) (record { session = fresh 1; stored = refl; numbered = fresh-number 1 })
two-Placed (suc (suc i)) p e = absurd (cc)

pub two-IsManaged : IsManaged two
two-IsManaged = record { counted = refl; placed = two-Placed }

pub two-IsIdle :
    (i p : ℕ) (s : Session) → get_elem? two.sessions i ≡ some p → two.heap p ≡ some s → IsIdle s
two-IsIdle zero p s e stored =
    let at : 10 ≡ p = eq_of_some e in
    let s_is : fresh 0 ≡ s = eq_of_some (ap two.heap at ∙ stored) in rw (← s_is) (fresh-IsIdle 0)
two-IsIdle (suc zero) p s e stored =
    let at : 11 ≡ p = eq_of_some e in
    let s_is : fresh 1 ≡ s = eq_of_some (ap two.heap at ∙ stored) in rw (← s_is) (fresh-IsIdle 1)
two-IsIdle (suc (suc i)) p s e stored = absurd (cc)

-- The third session is not yet in the vector.
pub two-without : (i : ℕ) → get_elem? two.sessions i ≢ some 12
two-without zero e = absurd (ground arith)
two-without (suc zero) e = absurd (ground arith)
two-without (suc (suc i)) e = absurd (cc)

-- No error code.
abbrev pub no_error : Session → ℕ
no_error s = 0

pub no_error-lt : (s : Session) → no_error s < 2 ^ 31
no_error-lt s = omega arith

-- The memory of a local that is not initialised.
abbrev pub junk : Junk
junk = record { padding = replicate 3 204; id = replicate 24 204; pw = replicate 24 204 }

pub junk-IsJunk : IsJunk junk
junk-IsJunk = record { padding_length = refl; id_length = refl; pw_length = refl }
