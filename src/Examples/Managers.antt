-- ===== src/Examples/Managers.antt =====
-- Runs of the session manager of YServerCore/SessionManager.h.
use yserver_core.Common.{◌≡◌, refl, [], ◌∷◌, some, none, ok, err, Error, arith, take, get_elem?}
use yserver_core.Packet.{user_info_size}
use yserver_core.Packet.Layout.{user_info_image}
use yserver_core.Packet.RoundTrip.{length-user_info_image}
use yserver_core.SessionManager.{Manager, close_session, all_message}
use yserver_core.SessionManager.Numbering.{
  IsManaged, close_session_last-IsManaged, close_session_stale,
}
use yserver_core.SessionManager.Broadcast.{Broadcast, all_message-Broadcast}
use yserver_core.Requests.Answers.{header_of}
use yserver_core.Examples.Data.{
  login_user, login_user-IsUserInfo, two, two-IsManaged, two-IsIdle, no_error, no_error-lt,
}

close_session_last-IsManaged_example :
    (m' : Manager) × (close_session 11 two ≡ ok m') × (m'.heap 11 ≡ none) × IsManaged m'
close_session_last-IsManaged_example = close_session_last-IsManaged 11 1 two two-IsManaged refl refl

close_session_stale_example :
    (m' : Manager) × (close_session 10 two ≡ ok m')
    × (get_elem? m'.sessions 0 ≡ some 11)
    × (m'.session_count ≡ 1)
    × (close_session 11 m' ≡ err Error.out_of_bounds)
close_session_stale_example =
    close_session_stale 10 11 0 1 two two-IsManaged refl refl refl (omega arith)

all_message-Broadcast_example :
    (m' : Manager) × (all_message no_error (user_info_image login_user) two ≡ ok m')
    × (m'.sessions ≡ 10 ∷ 11 ∷ [])
    × (m'.session_count ≡ 2)
    × Broadcast (take user_info_size (user_info_image login_user)) (10 ∷ 11 ∷ []) two.heap m'.heap
all_message-Broadcast_example =
    all_message-Broadcast no_error no_error-lt (user_info_image login_user) _ login_user.header
      (header_of login_user login_user-IsUserInfo) (omega arith)
      (omega (arith, length-user_info_image login_user login_user-IsUserInfo)) two two-IsManaged
      two-IsIdle
