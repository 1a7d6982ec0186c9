-- ===== src/Older/Sessions.antt =====
-- Include/Session.h: the session of the older headers, whose buffers have no data pointer and are not
-- cleared when a client is accepted.
use yserver_core.Common.{ℕ, List}
use yserver_core.Older.Packets.{UserInfo}

pub record SocketData : Type 0 where
  pub socket : ℕ
  pub sock_addr : List ℕ

pub data IoUsage : Type 0 where
  read write error : IoUsage

pub data SessionState : Type 0 where
  wait connect login : SessionState

pub record IoData : Type 0 where
  pub usage : IoUsage
  pub total_bytes : ℕ
  pub cur_bytes : ℕ
  pub bytes : List ℕ

-- The buffers at `Read` and `Write`.
pub record Session : Type 0 where
  pub socket_data : SocketData
  pub read : IoData
  pub write : IoData
  pub session_id : ℕ
  pub user_info : UserInfo
  pub session_state : SessionState

unfoldable pub set_io_data_usage : Session → Session
set_io_data_usage s = record s {
  read = record s.read { usage = IoUsage.read };
  write = record s.write { usage = IoUsage.write };
}

unfoldable pub set_user_info : UserInfo → Session → Session
set_user_info userinfo s = record s { user_info = userinfo }

unfoldable pub set_session_state : SessionState → Session → Session
set_session_state state s = record s { session_state = state }
