-- ===== src/Session.antt =====
-- YServerCore/Session.h and YServerCore/Session.cpp: one client's connection. What `WSASend` is
-- handed is kept in `wire`, in order; the system is taken to send it, and to copy a buffer before
-- `WSASend` returns. `closes` says that the code calls `SessionManager::CloseSession` on the
-- session; the manager, which owns the sessions, carries it out.
pub mod Receive
pub mod Hostile
pub mod Send
pub mod Writers
use yserver_core.Common.{
  ℕ, ◌+◌, ◌-◌, ◌%◌, ◌^◌, List, [], ◌∷◌, ◌++◌, Option, none, some, Bool, true, false, Result, ok,
  err, Error, ◌>>=◌, ltb, ◌==◌, if◌then◌else◌, length, take, write_at,
}
use yserver_core.Packet.{UserInfo, buf_size}
use yserver_core.Packet.Layout.{read_header}
use yserver_core.Framing.{IoUsage, IoData, WsaBuf, cleared, absorb, deliver, size_mod}
use yserver_core.Handlers.{Request, server_table}

pub record SocketData : Type 0 where
  pub socket : ℕ
  pub sock_addr : List ℕ

pub data SessionState : Type 0 where
  wait connect login : SessionState

-- `IODatas[Read]` and `IODatas[Write]`; the third entry is never used.
pub record Session : Type 0 where
  pub socket_data : SocketData
  pub read : IoData
  pub write : IoData
  pub session_id : ℕ
  pub user_info : UserInfo
  pub session_state : SessionState
  pub wire : List ℕ

-- The session that a call leaves, and whether the call closes it.
pub record Outcome : Type 0 where
  pub session : Session
  pub closes : Bool

unfoldable pub set_io_data_usage : Session → Session
set_io_data_usage s = record s { read = cleared IoUsage.read; write = cleared IoUsage.write }

unfoldable pub on_accept : SocketData → Session → Session
on_accept d s = set_io_data_usage (record s { socket_data = d })

-- The destructor: the sockets that were closed so far, and this one.
unfoldable pub destroy_session : List ℕ → Session → List ℕ
destroy_session closed s = closed ++ s.socket_data.socket ∷ []

unfoldable pub set_user_info : UserInfo → Session → Session
set_user_info u s = record s { user_info = u }

unfoldable pub set_session_state : SessionState → Session → Session
set_session_state state s = record s { session_state = state }

-- The next receive goes behind the bytes that are counted, up to the end of the buffer.
unfoldable pub ready_to_recieve : Session → Session × WsaBuf
ready_to_recieve s = (
  record s { read = record s.read { usage = IoUsage.read } },
  record { buf = s.read.cur_bytes; len = buf_size - s.read.cur_bytes },
)

-- What a completed receive leaves: the session, the buffer of the next receive, and the requests
-- that were started.
pub record Received : Type 0 where
  pub session : Session
  pub buffer : WsaBuf
  pub requests : List Request

abbrev pub after_recv : Session → IoData × List Request → Received
after_recv s (io, requests) = record {
  session = (ready_to_recieve (record s { read = io })).0;
  buffer = (ready_to_recieve (record s { read = io })).1;
  requests = requests;
}

-- With nothing received the session is closed, which deletes it, and the code goes on with it.
unfoldable pub on_recv : ℕ → ℕ → Session → Result Received
on_recv fuel transfer_size s =
    if transfer_size == 0
    then err Error.use_after_free
    else absorb server_table fuel transfer_size s.read >>= λ r. ok (after_recv s r)

unfoldable pub on_send : ℕ → Session → Outcome
on_send transfer_size s = record { session = s; closes = transfer_size == 0 }

-- SOCKET_ERROR, -1 as a 32-bit int.
abbrev pub socket_error : ℕ
socket_error = 2 ^ 32 - 1

-- The first block of `SendPacket`, behind the bytes that wait in the write buffer. The packet is
-- the memory at the pointer. A packet that does not fit makes the call sleep and call itself with
-- the mutex locked.
unfoldable pub buffer_packet : List ℕ → IoData → Result IoData
buffer_packet packet io = elim (read_header packet) [
  | none ↦ err Error.out_of_bounds
  | some (h, _) ↦
      if ltb buf_size ((io.cur_bytes + h.size) % size_mod)
      then err Error.deadlock
      else if ltb (length packet) h.size
      then err Error.out_of_bounds
      else ok (record io {
        bytes = write_at io.cur_bytes (take h.size packet) io.bytes;
        cur_bytes = io.cur_bytes + h.size;
      })
]

-- `last_error` is what `WSAGetLastError` says after the `WSASend` of the session.
module _ (last_error : Session → ℕ) where
  -- The bytes of the write buffer go to `WSASend`, whose result is not looked at.
  unfoldable pub send : Session → Outcome
  send s = record {
    session = record s {
      wire = s.wire ++ take s.write.cur_bytes s.write.bytes;
      write = record s.write { cur_bytes = 0 };
    };
    closes = last_error s == socket_error;
  }

  -- `none` is a null pointer.
  unfoldable pub send_packet : Option (List ℕ) → Session → Result Outcome
  send_packet none s = ok (record { session = s; closes = false })
  send_packet (some packet) s =
      buffer_packet packet s.write >>= λ io. ok (send (record s { write = io }))
