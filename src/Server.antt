-- ===== src/Server.antt =====
-- YServerCore/Server.h and YServerCore/Server.cpp: the server's start, and the clients that it
-- accepts. What the calls of the system give is an argument: `Calls` for the start, and for each
-- accept whether there is a socket and whether the port takes it.
pub mod Start
pub mod Accepts
pub mod Rounds
use yserver_core.Common.{
  ℕ, List, [], ◌∷◌, ◌++◌, Option, none, some, StdThread, started, ended, join, ◌>>◌, Bool, true,
  false, Result, ok, Error, ◌>>=◌, or_fail, if◌then◌else◌,
}
use yserver_core.CString.{codes}
use yserver_core.Packet.{UserInfo}
use yserver_core.Framing.{IoUsage, WsaBuf, cleared}
use yserver_core.Session.{Session, SessionState, SocketData, on_accept, ready_to_recieve}
use yserver_core.Threads.{Thread, destroy_thread}
use yserver_core.SessionManager.{Manager, store, add_session}

-- The completion port, `WSAStartup`, the socket, `bind` and `listen`; `none` and `false` are the
-- failures.
pub record Calls : Type 0 where
  pub port : Option ℕ
  pub started : Bool
  pub socket : Option ℕ
  pub bound : Bool
  pub listens : Bool

-- `receives` has the receives that were started, in order: the session and its buffer. The list of
-- sessions of the class is never used.
pub record Server : Type 0 where
  pub iocp : Option ℕ
  pub listen_socket : Option ℕ
  pub accept_thread : StdThread
  pub manager : Manager
  pub receives : List (ℕ × WsaBuf)
  pub log : List (List ℕ)

abbrev pub print_log : List ℕ → Server → Server
print_log text s = record s { log = s.log ++ text ∷ [] }

unfoldable pub create_listen_socket : Calls → Server → Server × Bool
create_listen_socket c s =
    if c.started
    then with_socket (c.socket)
    else (print_log (codes "Failed to Init WindSock\n") s, false)
  where
    with_socket : Option ℕ → Server × Bool
    with_socket none = (
      print_log (codes "Failed to Create Listen Socket\n") (record s { listen_socket = none }),
      false,
    )
    with_socket (some socket) =
        let s' : Server = record s { listen_socket = some socket } in
        if c.bound
        then if c.listens
          then (print_log (codes "Creating Socket Complete\n") s', true)
          else (print_log (codes "Listen State Error\n") s', false)
        else (print_log (codes "Socket Bind Error\n") s', false)

-- The threads have their server, so that `Thread::Initialize` succeeds.
unfoldable pub run : Calls → Server → Server × Bool
run c s = with_port c.port
  where
    listening : Server × Bool → Server × Bool
    listening (s', true) = (record s' { accept_thread = started }, true)
    listening (s', false) = (print_log (codes "Failed to Create ListenSocket\n") s', false)

    with_port : Option ℕ → Server × Bool
    with_port none = (print_log (codes "Failed to Create IOCP\n") (record s { iocp = none }), false)
    with_port (some port) = listening (create_listen_socket c (record s { iocp = some port }))

-- `new Session()`: its socket's data and its account are what the memory held.
unfoldable pub new_session : SocketData → UserInfo → Session
new_session d u = record {
  socket_data = d;
  read = cleared IoUsage.error;
  write = cleared IoUsage.error;
  session_id = 0;
  user_info = u;
  session_state = SessionState.wait;
  wire = [];
}

-- An accepted socket: the pointer that `new` gives, what its memory held, and whether the completion
-- port takes the socket.
pub record Accepted : Type 0 where
  pub pointer : ℕ
  pub memory : Session
  pub socket_data : SocketData
  pub associated : Bool

-- The number of a session is printed in decimal, which is left out of the text.
unfoldable pub start_receiving : ℕ → Server → Manager → Result (Server × Bool)
start_receiving p s m = or_fail (m.heap p) Error.use_after_free >>= λ session. ok (
  print_log (codes "Connect Client ") (record s {
    manager = record m { heap = store m.heap p (some (ready_to_recieve session).0) };
    receives = s.receives ++ (p, (ready_to_recieve session).1) ∷ [];
  }),
  true,
)

-- A session whose socket the port does not take is deleted.
unfoldable pub accept : Accepted → Server → Result (Server × Bool)
accept a s =
    let session = on_accept a.socket_data (new_session a.memory.socket_data a.memory.user_info) in
    if a.associated
    then (add_session a.pointer
          (record s.manager { heap = store s.manager.heap a.pointer (some session) })
        >>= λ m. start_receiving a.pointer s m)
    else ok (
      print_log (codes "Fail to Connect IoCompletionPort\n")
          (record s { manager = record s.manager { heap = store s.manager.heap a.pointer none } }),
      false,
    )

-- `AcceptWork`: the loop ends at the first `WSAAccept` that fails, or with the process. The result of
-- `OnAccept` is not looked at.
unfoldable pub accept_work : List (Option Accepted) → Server → Result Server
accept_work [] s = ok s
accept_work (none ∷ rounds) s =
    ok (record (print_log (codes "Accept Error\n") (print_log (codes "Wait Client\n") s)) {
      accept_thread = ended;
    })
accept_work (some a ∷ rounds) s =
    accept a (print_log (codes "Wait Client\n") s) >>= λ (r : Server × Bool). accept_work rounds r.0

-- The destructor, which waits for `AcceptWork`: its body, then that of the member `ThreadManager`.
unfoldable pub destroy_server : Thread → Server → Result Server
destroy_server t s = do
  join s.accept_thread
  t' ← destroy_thread t
  ok (record s { accept_thread = ended; listen_socket = none })
