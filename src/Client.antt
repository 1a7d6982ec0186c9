-- ===== src/Client.antt =====
-- Client/Client/Client.h and Client/Client/Client.cpp: the receiving side of the client, what it
-- sends, and the messages that the two consoles of Client/Client/Main.cpp and Server/main.cpp make.
pub mod Conversation
pub mod Failures
pub mod Consoles
pub mod Setup
use yserver_core.Common.{
  ℕ, zero, suc, ◌+◌, ◌-◌, ◌^◌, Bool, true, false, StdThread, not_started, started, stopped, join,
  leb, replicate, List, [], ◌∷◌, ◌++◌, Option, none, some, Result, ok, err, Error, ◌>>=◌, ltb, ◌==◌,
  if◌then◌else◌, length, take,
}
use yserver_core.CString.{codes}
use yserver_core.Packet.{
  IoType, ChatMessage, UserInfo, code, s_chat, buf_size, chat_message_size, new_chat_message,
  set_type, set_message, set_info,
}
use yserver_core.Packet.Layout.{Reader, read_header, read_chat_message, user_info_image}
use yserver_core.Framing.{IoData, IoUsage, Table, cleared, absorb, deliver}
use yserver_core.Handlers.{handle_data}

-- `Client::SetHandler`: one of the ten slots. What is started is `PrintMsg` of a copy of the packet.
unfoldable pub client_handler : ℕ → Option (Reader ChatMessage)
client_handler t = if t == code s_chat then some (handle_data read_chat_message (λ m. m)) else none

abbrev pub client_table : Table ChatMessage
client_table = record { slots = 10; handler = client_handler }

-- What `recv` does: it writes bytes to the buffer that it was handed, none if the server has closed
-- the connection, or fails with -1.
pub data Recv : Type 0 where
  got : List ℕ → Recv
  failed : Recv

-- The result, an int, as it is added to a size_t.
abbrev pub recv_result : Recv → ℕ
recv_result (got chunk) = length chunk
recv_result failed = 2 ^ 64 - 1

abbrev pub recv_into : Recv → IoData → IoData
recv_into (got chunk) io = deliver chunk io
recv_into failed io = io

-- One round of `RecieveWork` over a table, and over the one of `SetHandler`; the loop while `Running`
-- holds.
unfoldable pub recieve_with :
    Table ChatMessage → ℕ → Recv → IoData → Result (IoData × List ChatMessage)
recieve_with table fuel r io =
    absorb table fuel (recv_result r) (recv_into r (record io { usage = IoUsage.read }))

unfoldable pub recieve_round : ℕ → Recv → IoData → Result (IoData × List ChatMessage)
recieve_round fuel r io = recieve_with client_table fuel r io

unfoldable pub recieve_work : ℕ → List Recv → IoData → Result (IoData × List ChatMessage)
recieve_work fuel [] io = ok (io, [])
recieve_work fuel (r ∷ rs) io = recieve_round fuel r io >>= λ (now : IoData × List ChatMessage).
    recieve_work fuel rs now.0 >>= λ (later : IoData × List ChatMessage).
    ok (later.0, now.1 ++ later.1)

-- The bytes that a send of `len` bytes takes from the memory at a pointer.
unfoldable pub bytes_at : ℕ → List ℕ → Result (List ℕ)
bytes_at len memory =
    if ltb (length memory) len then err Error.out_of_bounds else ok (take len memory)

unfoldable pub send_to_server : List ℕ → Result (List ℕ)
send_to_server memory = elim (read_header memory) [
  | none ↦ err Error.out_of_bounds
  | some (h, _) ↦ bytes_at h.size memory
]

-- The length of the send is that of a whole buffer.
unfoldable pub send_user_info : UserInfo → Result (List ℕ)
send_user_info info = set_info (codes "YuChoongHo") (codes "YuChoongHo") info >>= λ u.
    bytes_at buf_size (user_info_image u)

-- A message of a console: `t` is C_Chat for the client's, S_Chat for the server's; `name` is "Client"
-- or "Server". The first three lists are the memory of the local, which is not initialised.
unfoldable pub console_message :
    List ℕ → List ℕ → List ℕ → IoType → List ℕ → List ℕ → Result ChatMessage
console_message padding id message t name text =
    let m = new_chat_message padding id message in
    set_message name text
      (record m { header = record (set_type t m.header) { size = chat_message_size } })

-- The table before `SetHandler`, which runs when the receiving thread has been started.
abbrev pub unset_table : Table ChatMessage
unset_table = record { slots = 10; handler = λ t. none }

-- ST_HandleData, and `Process` of one, which has no caller: the call of an empty std::function throws.
pub record HandleData : Type 0 where
  pub io_type : ℕ
  pub size : ℕ
  pub bytes : List ℕ

unfoldable pub process : Table ChatMessage → HandleData → IoData → Result (IoData × ChatMessage)
process table d io =
    if leb table.slots d.io_type then err Error.out_of_bounds else elim (table.handler d.io_type) [
      | none ↦ err Error.terminated
      | some cast ↦ elim (cast d.bytes) [
        | none ↦ err Error.out_of_bounds
        | some (m, _) ↦ ok (record io { data_pointer = io.data_pointer + d.size }, m)
      ]
    ]

-- `PrintMsg`: its static count goes up, and the numbers below it are printed.
abbrev pub count_from : ℕ → ℕ → List ℕ
count_from i zero = []
count_from i (suc n) = i ∷ count_from (i + 1) n

unfoldable pub print_msg : ℕ → ℕ × List ℕ
print_msg count = (count + 1, count_from 1 count)

-- The class. `IODatas[Write]` is used for its OVERLAPPED only.
pub record Client : Type 0 where
  pub client_socket : Option ℕ
  pub recieve_thread : StdThread
  pub read : IoData
  pub write : IoData
  pub handle_data_queue : List HandleData
  pub handler_set : Bool
  pub running : Bool
  pub log : List (List ℕ)

unfoldable pub new_client : Client
new_client = record {
  client_socket = none;
  recieve_thread = not_started;
  read = cleared IoUsage.error;
  write = cleared IoUsage.error;
  handle_data_queue = [];
  handler_set = false;
  running = false;
  log = [];
}

abbrev pub print_log : List ℕ → Client → Client
print_log text u = record u { log = u.log ++ text ∷ [] }

-- What the system's calls give: `WSAStartup`, `WSASocket` and `WSAConnect`.
pub record ClientCalls : Type 0 where
  pub started : Bool
  pub socket : Option ℕ
  pub connects : Bool

unfoldable pub create_client_socket : ClientCalls → Client → Client × Bool
create_client_socket c u =
    if c.started
    then elim c.socket [
      | none ↦ (
        print_log (codes "Fail to Create Client Socket") (record u { client_socket = none }),
        false,
      )
      | some k ↦ (
        record u { client_socket = some k; read = record u.read { bytes = replicate buf_size 0 } },
        true,
      )
    ]
    else (print_log (codes "Fail to Init WinSock") u, false)

unfoldable pub connect_to_server : ClientCalls → Client → Client × Bool
connect_to_server c u =
    if c.connects
    then (record u { running = true; recieve_thread = started; handler_set = true }, true)
    else (print_log (codes "Fail to Connect") u, false)

unfoldable pub destroy_client : Client → Result Client
destroy_client u =
    join (stopped u.recieve_thread) >>= λ _. ok (record u { running = false; client_socket = none })
