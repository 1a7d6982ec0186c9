-- ===== src/Examples/Sessions.antt =====
-- Runs of the sessions of YServerCore/Session.cpp.
use yserver_core.Common.{
  Error, List, [], arith, err, false, length, length-append, map, none, ok, refl, replicate, some,
  take, ℕ, ◌++◌, ◌+◌, ◌<◌, ◌↔◌, ◌∷◌, ◌≡◌, ◌⊎◌, ◌≤◌,
}
use yserver_core.Common.Family.{update}
use yserver_core.Packet.{buf_size, user_info_size}
use yserver_core.Packet.Layout.{user_info_image, move_info_image, read_header}
use yserver_core.Packet.RoundTrip.{length-user_info_image, length-move_info_image}
use yserver_core.Framing.{IoData, IoUsage, cleared, deliver, drain}
use yserver_core.Framing.Termination.{IsStuck, Reaches, drain_diverges}
use yserver_core.Framing.Frames.{short}
use yserver_core.Handlers.{Request, login, move, server_table}
use yserver_core.Handlers.Wire.{is_move, request_image, requests_image}
use yserver_core.Session.{Session, Outcome, Received, buffer_packet, send, send_packet}
use yserver_core.Session.Receive.{
  complete_recv, complete_recvs, Waits, Chunks, images-Arrives, complete_recvs-Arrives,
  complete_recv_drops,
}
use yserver_core.Session.Hostile.{Ends, filled, complete_recv-IsReady}
use yserver_core.Session.Send.{
  Sent, Buffered, buffered, buffered_lem, buffer_packet_branches, send_packet-Sent,
}
use yserver_core.Session.Writers.{
  Writing, Reach, buffers, sends, start, next, wire-taken, buffer_packet_room,
}
use yserver_core.Requests.Answers.{header_of}
use yserver_core.Examples.Data.{
  user, user-IsUserInfo, login_user, login_user-IsUserInfo, login-IsRequest, step_east,
  step_east-IsMoveInfo, fresh, fresh-Waits, fresh-IsReady, fresh-IsIdle, no_error,
}

-- A conversation of two receives.
abbrev conversation : List (List Request)
conversation = (login login_user ∷ []) ∷ (move step_east ∷ []) ∷ []

pub login_length : length (requests_image (login login_user ∷ [])) ≡ 92
unfolding requests_image request_image
login_length = omega (
  arith,
  length-append (user_info_image login_user) [],
  length-user_info_image login_user login_user-IsUserInfo,
)

move_length : length (requests_image (move step_east ∷ [])) ≡ 80
unfolding requests_image request_image
move_length = omega (
  arith,
  length-append (move_info_image step_east) [],
  length-move_info_image step_east step_east-IsMoveInfo,
)

conversation-Chunks : Chunks conversation
conversation-Chunks =
    let moves = is_move step_east step_east-IsMoveInfo (refl, refl) in
    (
      (omega (arith, login_length), omega (arith, login_length), (login-IsRequest, tt)),
      ((omega (arith, move_length), omega (arith, move_length), (moves, tt)), tt),
    )

complete_recvs-Arrives_example :
    (s' : Session) × (complete_recvs 5000 (map requests_image conversation) (fresh 0)
      ≡ ok (s', login login_user ∷ move step_east ∷ []))
    × Waits s' []
complete_recvs-Arrives_example =
    complete_recvs-Arrives 5000 (fresh 0) (omega arith) (fresh-Waits 0)
      (images-Arrives conversation conversation-Chunks)

-- A login and the first ten bytes of a second packet.
abbrev torn : List ℕ
torn = requests_image (login login_user ∷ []) ++ replicate 10 3

length-torn : length torn ≡ 102
length-torn =
    omega
      (arith, login_length, length-append (requests_image (login login_user ∷ [])) (replicate 10 3))

complete_recv_drops_example :
    (r : Received) × (complete_recv 5000 torn (fresh 0) ≡ ok r)
    × (r.requests ≡ login login_user ∷ [])
    × Waits r.session []
complete_recv_drops_example =
    complete_recv_drops 5000 (fresh 0) [] torn (replicate 10 3) (login login_user ∷ [])
      (omega arith) (fresh-Waits 0) (omega (arith, length-torn)) (omega (arith, length-torn))
      (login-IsRequest, tt) refl (short (omega arith))

torn_run :
    (r : Received) × (complete_recv 5000 torn (fresh 0) ≡ ok r)
    × (r.requests ≡ login login_user ∷ [])
    × Waits r.session []
torn_run =
    complete_recv_drops 5000 (fresh 0) [] torn (replicate 10 3) (login login_user ∷ [])
      (omega arith) (fresh-Waits 0) (omega (arith, length-torn)) (omega (arith, length-torn))
      (login-IsRequest, tt) refl (short (omega arith))

fresh_counts : (fresh 0).read.cur_bytes ≡ 0
unfolding fresh
fresh_counts = refl

complete_recv-IsReady_example :
    (mid : IoData) × Reaches server_table (filled torn (fresh 0).read) mid
    × (mid.bytes ≡ (deliver torn (fresh 0).read).bytes)
    × (mid.cur_bytes ≡ (fresh 0).read.cur_bytes + length torn)
    × (mid.data_pointer ≤ mid.cur_bytes)
    × Ends mid (complete_recv 5000 torn (fresh 0))
complete_recv-IsReady_example =
    complete_recv-IsReady 5000 torn (fresh 0) (omega (arith, length-torn)) (fresh-IsReady 0)
      (omega (arith, length-torn, fresh_counts))

-- A login whose header says size 0.
abbrev hollow : List ℕ
hollow = user_info_image (user 3 0)

abbrev hollow_buffer : IoData
hollow_buffer = record (deliver hollow (cleared IoUsage.read)) { cur_bytes = 92; data_pointer = 0 }

drain_diverges_example :
    (drain server_table 93 hollow_buffer ≡ err Error.out_of_fuel)
    ↔ ((last : IoData) × Reaches server_table hollow_buffer last × IsStuck server_table last)
drain_diverges_example = drain_diverges server_table 93 hollow_buffer (omega arith)

length-hollow : length (hollow ++ []) ≡ 92
length-hollow = omega (
  arith,
  length-append hollow [],
  length-user_info_image (user 3 0) (user-IsUserInfo 3 0 (omega arith) (omega arith)),
)

abbrev packet : List ℕ
packet = user_info_image login_user

packet_length : length packet ≡ user_info_size
packet_length = length-user_info_image login_user login_user-IsUserInfo

packet_reads : read_header packet ≡ some (login_user.header, (login_user.id ++ login_user.pw) ++ [])
packet_reads = header_of login_user login_user-IsUserInfo

buffer_packet_branches_example :
    ((buf_size < (fresh 0).write.cur_bytes + 92)
      × (buffer_packet packet (fresh 0).write ≡ err Error.deadlock))
    ⊎ (((length packet < 92) × (buffer_packet packet (fresh 0).write ≡ err Error.out_of_bounds))
        ⊎ ((io' : IoData) × (buffer_packet packet (fresh 0).write ≡ ok io')
            × Buffered packet 92 (fresh 0).write io'))
buffer_packet_branches_example =
    buffer_packet_branches packet _ login_user.header (fresh 0).write packet_reads
      (fresh-IsIdle 0).sized (omega (arith, (fresh-IsIdle 0).counted)) (omega arith)

sent_run :
    (o : Outcome) × (send_packet no_error (some packet) (fresh 0) ≡ ok o)
    × Sent (fresh 0) (take 92 packet) o.session
sent_run =
    send_packet-Sent no_error packet _ login_user.header (fresh 0) (fresh-IsIdle 0) packet_reads
      (omega arith) (omega (arith, packet_length))

-- Thread 1 has buffered its packet; then it has sent it.
abbrev waiting_io : IoData
waiting_io = buffered packet _ login_user.header (fresh 0).write packet_reads

packet_taken : buffer_packet packet (fresh 0).write ≡ ok waiting_io
packet_taken =
    buffered_lem packet _ login_user.header (fresh 0).write packet_reads
      (omega (arith, (fresh-IsIdle 0).counted)) (omega (arith, packet_length))

abbrev buffering : Writing
buffering = record {
  session = record (fresh 0) { write = waiting_io };
  waiting = update (λ _. none) 1 (some 92);
  taken = take 92 packet;
}

buffering-Reach : Reach no_error 4 580 (fresh 0) buffering
buffering-Reach = next start (
    buffers 1 packet _ login_user.header waiting_io (omega arith) refl packet_reads (omega arith)
      (omega arith) packet_taken)

abbrev quiet : Writing
quiet = record {
  session = (send no_error buffering.session).session;
  waiting = update buffering.waiting 1 none;
  taken = buffering.taken;
}

still_open : (send no_error buffering.session).closes ≡ false
unfolding send
still_open = refl

quiet-Reach : Reach no_error 4 580 (fresh 0) quiet
quiet-Reach = next buffering-Reach (sends 1 92 refl still_open)

quiet_waits : (j : ℕ) → quiet.waiting j ≡ none
quiet_waits j = ground arith

wire-taken_example :
    buffering.session.wire ++ take buffering.session.write.cur_bytes buffering.session.write.bytes
    ≡ (fresh 0).wire ++ take 92 packet
wire-taken_example = wire-taken no_error 4 580 (fresh 0) (fresh-IsIdle 0) buffering-Reach

buffer_packet_room_example :
    (io : IoData) × (buffer_packet packet buffering.session.write ≡ ok io)
    × Buffered packet 92 buffering.session.write io
buffer_packet_room_example =
    buffer_packet_room no_error 4 580 (fresh 0) (fresh-IsIdle 0) (omega arith) buffering-Reach 0
      packet _ login_user.header (omega arith) refl packet_reads (omega arith)
      (omega (arith, packet_length))
