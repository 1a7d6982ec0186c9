-- ===== src/Requests/Moves.antt =====
-- `RecvMoveRequest` and `RecvChatMessage` of YServerCore/PacketProcess.cpp.
use yserver_core.Common.{ℕ, ◌^◌, ◌<◌, ◌≤◌, ◌≡◌, refl, List, some, ok, arith, length, take}
use yserver_core.CString.{visible, c_string}
use yserver_core.Packet.{MoveInfo, code, s_move, set_type, max_id_len, move_info_size}
use yserver_core.Packet.Layout.{read_header, IsMoveInfo, move_info_image}
use yserver_core.Packet.RoundTrip.{length-move_info_image, read_header-header_image}
use yserver_core.Packet.Fields.{set_id_fits}
use yserver_core.Session.{Session}
use yserver_core.SessionManager.Numbering.{IsManaged}
use yserver_core.SessionManager.Replace.{AllIdle}
use yserver_core.SessionManager.Broadcast.{Broadcast, all_message-Broadcast}
use yserver_core.Database.{Mysql, id_of}
use yserver_core.Requests.{World, recv_move_request}
use yserver_core.Requests.Answers.{to_all_ok}

move_header_of :
    (m : MoveInfo)
    → IsMoveInfo m
    → (rest : List ℕ) × (read_header (move_info_image m) ≡ some (m.header, rest))
unfolding move_info_image
move_header_of m v = (_, read_header-header_image m.header _ v.is_header)

moved-IsMoveInfo :
    (m : MoveInfo) → IsMoveInfo m → IsMoveInfo (record m { header = set_type s_move m.header })
unfolding set_type
moved-IsMoveInfo m v = record {
  is_header = record {
    io_type_lt = omega arith;
    size_lt = v.is_header.size_lt;
    info_length = v.is_header.info_length;
    padding_length = v.is_header.padding_length;
  };
  id_length = v.id_length;
  x_lt = v.x_lt;
  y_lt = v.y_lt;
  z_lt = v.z_lt;
}

-- A move as it goes to the sessions: the sender's coordinates under the id of its session.
pub record MoveOf (m : MoveInfo) (id : List ℕ) (m' : MoveInfo) : Type 0 where
  pub io_type : m'.header.io_type ≡ code s_move
  pub size : m'.header.size ≡ m.header.size
  pub named : c_string m'.id ≡ some (visible id)
  pub x : m'.x ≡ m.x
  pub y : m'.y ≡ m.y
  pub z : m'.z ≡ m.z

module _ (last_error : Session → ℕ) (documented : (s : Session) → last_error s < 2 ^ 31)
    (db : Mysql) where
  -- `RecvMoveRequest` from a session whose account's id fits its array, with a header's size of at
  -- most the struct's, a managed vector of idle sessions and no negative error code: it returns;
  -- and every session of the vector is sent the first `Size` bytes of a move with the client's
  -- coordinates under the id of the session's account, whatever id the client put in the packet:
  -- all of it if the size is the struct's, and less if it is smaller.
  pub recv_move_request-MoveOf :
      (p : ℕ) (m : MoveInfo) (w : World db) (s : Session) {id : List ℕ}
      → IsManaged w.manager
      → AllIdle w.manager
      → w.manager.heap p ≡ some s
      → id_of s.user_info ≡ ok id
      → length (visible id) < max_id_len
      → IsMoveInfo m
      → m.header.size ≤ move_info_size
      → (m' : MoveInfo) × (w' : World db) × (recv_move_request last_error db p m w ≡ ok w')
        × MoveOf m id m'
        × Broadcast
            (take m.header.size (move_info_image m'))
            w.manager.sessions
            w.manager.heap
            w'.manager.heap
  unfolding recv_move_request set_type
  recv_move_request-MoveOf p m w s {id} v idle alive named short vm small =
      let typed : MoveInfo = record m { header = set_type s_move m.header } in
      let (id', set, reads, vm') = set_id_fits id typed (moved-IsMoveInfo m vm) short in
      let m' : MoveInfo = record typed { id = id' } in
      let (rest, header) = move_header_of m' vm' in
      let (mgr, sent, _, _, b) =
        all_message-Broadcast last_error documented (move_info_image m') rest m'.header header
          (omega (arith, small)) (omega (arith, small, length-move_info_image m' vm')) w.manager v
          idle in
      (
        m',
        record w { manager = mgr },
        rw (alive, named, set) (to_all_ok last_error documented db (move_info_image m') w sent),
        record { io_type = refl; size = refl; named = reads; x = refl; y = refl; z = refl },
        b,
      )
