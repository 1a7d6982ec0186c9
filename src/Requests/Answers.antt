-- ===== src/Requests/Answers.antt =====
-- The answers that the requests of YServerCore/PacketProcess.cpp send.
use yserver_core.Common.{
  ℕ, ◌^◌, ◌<◌, ◌≤◌, ◌≡◌, refl, ap, sym, ◌∙◌, List, [], ◌++◌, some, ok, err, Error, arith, take,
  append-nil,
}
use yserver_core.Packet.{Header, UserInfo, user_info_size}
use yserver_core.Packet.Layout.{read_header, IsHeader, IsUserInfo, user_info_image}
use yserver_core.Packet.RoundTrip.{length-user_info_image, read_header-user_info_image}
use yserver_core.Session.{Session, Outcome, send_packet}
use yserver_core.Session.Send.{IsIdle, Sent, send_packet-Sent, send_packet_never_closes}
use yserver_core.SessionManager.{Manager, all_message}
use yserver_core.SessionManager.Replace.{with_session}
use yserver_core.Database.{Mysql}
use yserver_core.Requests.{World, send_to, to_all}

pub user_info_set :
    (u : UserInfo) (h : Header) → IsUserInfo u → IsHeader h → IsUserInfo (record u { header = h })
user_info_set u h v vh = record { is_header = vh; id_length = v.id_length; pw_length = v.pw_length }

-- The header of a packet in memory of its own.
pub header_of :
    (u : UserInfo)
    → IsUserInfo u
    → read_header (user_info_image u) ≡ some (u.header, (u.id ++ u.pw) ++ [])
header_of u v =
    ap read_header (sym (append-nil (user_info_image u))) ∙ read_header-user_info_image u [] v

module _ (last_error : Session → ℕ) (documented : (s : Session) → last_error s < 2 ^ 31)
    (db : Mysql) where
  pub to_all_ok :
      (packet : List ℕ) (w : World db) {m : Manager}
      → all_message last_error packet w.manager ≡ ok m
      → to_all last_error db packet w ≡ ok (record w { manager = m })
  unfolding to_all
  to_all_ok packet w e = rw e refl

  send_to_ok :
      (p : ℕ) (packet : List ℕ) (w : World db) (s : Session) (o : Outcome)
      → w.manager.heap p ≡ some s
      → send_packet last_error (some packet) s ≡ ok o
      → send_to last_error db p packet w
        ≡ ok (record w { manager = with_session p o.session w.manager })
  unfolding send_to
  send_to_ok p packet w s o alive sends =
      rw (alive, sends, send_packet_never_closes last_error packet s o documented sends) refl

  pub send_to_fails :
      (p : ℕ) (packet : List ℕ) (w : World db) (s : Session) (e : Error)
      → w.manager.heap p ≡ some s
      → send_packet last_error (some packet) s ≡ err e
      → send_to last_error db p packet w ≡ err e
  unfolding send_to
  send_to_fails p packet w s e alive fails = rw (alive, fails) refl

  -- The answer of a ST_UserInfo to one session.
  pub send_user_info :
      (p : ℕ) (u : UserInfo) (w : World db) (s : Session)
      → w.manager.heap p ≡ some s
      → IsIdle s
      → IsUserInfo u
      → u.header.size ≤ user_info_size
      → (s' : Session) × (send_to last_error db p (user_info_image u) w
          ≡ ok (record w { manager = with_session p s' w.manager }))
        × Sent s (take u.header.size (user_info_image u)) s'
  send_user_info p u w s alive idle v small =
      let (o, sends, sent) =
        send_packet-Sent last_error (user_info_image u) _ u.header s idle (header_of u v)
          (omega arith) (omega (arith, length-user_info_image u v)) in
      (o.session, send_to_ok p (user_info_image u) w s o alive sends, sent)
