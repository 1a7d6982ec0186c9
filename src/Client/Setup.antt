-- ===== src/Client/Setup.antt =====
-- The start and the end of the client, Client/Client/Client.cpp, and what its thread receives before
-- the handler is set.
use yserver_core.Common.{
  ℕ, suc, ◌<◌, ◌≡◌, ◌⊎◌, inl, inr, refl, ap, ◌∙◌, List, [], ◌++◌, none, true, false, ok, err, Error,
  started, arith, length, length-append, append_assoc, length-replicate, Bool-cases,
}
use yserver_core.Packet.{new_header, max_result_msg_len, ChatMessage, buf_size}
use yserver_core.Packet.Layout.{read_header, IsHeader}
use yserver_core.Framing.{IoData, Table}
use yserver_core.Framing.Frames.{IsFrame}
use yserver_core.Framing.Reassembly.{Holds, receive}
use yserver_core.Framing.Unhandled.{IsUnhandled, receive_unhandled}
use yserver_core.SessionManager.{beat}
use yserver_core.Packet.RoundTrip.{read_header-header_image, length-header_image}
use yserver_core.Client.{recieve_round, client_handler}
use yserver_core.Client.{
  Client, ClientCalls, client_table, unset_table, got, recieve_with, new_client,
  create_client_socket, connect_to_server, destroy_client,
}
use yserver_core.Client.Conversation.{reading, reading-Holds}

-- The client of a main function, whose two calls' results are not looked at.
abbrev pub opened : ClientCalls → Client
opened c = (connect_to_server c (create_client_socket c new_client).0).0

destroy_unconnected :
    (c : ClientCalls) → c.connects ≡ false → destroy_client (opened c) ≡ err Error.terminated
unfolding destroy_client connect_to_server create_client_socket new_client
destroy_unconnected c e = ground arith

destroy_started :
    (u : Client)
    → u.recieve_thread ≡ started
    → destroy_client u ≡ ok (record u { running = false; client_socket = none })
unfolding destroy_client
destroy_started u e = rw e refl

opened_started : (c : ClientCalls) → c.connects ≡ true → (opened c).recieve_thread ≡ started
unfolding connect_to_server create_client_socket new_client
opened_started c e = rw e refl

destroy_connected :
    (c : ClientCalls)
    → c.connects ≡ true
    → (u : Client) × (destroy_client (opened c) ≡ ok u)
      × (u.client_socket ≡ none)
      × (u.running ≡ false)
destroy_connected c e = (
  record (opened c) { running = false; client_socket = none },
  destroy_started (opened c) (opened_started c e),
  refl,
  refl,
)

-- The destructor after the two calls of the main function: if the client connected, it joins the
-- thread and closes the socket; if not, it ends in `std::terminate`.
pub destroy_client_lem :
    (c : ClientCalls)
    → ((c.connects ≡ true)
        × ((u : Client) × (destroy_client (opened c) ≡ ok u)
            × (u.client_socket ≡ none)
            × (u.running ≡ false)))
      ⊎ ((c.connects ≡ false) × (destroy_client (opened c) ≡ err Error.terminated))
destroy_client_lem c = elim (Bool-cases c.connects) [
  | inl e ↦ inl (e, destroy_connected c e)
  | inr e ↦ inr (e, destroy_unconnected c e)
]

recieve_with-receive :
    (table : Table ChatMessage) (fuel : ℕ) (chunk : List ℕ) (io : IoData)
    → recieve_with table fuel (got chunk) io ≡ receive table fuel chunk (reading io)
unfolding recieve_with receive
recieve_with-receive table fuel chunk io = refl

frame-IsUnhandled :
    (frame more : List ℕ) (m : ChatMessage)
    → IsFrame client_table frame m
    → IsUnhandled unset_table (frame ++ more)
frame-IsUnhandled frame more m f = record {
  header = f.header;
  long = omega (arith, f.long, length-append frame more);
  reads = λ rest.
      let (after, e) = f.reads (more ++ rest) in
      (after, ap read_header (append_assoc frame more rest) ∙ e);
  known = f.known;
  unset = refl;
}

-- A receive into an empty buffer, before `ConnectToServer` has called `SetHandler`, that begins
-- with a whole message and does not fill the buffer: the client handles none of its messages and
-- leaves the buffer empty, with any fuel above 0.
pub recieve_with_unset :
    (fuel : ℕ) (io : IoData) (frame more : List ℕ) (m : ChatMessage)
    → Holds io []
    → IsFrame client_table frame m
    → length (frame ++ more) < buf_size
    → (io' : IoData) × (recieve_with unset_table (suc fuel) (got (frame ++ more)) io ≡ ok (io', []))
      × Holds io' []
recieve_with_unset fuel io frame more m empty f room =
    let (io', e, h) =
      receive_unhandled unset_table (reading io) (frame ++ more) (reading-Holds io [] empty) room
        (frame-IsUnhandled frame more m f) fuel in
    (io', recieve_with-receive unset_table (suc fuel) (frame ++ more) io ∙ e, h)

beat-IsHeader : (junk : List ℕ) → length junk ≡ 3 → IsHeader (new_header junk)
beat-IsHeader junk sized = record {
  io_type_lt = omega arith;
  size_lt = omega arith;
  info_length = length-replicate {A = ℕ} max_result_msg_len 0;
  padding_length = sized;
}

beat-IsUnhandled :
    (junk more : List ℕ) → length junk ≡ 3 → IsUnhandled client_table (beat junk ++ more)
unfolding beat client_handler
beat-IsUnhandled junk more sized =
    let v = beat-IsHeader junk sized in
    record {
      header = new_header junk;
      long = omega (arith, length-append (beat junk) more, length-header_image (new_header junk) v);
      reads = λ rest. (
        more ++ rest,
        ap read_header (append_assoc (beat junk) more rest)
            ∙ read_header-header_image (new_header junk) (more ++ rest) v,
      );
      known = omega arith;
      unset = refl;
    }

-- A receive into an empty buffer that begins with a heartbeat and does not fill the buffer: the
-- client handles nothing that came with it, and leaves the buffer empty.
pub recieve_round-beat :
    (fuel : ℕ) (io : IoData) (junk more : List ℕ)
    → Holds io []
    → length junk ≡ 3
    → length (beat junk ++ more) < buf_size
    → (io' : IoData) × (recieve_round (suc fuel) (got (beat junk ++ more)) io ≡ ok (io', []))
      × Holds io' []
unfolding recieve_round
recieve_round-beat fuel io junk more empty sized room =
    let (io', e, h) =
      receive_unhandled client_table (reading io) (beat junk ++ more) (reading-Holds io [] empty)
        room (beat-IsUnhandled junk more sized) fuel in
    (io', recieve_with-receive client_table (suc fuel) (beat junk ++ more) io ∙ e, h)
