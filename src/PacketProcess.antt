-- ===== src/PacketProcess.antt =====
-- The class of YServerCore/PacketProcess.h apart from its handlers: the one instance, and what makes
-- and reads headers.
pub mod Headers
use yserver_core.Common.{
  ℕ, List, Option, none, some, Bool, true, false, Result, ok, Error, ◌>>=◌, or_fail, ◌==◌,
  if◌then◌else◌,
}
use yserver_core.Packet.{IoType, Header, ChatMessage, new_header, set_type, set_success, set_result}
use yserver_core.Packet.Layout.{Reader, read_header}
use yserver_core.Framing.{Table}
use yserver_core.Handlers.{Request, server_table}

-- The member `Handler` that the constructor sets.
unfoldable pub new_packet_process : Table Request
new_packet_process = server_table

-- The destructor, whose body is empty.
unfoldable pub destroy_packet_process : Table Request → Result (Unit {0})
destroy_packet_process table = ok tt

-- `Get`: the static instance is made by the first call.
unfoldable pub get : Option (Table Request) → Table Request
get none = new_packet_process
get (some table) = table

-- What is read through the pointer that `CastedIO` gives.
unfoldable pub casted_io : {T : Type 0} → Reader T → List ℕ → Result T
casted_io cast packet = or_fail (cast packet) Error.out_of_bounds >>= λ read. ok read.0

unfoldable pub get_header : List ℕ → Result Header
get_header packet = casted_io read_header packet

unfoldable pub get_success : List ℕ → Result Bool
get_success packet =
    casted_io read_header packet >>= λ (h : Header). ok (if h.success == 0 then false else true)

-- The padding of the local is what the memory held.
unfoldable pub create_header : List ℕ → IoType → Bool → Header
create_header junk type success = set_success success (set_type type (new_header junk))

unfoldable pub create_header_with : List ℕ → IoType → List ℕ → Bool → Result Header
create_header_with junk type result success =
    set_result result (set_success success (set_type type (new_header junk)))

-- `PrintMsg` of the server: its body is commented out.
unfoldable pub print_msg : ChatMessage → List (List ℕ) → List (List ℕ)
print_msg msg printed = printed
