-- ===== src/Older/Headers.antt =====
-- The inline members of Include/PacketProcess.h, on the headers of Include/PacketDataStructure.h.
use yserver_core.Common.{
  ℕ, List, Bool, true, false, Result, ok, Error, ◌>>=◌, or_fail, ◌==◌, if◌then◌else◌,
}
use yserver_core.Packet as Now
use yserver_core.Packet.Layout.{Reader, read_header}
use yserver_core.Older.Packets.{IoType, Header, new_header, set_type, set_success, set_result}

abbrev from_header : Now.Header → Header
from_header h = record {
  io_type = h.io_type;
  size = h.size;
  success = h.success;
  io_result_info = h.io_result_info;
  padding = h.padding;
}

-- What is read through the pointer that `CastedIO` gives.
unfoldable pub casted_io : {T : Type 0} → Reader T → List ℕ → Result T
casted_io cast packet = or_fail (cast packet) Error.out_of_bounds >>= λ read. ok read.0

unfoldable pub get_header : List ℕ → Result Header
get_header packet = casted_io read_header packet >>= λ (h : Now.Header). ok (from_header h)

unfoldable pub get_success : List ℕ → Result Bool
get_success packet =
    get_header packet >>= λ (h : Header). ok (if h.success == 0 then false else true)

unfoldable pub create_header : List ℕ → IoType → Bool → Header
create_header junk type success = set_success success (set_type type (new_header junk))

unfoldable pub create_header_with : List ℕ → IoType → List ℕ → Bool → Result Header
create_header_with junk type result success =
    set_result result (set_success success (set_type type (new_header junk)))
