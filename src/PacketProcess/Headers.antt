-- ===== src/PacketProcess/Headers.antt =====
-- `CreateHeader`, `GetHeader` and `GetSuccess` of YServerCore/PacketProcess.h.
use yserver_core.Common.{
  ℕ, ◌<◌, ◌≡◌, refl, ap, ◌∙◌, List, ◌++◌, Bool, true, false, ok, arith, length, length-replicate,
  Result-cases, inl, inr, if◌then◌else◌, ◌==◌,
}
use yserver_core.CString.{visible, strcpy_s}
use yserver_core.Packet.{
  IoType, Header, max_result_msg_len, new_header, set_header, set_result, set_success, set_type,
}
use yserver_core.Packet.Layout.{IsHeader, header_image}
use yserver_core.Packet.Fields.{HeaderSet, set_header_fits}
use yserver_core.Packet.RoundTrip.{read_header-header_image}
use yserver_core.PacketProcess.{casted_io, get_header, get_success, create_header_with}

new_header-IsHeader : (junk : List ℕ) → length junk ≡ 3 → IsHeader (new_header junk)
new_header-IsHeader junk v = record {
  io_type_lt = omega arith;
  size_lt = omega arith;
  info_length = length-replicate {A = ℕ} max_result_msg_len 0;
  padding_length = v;
}

setters-commute :
    (h : Header) (result : List ℕ) (type : IoType) (success : Bool)
    → set_result result (set_success success (set_type type h)) ≡ set_header type success result h
unfolding set_header set_result set_success set_type
setters-commute h result type success = elim (Result-cases (strcpy_s h.io_result_info result)) [
  | inl (info, copied) ↦ rw copied refl
  | inr (fault, fails) ↦ rw fails refl
]

get_header_image :
    (h : Header) (rest : List ℕ) → IsHeader h → get_header (header_image h ++ rest) ≡ ok h
unfolding get_header casted_io
get_header_image h rest v = rw (read_header-header_image h rest v) refl

flag_read : (success : Bool) → (if (if success then 1 else 0) == 0 then false else true) ≡ success
flag_read true = refl
flag_read false = refl

get_success_image :
    (h : Header) (rest : List ℕ) (success : Bool)
    → IsHeader h
    → h.success ≡ (if success then 1 else 0)
    → get_success (header_image h ++ rest) ≡ ok success
unfolding get_success casted_io
get_success_image h rest success v e =
    rw (read_header-header_image h rest v, e) (ap ok (flag_read success))

-- `CreateHeader` with a text is `SetHeader` of type, flag and text on a new header, whatever the
-- text is.
pub create_header_with-set_header :
    (junk result : List ℕ) (type : IoType) (success : Bool)
    → create_header_with junk type result success ≡ set_header type success result (new_header junk)
unfolding create_header_with
create_header_with-set_header junk result type success =
    setters-commute (new_header junk) result type success

-- `CreateHeader` with a text of at most 31 bytes returns a header with the type, the flag and the
-- text, and of the right layout; from its bytes `GetHeader` gives it back and `GetSuccess` its
-- flag.
pub create_header_with-HeaderSet :
    (junk result rest : List ℕ) (type : IoType) (success : Bool)
    → length junk ≡ 3
    → length (visible result) < max_result_msg_len
    → (h : Header) × (create_header_with junk type result success ≡ ok h)
      × HeaderSet type success result (new_header junk) h
      × (get_header (header_image h ++ rest) ≡ ok h)
      × (get_success (header_image h ++ rest) ≡ ok success)
create_header_with-HeaderSet junk result rest type success v short =
    let (h, set, is_set) =
      set_header_fits type success result (new_header junk) (new_header-IsHeader junk v) short in
    (
      h,
      create_header_with-set_header junk result type success ∙ set,
      is_set,
      get_header_image h rest is_set.is_header,
      get_success_image h rest success is_set.is_header is_set.success,
    )
