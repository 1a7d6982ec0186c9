-- ===== src/Framing.antt =====
-- The receive buffer and the loop that cuts it into packets. `Session::OnRecv` of
-- YServerCore/Session.cpp and `Client::RecieveWork` of Client/Client/Client.cpp hold the same code
-- over two handler tables, so the table is a parameter. A handler's own effect is the call of
-- `std::async` with a copy of the packet; the loop gives the list of these calls, in their order.
pub mod Steps
pub mod Termination
pub mod Bounds
pub mod Frames
pub mod Reassembly
pub mod Streams
pub mod Unhandled
use yserver_core.Common.{
  ℕ, zero, suc, ◌+◌, ◌-◌, ◌%◌, ◌^◌, List, [], ◌∷◌, Option, none, some, Bool, false, Result, ok, err,
  Error, ◌>>=◌, ltb, leb, ◌==◌, if◌then◌else◌, replicate, length, take, drop, write_at,
}
use yserver_core.Packet.{Header, buf_size, header_size}
use yserver_core.Packet.Layout.{Reader, read_header}

pub data IoUsage : Type 0 where
  read write error : IoUsage

-- ST_IOData, without its OVERLAPPED, which belongs to the system.
pub record IoData : Type 0 where
  pub usage : IoUsage
  pub total_bytes : ℕ
  pub cur_bytes : ℕ
  pub data_pointer : ℕ
  pub complete : Bool
  pub bytes : List ℕ

-- Zeroed memory with its usage: `ZeroMemory`, then `Usage = …`.
abbrev pub cleared : IoUsage → IoData
cleared u = record {
  usage = u;
  total_bytes = 0;
  cur_bytes = 0;
  data_pointer = 0;
  complete = false;
  bytes = replicate buf_size 0;
}

-- A handler table: an array of `slots` functions. A set handler casts the packet; `none` is an empty
-- std::function.
pub record Table (T : Type 0) : Type 0 where
  pub slots : ℕ
  pub handler : ℕ → Option (Reader T)

-- A buffer that is handed to the system: where it begins in `Data`, and how long it is.
pub record WsaBuf : Type 0 where
  pub buf : ℕ
  pub len : ℕ

module _ {T : Type 0} (table : Table T) where
  -- `Handler[Header->IOType](…)`: the copy of the packet is made from the memory at the data pointer,
  -- whatever the header's size says, and the data pointer moves by the header's size.
  unfoldable pub call_handler : IoData → Header → Reader T → Result (Option (IoData × T))
  call_handler io h cast = elim (cast (drop io.data_pointer io.bytes)) [
    | none ↦ err Error.out_of_bounds
    | some (packet, _) ↦ ok (some (record io { data_pointer = io.data_pointer + h.size }, packet))
  ]

  unfoldable pub dispatch : IoData → Header → Result (Option (IoData × T))
  dispatch io h =
      if ltb (io.cur_bytes - io.data_pointer) h.size
      then ok none
      else if leb table.slots h.io_type
      then err Error.out_of_bounds
      else elim (table.handler h.io_type) [ none ↦ ok none | some cast ↦ call_handler io h cast ]

  -- One round of the while loop: `none` is its end, by its condition or by a break.
  unfoldable pub next : IoData → Result (Option (IoData × T))
  next io =
      if ltb io.data_pointer io.cur_bytes
      then if ltb (io.cur_bytes - io.data_pointer) header_size
        then ok none
        else elim (read_header (drop io.data_pointer io.bytes)) [
          | none ↦ err Error.out_of_bounds
          | some (h, _) ↦ dispatch io h
        ]
      else ok none

  unfoldable pub drain : ℕ → IoData → Result (IoData × List T)
  drain zero io = err Error.out_of_fuel
  drain (suc fuel) io = elim (next io) [
    | err e ↦ err e
    | ok none ↦ ok (io, [])
    | ok (some (io', packet)) ↦
        drain fuel io' >>= λ (rest : IoData × List T). ok (rest.0, packet ∷ rest.1)
  ]

-- What a size_t counts modulo.
abbrev pub size_mod : ℕ
size_mod = 2 ^ 64

-- `BUF_SIZE - DataPointer`, which wraps.
abbrev pub behind : ℕ → ℕ
behind data_pointer = (buf_size + (size_mod - data_pointer)) % size_mod

-- What follows the loop: a full buffer keeps its unread bytes, moved to the front; any other buffer
-- is emptied. The memcpy leaves the buffer if the difference has wrapped, and is between overlapping
-- ranges if more is moved than was read.
unfoldable pub compact : IoData → Result IoData
compact io =
    if io.cur_bytes == buf_size
    then if ltb buf_size (io.data_pointer + behind io.data_pointer)
      then err Error.out_of_bounds
      else if ltb io.data_pointer (behind io.data_pointer)
      then err Error.overlap
      else ok (record io {
        bytes = write_at 0 (take (behind io.data_pointer) (drop io.data_pointer io.bytes)) io.bytes;
        cur_bytes = behind io.data_pointer;
        data_pointer = 0;
      })
    else ok (record io { cur_bytes = 0; data_pointer = 0 })

-- The system writes received bytes to the buffer that it was handed, which starts at `CurBytes`.
unfoldable pub deliver : List ℕ → IoData → IoData
deliver chunk io = record io { bytes = write_at io.cur_bytes chunk io.bytes }

-- `CurBytes += size`, the loop, and what follows it.
unfoldable pub absorb : {T : Type 0} → Table T → ℕ → ℕ → IoData → Result (IoData × List T)
absorb {T} table fuel size io =
    drain table fuel (record io { cur_bytes = (io.cur_bytes + size) % size_mod })
    >>= λ (r : IoData × List T). compact r.0 >>= λ io'. ok (io', r.1)
