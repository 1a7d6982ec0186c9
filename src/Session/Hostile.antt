-- ===== src/Session/Hostile.antt =====
-- `Session::OnRecv` of YServerCore/Session.cpp on whatever a peer sends.
use yserver_core.Common.{
  >>=-eq-ok, Bool-cases, Error, List, Result, [], ap, append_assoc, arith, drop, err, false, inl,
  inr, length, length-append, none, ok, refl, some, sym, ℕ, ◌%◌, ◌++◌, ◌+◌, ◌-◌, ◌<◌, ◌==◌, ◌>>=◌,
  ◌∙◌, ◌≡◌, ◌≤◌,
}
use yserver_core.Packet.{UserInfo, buf_size, user_info_size, code, c_login}
use yserver_core.Packet.Layout.{read_user_info, IsUserInfo, user_info_image}
use yserver_core.Packet.RoundTrip.{
  length-user_info_image, read_user_info-user_info_image, read_header-user_info_image,
}
use yserver_core.Framing.{IoData, next, drain, compact, deliver, absorb, size_mod}
use yserver_core.Framing.Steps.{next_packet, unread}
use yserver_core.Framing.Termination.{Reaches, IsStuck, drain-IsStuck}
use yserver_core.Framing.Bounds.{IsReady, compact-cases, drain-Halts, delivered, count, start}
use yserver_core.Framing.Reassembly.{deliver-bytes}
use yserver_core.Handlers.{Request, login, server_table, server_handler, handle_data}
use yserver_core.Handlers.Wire.{handle_data_lem}
use yserver_core.Session.{Session, Received, on_recv, after_recv, ready_to_recieve}
use yserver_core.Session.Receive.{complete_recv, Waits}

ok-injective : {r r' : Received} → ok r ≡ ok r' → r ≡ r'
ok-injective e = cc

pub on_recv_inversion :
    (fuel : ℕ) (chunk : List ℕ) (s : Session) {r : Received}
    → complete_recv fuel chunk s ≡ ok r
    → (io : IoData × List Request) × (absorb server_table fuel (length chunk) (deliver chunk s.read)
        ≡ ok io)
      × (r ≡ after_recv s io)
unfolding complete_recv on_recv
on_recv_inversion fuel chunk s e = elim (Bool-cases (length chunk == 0)) [
  | inl empty ↦ ground arith
  | inr some_bytes ↦
      let (io, absorbed, result) =
        >>=-eq-ok (absorb server_table fuel (length chunk) (deliver chunk s.read)) _
          (rw some_bytes at e) in
      (io, absorbed, ok-injective (sym result))
]

after_recv-IsReady :
    (s : Session) (io : IoData × List Request)
    → IsReady io.0
    → IsReady (after_recv s io).session.read
      × ((after_recv s io).buffer.buf ≡ (after_recv s io).session.read.cur_bytes)
      × ((after_recv s io).buffer.buf + (after_recv s io).buffer.len ≡ buf_size)
unfolding ready_to_recieve
after_recv-IsReady s io h = (
  record { pointer = h.pointer; counted = h.counted; sized = h.sized },
  refl,
  omega (arith, h.counted),
)

-- The buffer of an idle session, filled by a chunk.
abbrev pub filled : List ℕ → IoData → IoData
filled chunk io = record (deliver chunk io) {
  cur_bytes = ((deliver chunk io).cur_bytes + length chunk) % size_mod;
}

-- The ways in which a receive ends, when its loop comes to a buffer.
pub data Ends (mid : IoData) (r : Result Received) : Type 0 where
  runs : r ≡ err Error.out_of_fuel → Ends mid r
  fails : (fault : Error) → next server_table mid ≡ err fault → r ≡ err fault → Ends mid r
  overlaps :
      next server_table mid ≡ ok none
      → mid.cur_bytes ≡ buf_size
      → mid.data_pointer < buf_size - mid.data_pointer
      → r ≡ err Error.overlap
      → Ends mid r
  returns :
      (x : Received)
      → next server_table mid ≡ ok none
      → r ≡ ok x
      → IsReady x.session.read
      → x.buffer.buf ≡ x.session.read.cur_bytes
      → x.buffer.buf + x.buffer.len ≡ buf_size
      → Ends mid r

module _ (fuel : ℕ) (chunk : List ℕ) (s : Session) (some_bytes : 0 < length chunk) where
  abbrev rest : Result (IoData × List Request) → Result Received
  rest r = (r >>= λ (k : IoData × List Request). compact k.0 >>= λ io'. ok (io', k.1)) >>= λ k.
      ok (after_recv s k)

  complete_recv-rest :
      complete_recv fuel chunk s ≡ rest (drain server_table fuel (filled chunk s.read))
  unfolding complete_recv on_recv absorb
  complete_recv-rest = rw (not_zero (length chunk) some_bytes) refl
    where
      not_zero : (n : ℕ) → 0 < n → (n == 0) ≡ false
      not_zero n h = ground arith

  ended :
      (mid : IoData) (ts : List Request)
      → next server_table mid ≡ ok none
      → drain server_table fuel (filled chunk s.read) ≡ ok (mid, ts)
      → mid.data_pointer ≤ mid.cur_bytes
      → mid.cur_bytes ≤ buf_size
      → length mid.bytes ≡ buf_size
      → Ends mid (complete_recv fuel chunk s)
  ended mid ts stops drains within counted sized =
      let e = complete_recv-rest ∙ ap rest drains in
      elim (compact-cases mid within counted sized) [
        | inl (full, over, fault) ↦ overlaps stops full over (e ∙ rw fault refl)
        | inr (io', moves, ready) ↦
            let (again, from, up_to) = after_recv-IsReady s (io', ts) ready in
            returns (after_recv s (io', ts)) stops (e ∙ rw moves refl) again from up_to
      ]

  -- Whatever bytes arrive, at least one and at most what the handed buffer has room for, on a
  -- buffer that is whole, unread and counts no more than it holds, with any fuel: the loop of
  -- `OnRecv` comes to a buffer with the same bytes, whose data pointer is within the bytes that
  -- were received, and there one of four things happens. The fuel ends; or the next round fails,
  -- and `OnRecv` fails in that way; or the loop is over, the buffer is full and more is unread than
  -- read, and the memcpy overlaps; or the loop is over and `OnRecv` returns, the buffer is whole,
  -- unread and counts no more than it holds, and the next receive is given exactly the space behind
  -- what it counts. So the move behind the loop never leaves the buffer.
  pub complete_recv-IsReady :
      IsReady s.read
      → length chunk ≤ buf_size - s.read.cur_bytes
      → (mid : IoData) × Reaches server_table (filled chunk s.read) mid
        × (mid.bytes ≡ (deliver chunk s.read).bytes)
        × (mid.cur_bytes ≡ s.read.cur_bytes + length chunk)
        × (mid.data_pointer ≤ mid.cur_bytes)
        × Ends mid (complete_recv fuel chunk s)
  complete_recv-IsReady h room =
      let counted = count s.read chunk h room in
      let (mid, halts) =
        drain-Halts server_table fuel (filled chunk s.read) (start s.read chunk h room) in
      let total : mid.cur_bytes ≡ s.read.cur_bytes + length chunk = halts.same_count ∙ counted in
      (
        mid,
        halts.reaches,
        halts.same_bytes,
        total,
        halts.within,
        elim halts.outcome [
          | inl e ↦ runs (complete_recv-rest ∙ ap rest e)
          | inr (inl (fault, bad, e)) ↦ fails fault bad (complete_recv-rest ∙ ap rest e)
          | inr (inr (ts, stops, e)) ↦
              ended mid ts stops e halts.within (omega (arith, total, room, h.counted))
                (ap length halts.same_bytes ∙ delivered s.read chunk h room)
        ],
      )

-- A login at the data pointer is handed over, and the pointer moves by the size in its header.
next_login :
    (io : IoData) (u : UserInfo) (rest : List ℕ)
    → IsUserInfo u
    → u.header.io_type ≡ code c_login
    → unread io ≡ user_info_image u ++ rest
    → user_info_size ≤ io.cur_bytes - io.data_pointer
    → u.header.size ≤ io.cur_bytes - io.data_pointer
    → next server_table io
      ≡ ok (some (record io { data_pointer = io.data_pointer + u.header.size }, login u))
unfolding server_handler
next_login io u rest v typed e room fits =
    next_packet server_table io u.header ((u.id ++ u.pw) ++ rest) rest
      (handle_data read_user_info login) (login u) (omega arith) fits
      (rw e (read_header-user_info_image u rest v)) (omega (arith, typed)) (rw typed refl)
      (rw e
        (handle_data_lem read_user_info login _ rest u (read_user_info-user_info_image u rest v)))

endless_login :
    (io : IoData) (u : UserInfo) (rest : List ℕ)
    → IsUserInfo u
    → u.header.io_type ≡ code c_login
    → u.header.size ≡ 0
    → unread io ≡ user_info_image u ++ rest
    → user_info_size ≤ io.cur_bytes - io.data_pointer
    → IsStuck server_table io
endless_login io u rest v typed empty e room =
    let at : io.data_pointer + u.header.size ≡ io.data_pointer = omega (arith, empty) in
    record {
      header = u.header;
      rest = (u.id ++ u.pw) ++ rest;
      packet = login u;
      reads = rw e (read_header-user_info_image u rest v);
      empty = empty;
      stays =
          next_login io u rest v typed e room (omega (arith, empty))
          ∙ ap (λ k. ok (some (record io { data_pointer = k }, login u))) at;
    }

filled_shape :
    (s : Session) (chunk : List ℕ)
    → Waits s []
    → length chunk ≤ buf_size
    → (after : List ℕ) × (unread (filled chunk s.read) ≡ chunk ++ after)
      × ((filled chunk s.read).cur_bytes - (filled chunk s.read).data_pointer ≡ length chunk)
unfolding deliver
filled_shape s chunk w room =
    let (after, e) = deliver-bytes s.read [] chunk w (omega arith) in
    (
      after,
      ap (λ k. drop k (filled chunk s.read).bytes) w.pointer ∙ unfold deliver in e,
      omega (arith, w.pointer, w.counted),
    )

absorb_endless :
    (fuel size : ℕ) (io : IoData)
    → drain server_table fuel (record io { cur_bytes = (io.cur_bytes + size) % size_mod })
      ≡ err Error.out_of_fuel
    → absorb server_table fuel size io ≡ err Error.out_of_fuel
unfolding absorb
absorb_endless fuel size io e = rw e refl

on_recv_endless :
    (fuel : ℕ) (chunk : List ℕ) (s : Session)
    → 0 < length chunk
    → absorb server_table fuel (length chunk) (deliver chunk s.read) ≡ err Error.out_of_fuel
    → complete_recv fuel chunk s ≡ err Error.out_of_fuel
unfolding complete_recv on_recv
on_recv_endless fuel chunk s some_bytes e = ground arith

-- A receive into an empty buffer that fits it and begins with a login whose header says size 0:
-- `OnRecv` runs out of fuel, whatever the fuel is.
pub complete_recv_endless :
    (fuel : ℕ) (s : Session) (u : UserInfo) (more : List ℕ)
    → Waits s []
    → IsUserInfo u
    → u.header.io_type ≡ code c_login
    → u.header.size ≡ 0
    → length (user_info_image u ++ more) ≤ buf_size
    → complete_recv fuel (user_info_image u ++ more) s ≡ err Error.out_of_fuel
complete_recv_endless fuel s u more w v typed empty room =
    let chunk : List ℕ = user_info_image u ++ more in
    let size : length chunk ≡ user_info_size + length more =
      omega (arith, length-append (user_info_image u) more, length-user_info_image u v) in
    let (after, e, left) = filled_shape s chunk w room in
    let stuck =
      endless_login (filled chunk s.read) u (more ++ after) v typed empty
        (e ∙ append_assoc (user_info_image u) more after) (omega (arith, size, left)) in
    on_recv_endless fuel chunk s (omega (arith, size)) (
      absorb_endless fuel (length chunk) (deliver chunk s.read)
        (drain-IsStuck server_table fuel _ stuck))
