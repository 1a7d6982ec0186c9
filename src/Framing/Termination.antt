-- ===== src/Framing/Termination.antt =====
-- When the packet loop of `Session::OnRecv` and `Client::RecieveWork` ends: a header with size 0
-- that has a handler leaves the data pointer where it is.
use yserver_core.Common.{
  ℕ, zero, suc, ◌+◌, ◌-◌, ◌<◌, ◌≡◌, ◌≢◌, ◌↔◌, ◌⊎◌, inl, inr, refl, ap, sym, ◌∙◌, List, Option, none,
  some, Result, ok, err, Error, arith, Option-cases, Bool-cases, ◌==◌, ==→eq, false,
}
use yserver_core.Packet.{Header}
use yserver_core.Packet.Layout.{read_header}
use yserver_core.Framing.{IoData, Table, next, drain, dispatch, call_handler}
use yserver_core.Framing.Steps.{Progress, unread, next-Progress, drain_more, drain_end}

pub Round-cases :
    {A : Type 0} (r : Result (Option A))
    → ((e : Error) × (r ≡ err e)) ⊎ ((r ≡ ok none) ⊎ ((a : A) × (r ≡ ok (some a))))
Round-cases (err e) = inl (e, refl)
Round-cases (ok none) = inr (inl refl)
Round-cases (ok (some a)) = inr (inr (a, refl))

module _ {T : Type 0} (table : Table T) where
  -- A round that leaves the buffer as it is.
  pub record IsStuck (io : IoData) : Type 0 where
    pub header : Header
    pub rest : List ℕ
    pub packet : T
    pub reads : read_header (unread io) ≡ some (header, rest)
    pub empty : header.size ≡ 0
    pub stays : next table io ≡ ok (some (io, packet))

  -- The buffers that the loop goes through.
  pub data Reaches : IoData → IoData → Type 0 where
    here : (io : IoData) → Reaches io io
    there :
        {io io' last : IoData} (packet : T)
        → next table io ≡ ok (some (io', packet))
        → Reaches io' last
        → Reaches io last

  -- A loop that is stuck hands the same packet to its handler for ever.
  pub drain-IsStuck :
      (fuel : ℕ) (io : IoData) → IsStuck io → drain table fuel io ≡ err Error.out_of_fuel
  unfolding drain
  drain-IsStuck zero io s = refl
  drain-IsStuck (suc fuel) io s =
      rw (drain_more table fuel io io s.packet s.stays, drain-IsStuck fuel io s) refl

  drain-Reaches :
      (fuel : ℕ) {io last : IoData}
      → Reaches io last
      → IsStuck last
      → drain table fuel io ≡ err Error.out_of_fuel
  unfolding drain
  drain-Reaches fuel (here io) s = drain-IsStuck fuel io s
  drain-Reaches zero (there packet e r) s = refl
  drain-Reaches (suc fuel) (there {io} {io'} packet e r) s =
      rw (drain_more table fuel io io' packet e, drain-Reaches fuel r s) refl

  next-ne-out_of_fuel : (io : IoData) → next table io ≢ err Error.out_of_fuel
  unfolding next dispatch call_handler
  next-ne-out_of_fuel io e = elim (Option-cases (read_header (unread io))) [
    | inl unreadable ↦ ground arith
    | inr ((h, rest), reads) ↦ ground arith
  ]

  drain_fails :
      (fuel : ℕ) (io io' : IoData) (t : T) (e : Error)
      → next table io ≡ ok (some (io', t))
      → drain table (suc fuel) io ≡ err e
      → drain table fuel io' ≡ err e
  drain_fails fuel io io' t e goes fails =
      ground (arith, sym (drain_more table fuel io io' t goes) ∙ fails)

  pub drain_fault :
      (fuel : ℕ) (io : IoData) (e : Error)
      → next table io ≡ err e
      → drain table (suc fuel) io ≡ err e
  unfolding drain
  drain_fault fuel io e fails = rw (fails, drain) refl

  -- A round either leaves the buffer as it is, or there is less left to read.
  round_progress :
      (io io' : IoData) (t : T)
      → next table io ≡ ok (some (io', t))
      → IsStuck io ⊎ (io'.cur_bytes - io'.data_pointer < io.cur_bytes - io.data_pointer)
  round_progress io io' t goes = elim (Bool-cases (p.header.size == 0)) [
    | inl empty ↦
        let zero_size : p.header.size ≡ 0 = ==→eq _ 0 empty in
        let same : io' ≡ io = p.moved ∙ rewind io (io.data_pointer + p.header.size) (omega arith) in
        inl (record {
          header = p.header;
          rest = p.rest;
          packet = t;
          reads = p.reads;
          empty = zero_size;
          stays = rw same at goes;
        })
    | inr sized ↦
        inr (rw p.moved (shrinks (p.header.size) (io.cur_bytes) (io.data_pointer) sized p.before))
  ]
    where
      p : Progress table io io'
      p = next-Progress table io goes

      rewind :
          (io : IoData) (pointer : ℕ)
          → pointer ≡ io.data_pointer
          → record io { data_pointer = pointer } ≡ io
      rewind io pointer e = ap (λ k. record io { data_pointer = k }) e

      shrinks : (n cur at : ℕ) → (n == 0) ≡ false → at < cur → cur - (at + n) < cur - at
      shrinks n cur at sized before = ground arith

  drain_loops :
      (fuel : ℕ) (io : IoData)
      → io.cur_bytes - io.data_pointer < fuel
      → drain table fuel io ≡ err Error.out_of_fuel
      → (last : IoData) × Reaches io last × IsStuck last
  drain_loops zero io enough e = absurd (omega arith)
  drain_loops (suc fuel) io enough e = elim (Round-cases (next table io)) [
    | inl (fault, fails) ↦ ground (arith, drain_fault fuel io fault fails, next-ne-out_of_fuel io)
    | inr (inl ends) ↦ ground (arith, drain_end table fuel io ends)
    | inr (inr ((io', t), goes)) ↦ elim (round_progress io io' t goes) [
      | inl stuck ↦ (io, here io, stuck)
      | inr less ↦
          let (last, reached, stuck) =
            drain_loops fuel io' (omega arith) (drain_fails fuel io io' t _ goes e) in
          (last, there t goes reached, stuck)
    ]
  ]

  -- For every handler table and buffer, with more fuel than there are unread bytes: the loop runs
  -- out of fuel exactly if its rounds reach a buffer whose data pointer stands at a header of size
  -- 0 and whose next round leaves it as it is.
  pub drain_diverges :
      (fuel : ℕ) (io : IoData)
      → io.cur_bytes - io.data_pointer < fuel
      → (drain table fuel io ≡ err Error.out_of_fuel)
        ↔ ((last : IoData) × Reaches io last × IsStuck last)
  drain_diverges fuel io enough = (drain_loops fuel io enough, λ r. drain-Reaches fuel r.1 r.2)
