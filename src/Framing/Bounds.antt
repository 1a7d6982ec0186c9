-- ===== src/Framing/Bounds.antt =====
-- What the receive loop and the move of the unread bytes in `Session::OnRecv` and
-- `Client::RecieveWork` leave of a buffer, whatever bytes it holds.
use yserver_core.Common.{
  ℕ, zero, suc, ◌+◌, ◌-◌, ◌%◌, ◌≤◌, ◌<◌, ◌≡◌, ◌⊎◌, refl, ap, inl, inr, ◌∙◌, List, [], ◌∷◌, Result,
  ok, err, Error, none, some, arith, length, take, drop, write_at, length-write_at, length-take,
  length-drop, ltb, le→ltb, false, ◌==◌, Bool-cases, ==→eq, ltb→lt,
}
use yserver_core.Packet.{buf_size}
use yserver_core.Framing.{IoData, Table, next, drain, compact, deliver, size_mod}
use yserver_core.Framing.Steps.{Progress, next-Progress, drain_more, drain_end}
use yserver_core.Framing.Reassembly.{behind_lem}
use yserver_core.Framing.Termination.{Round-cases, drain_fault, Reaches, here, there}

-- The buffer is whole, nothing in it is read, and what is counted lies in it.
pub record IsReady (io : IoData) : Type 0 where
  pub pointer : io.data_pointer ≡ 0
  pub counted : io.cur_bytes ≤ buf_size
  pub sized : length io.bytes ≡ buf_size

-- How the loop ends, at a buffer whose data pointer is within what is counted: it still runs, or a
-- round fails, or there is nothing more to hand over.
module _ {T : Type 0} (table : Table T) where
  pub record Halts (io mid : IoData) (r : Result (IoData × List T)) : Type 0 where
    pub reaches : Reaches table io mid
    pub same_bytes : mid.bytes ≡ io.bytes
    pub same_count : mid.cur_bytes ≡ io.cur_bytes
    pub within : mid.data_pointer ≤ mid.cur_bytes
    pub outcome :
        (r ≡ err Error.out_of_fuel)
        ⊎ (((fault : Error) × (next table mid ≡ err fault) × (r ≡ err fault))
            ⊎ ((ts : List T) × (next table mid ≡ ok none) × (r ≡ ok (mid, ts))))

  Progress-within : {io io' : IoData} → Progress table io io' → io'.data_pointer ≤ io'.cur_bytes
  Progress-within p = ground (arith, p.moved, p.fits, p.before)

  Progress-same :
      {io io' : IoData}
      → Progress table io io'
      → (io'.bytes ≡ io.bytes) × (io'.cur_bytes ≡ io.cur_bytes)
  Progress-same p = (ap (λ k. k.bytes) p.moved, ap (λ k. k.cur_bytes) p.moved)

  Halts-round :
      (fuel : ℕ) (io io1 mid : IoData) (t : T)
      → next table io ≡ ok (some (io1, t))
      → Halts io1 mid (drain table fuel io1)
      → Halts io mid (drain table (suc fuel) io)
  Halts-round fuel io io1 mid t goes h =
      let more = drain_more table fuel io io1 t goes in
      let (same, count) = Progress-same (next-Progress table io goes) in
      record {
        reaches = there t goes h.reaches;
        same_bytes = h.same_bytes ∙ same;
        same_count = h.same_count ∙ count;
        within = h.within;
        outcome = elim h.outcome [
          | inl runs ↦ inl (more ∙ rw runs refl)
          | inr (inl (fault, fails, e)) ↦ inr (inl (fault, fails, more ∙ rw e refl))
          | inr (inr (ts, ends, e)) ↦ inr (inr (t ∷ ts, ends, more ∙ rw e refl))
        ];
      }

  pub drain-Halts :
      (fuel : ℕ) (io : IoData)
      → io.data_pointer ≤ io.cur_bytes
      → (mid : IoData) × Halts io mid (drain table fuel io)
  unfolding drain
  drain-Halts zero io within = (
    io,
    record {
      reaches = here io;
      same_bytes = refl;
      same_count = refl;
      within = within;
      outcome = inl refl;
    },
  )
  drain-Halts (suc fuel) io within = elim (Round-cases (next table io)) [
    | inl (fault, fails) ↦ (
      io,
      record {
        reaches = here io;
        same_bytes = refl;
        same_count = refl;
        within = within;
        outcome = inr (inl (fault, fails, drain_fault table fuel io fault fails));
      },
    )
    | inr (inl ends) ↦ (
      io,
      record {
        reaches = here io;
        same_bytes = refl;
        same_count = refl;
        within = within;
        outcome = inr (inr ([], ends, drain_end table fuel io ends));
      },
    )
    | inr (inr ((io1, t), goes)) ↦
        let (mid, h) = drain-Halts fuel io1 (Progress-within (next-Progress table io goes)) in
        (mid, Halts-round fuel io io1 mid t goes h)
  ]

kept_fits :
    (io : IoData)
    → length io.bytes ≡ buf_size
    → io.data_pointer ≤ buf_size
    → 0 + length (take (buf_size - io.data_pointer) (drop io.data_pointer io.bytes))
      ≤ length io.bytes
kept_fits io sized within = omega (
  arith,
  length-take (buf_size - io.data_pointer) (drop io.data_pointer io.bytes),
  length-drop io.data_pointer io.bytes,
)

-- The move behind the loop stays in the buffer: between overlapping ranges of a full one, or not.
pub compact-cases :
    (io : IoData)
    → io.data_pointer ≤ io.cur_bytes
    → io.cur_bytes ≤ buf_size
    → length io.bytes ≡ buf_size
    → ((io.cur_bytes ≡ buf_size)
        × (io.data_pointer < buf_size - io.data_pointer)
        × (compact io ≡ err Error.overlap))
      ⊎ ((io' : IoData) × (compact io ≡ ok io') × IsReady io')
unfolding compact
compact-cases io within counted sized =
    let left = behind_lem io.data_pointer (omega (arith, within, counted)) in
    let inside : ltb buf_size (io.data_pointer + (buf_size - io.data_pointer)) ≡ false =
      le→ltb _ _ (omega (arith, within, counted)) in
    elim (Bool-cases (io.cur_bytes == buf_size)) [
      | inr not_full ↦ inr (
        record io { cur_bytes = 0; data_pointer = 0 },
        rw not_full refl,
        record { pointer = refl; counted = omega arith; sized = sized },
      )
      | inl full ↦ elim (Bool-cases (ltb io.data_pointer (buf_size - io.data_pointer))) [
        | inl over ↦ inl (==→eq _ _ full, ltb→lt _ _ over, rw (full, left, inside, over) refl)
        | inr apart ↦
            let kept = take (buf_size - io.data_pointer) (drop io.data_pointer io.bytes) in
            inr (
              record io {
                bytes = write_at 0 kept io.bytes;
                cur_bytes = buf_size - io.data_pointer;
                data_pointer = 0;
              },
              rw (full, left, inside, apart) refl,
              record {
                pointer = refl;
                counted = omega arith;
                sized =
                    length-write_at 0 kept io.bytes
                      (kept_fits io sized (omega (arith, within, counted)))
                    ∙ sized;
              },
            )
      ]
    ]

module _ (io : IoData) (chunk : List ℕ) (h : IsReady io)
    (room : length chunk ≤ buf_size - io.cur_bytes) where
  pub delivered : length (deliver chunk io).bytes ≡ buf_size
  unfolding deliver
  delivered = length-write_at io.cur_bytes chunk io.bytes (omega (arith, h)) ∙ h.sized

  pub count : ((deliver chunk io).cur_bytes + length chunk) % size_mod ≡ io.cur_bytes + length chunk
  unfolding deliver
  count = omega (arith, h)

  pub start :
      (deliver chunk io).data_pointer ≤ ((deliver chunk io).cur_bytes + length chunk) % size_mod
  unfolding deliver
  start = omega (arith, h.pointer)
