-- ===== src/Engine/Synthetic/Stops.antt =====
-- The thread of the synthetic orders ends once `running_` is false.
use low_latency_project.Prelude.{
  ℕ, zero, suc, ◌+◌, ◌-◌, ◌%◌, ◌^◌, ◌≡◌, ◌≤◌, ◌<◌, refl, false, some, List, [], ◌∷◌, arith, length,
  ltb, inl, inr, Bool-cases,
}
use low_latency_project.Core.Ring.{RingBuffer, push}
use low_latency_project.Order.Record.{Order}
use low_latency_project.Engine.Run.{ring_capacity}
use low_latency_project.Demo.{Draw, drawn_order}
use low_latency_project.Engine.Synthetic.{
  SynthState, Others, push_while_running, synth_batch, synth_thread,
}

module _ (others : Others) (stop : ℕ)
    (stopped : (n : ℕ) → stop ≤ n → others.running n ≡ false) where
  -- The wait for room ends at the latest with the first attempt after the stop.
  push_while_running-ends :
      (fuel : ℕ) (o : Order) (now : ℕ) (ring : RingBuffer Order)
      → stop < fuel + now
      → (0 < fuel)
      → (later : ℕ) × (after : RingBuffer Order) × (now < later)
        × (push_while_running fuel others o now ring ≡ some (later, after))
  unfolding push_while_running
  push_while_running-ends zero o now ring enough some_fuel = absurd (omega (arith, some_fuel))
  push_while_running-ends (suc fuel) o now ring enough some_fuel =
      let ring1 = (push ring_capacity o ring).1 in
      elim (Bool-cases (push ring_capacity o ring).0) [
        | inl pushed ↦ (suc now, ring1, omega arith, ground (arith, pushed))
        | inr full ↦ elim (Bool-cases (others.running now)) [
          | inr ended ↦ (suc now, ring1, omega arith, ground (arith, full, ended))
          | inl on ↦ elim (Bool-cases (ltb now stop)) [
            | inl before ↦
                let (later, after, goes, is) =
                  push_while_running-ends fuel o (suc now) (others.consumer now ring1)
                    (omega (arith, enough)) (ground (arith, before, enough)) in
                (later, after, omega (arith, goes), ground (arith, full, on, is))
            | inr behind ↦
                let off : others.running now ≡ false = stopped now (ground (arith, behind)) in
                absurd (ground (arith, on, off))
          ]
        ]
      ]

  synth_batch-ends :
      (draws : List Draw) (s : SynthState)
      → (after : SynthState) × (s.now ≤ after.now)
        × (synth_batch (suc stop) others draws s ≡ some after)
  unfolding synth_batch
  synth_batch-ends [] s = (s, omega arith, refl)
  synth_batch-ends (d ∷ draws) s =
      let (now, ring, goes, is) =
        push_while_running-ends (suc stop) (drawn_order s.id d) s.now s.ring (omega arith)
          (omega arith) in
      let (after, later, is2) =
        synth_batch-ends draws (record { now = now; id = (s.id + 1) % 2 ^ 64; ring = ring }) in
      (after, omega (arith, goes, later), ground (arith, is, is2))

  -- When `running_` is false from a look at it on, the thread ends, whatever is done to the ring: no order
  -- needs more attempts than there were looks until then, and one, and no more batches are made than
  -- there were looks; the others are left.
  pub synth_thread-ends :
      (batches : List (List Draw)) (s : SynthState)
      → (after : SynthState) × (left : List (List Draw)) × (synth_thread (suc stop) others batches s
          ≡ some (after, left))
        × (length batches ≤ length left + (stop - s.now))
  unfolding synth_thread
  synth_thread-ends [] s = (s, [], refl, omega arith)
  synth_thread-ends (draws ∷ batches) s = elim (Bool-cases (others.running s.now)) [
    | inr ended ↦ (s, draws ∷ batches, ground (arith, ended), omega arith)
    | inl on ↦ elim (Bool-cases (ltb s.now stop)) [
      | inl before ↦
          let (made, later, is) = synth_batch-ends draws (record s { now = suc s.now }) in
          let (after, left, is2, few) = synth_thread-ends batches made in
          (after, left, ground (arith, on, is, is2), ground (arith, few, later, before))
      | inr behind ↦
          let off : others.running s.now ≡ false = stopped s.now (ground (arith, behind)) in
          absurd (ground (arith, on, off))
    ]
  ]
