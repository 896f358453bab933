-- ===== src/Engine/Synthetic.antt =====
-- src/engine/engine.cpp, `Engine::start`: the thread that makes synthetic orders, as the feed of Demo does.
-- What `running_` holds at each look at it is an argument, and so is what the engine's thread does to
-- the ring between two attempts. The waiting loop runs on fuel; `none` is that it has not ended.
pub mod Stops
use low_latency_project.Prelude.{
  ℕ, zero, suc, ◌+◌, ◌%◌, ◌^◌, Bool, Option, none, some, List, [], ◌∷◌, if◌then◌else◌,
}
use low_latency_project.Core.Types.{OrderId}
use low_latency_project.Core.Ring.{RingBuffer, push}
use low_latency_project.Order.Record.{Order}
use low_latency_project.Engine.Run.{ring_capacity}
use low_latency_project.Demo.{Draw, drawn_order}

-- The number of the looks at `running_` and of the attempts so far, the next id, and the ring.
pub record SynthState : Type 0 where
  pub now : ℕ
  pub id : OrderId
  pub ring : RingBuffer Order

-- The flag at each time, and what another thread does to the ring then.
pub record Others : Type 0 where
  pub running : ℕ → Bool
  pub consumer : ℕ → RingBuffer Order → RingBuffer Order

-- `while (!inbound_.push(o) && running_.load()) {}`
unfoldable pub push_while_running :
    ℕ → Others → Order → ℕ → RingBuffer Order → Option (ℕ × RingBuffer Order)
push_while_running zero others o now ring = none
push_while_running (suc fuel) others o now ring =
    let (pushed, ring1) = push ring_capacity o ring in
    let again = push_while_running fuel others o (suc now) (others.consumer now ring1) in
    if pushed
    then some (suc now, ring1)
    else if others.running now
    then again
    else some (suc now, ring1)

-- The orders of one batch; the code makes 100.
unfoldable pub synth_batch : ℕ → Others → List Draw → SynthState → Option SynthState
synth_batch fuel others [] s = some s
synth_batch fuel others (d ∷ draws) s =
    elim (push_while_running fuel others (drawn_order s.id d) s.now s.ring) [
      | none ↦ none
      | some (now, ring) ↦
          synth_batch fuel others draws
            (record { now = now; id = (s.id + 1) % 2 ^ 64; ring = ring })
    ]

-- The thread, for the batches that it would make; what is left of them is the result too.
unfoldable pub synth_thread :
    ℕ → Others → List (List Draw) → SynthState → Option (SynthState × List (List Draw))
synth_thread fuel others [] s = some (s, [])
synth_thread fuel others (draws ∷ batches) s =
    let batch = synth_batch fuel others draws (record s { now = suc s.now }) in
    let made : Option (SynthState × List (List Draw)) = elim batch [
      | none ↦ none
      | some s1 ↦ synth_thread fuel others batches s1
    ] in
    if others.running s.now then made else some (s, draws ∷ batches)
