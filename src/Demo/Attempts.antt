-- ===== src/Demo/Attempts.antt =====
-- One attempt after the other: the waiting loop of the feed.
use low_latency_project.Prelude.{
  ℕ, zero, suc, ◌+◌, ◌≡◌, ◌≤◌, ◌<◌, refl, ap, ◌∙◌, true, false, none, some, List, [], ◌∷◌, ◌++◌,
  length, lt→ltb, le→ltb,
}
use low_latency_project.Core.Types.{OrderId}
use low_latency_project.Core.Ring.{RingBuffer, push, pop}
use low_latency_project.Core.Ring.Queue
use low_latency_project.Core.Ring.Window.{Holds}
use low_latency_project.Core.Ring.Refine.{push_refines}
use low_latency_project.Order.Record.{Order}
use low_latency_project.Engine.Run.{ring_capacity}
use low_latency_project.Demo.{Draw, drawn_order, push_when_room, synthetic_feed}

abbrev pub drawn : OrderId → List Draw → List Order
drawn i [] = []
drawn i (d ∷ draws) = drawn_order i d ∷ drawn (i + 1) draws

-- A consumer that takes one item between two attempts, if there is one.
abbrev pub take_one : RingBuffer Order → RingBuffer Order
take_one ring = (pop ring_capacity ring).1

-- Nobody takes anything.
abbrev pub idle : RingBuffer Order → RingBuffer Order
idle ring = ring

module _ (o : Order) {ring : RingBuffer Order} {start : ℕ} {q : List Order}
    (h : Holds 12 ring start q) where
  pub push-room :
      length q < 4096
      → ((push ring_capacity o ring).0 ≡ true)
        × Holds 12 (push ring_capacity o ring).1 start (q ++ (o ∷ []))
  unfolding Queue.push
  push-room room =
      let (answer, held) = push_refines o h in
      let test = lt→ltb (length q) 4096 room in (rw test at answer, rw test at held)

  pub push-full :
      4096 ≤ length q
      → ((push ring_capacity o ring).0 ≡ false) × Holds 12 (push ring_capacity o ring).1 start q
  unfolding Queue.push
  push-full full =
      let (answer, held) = push_refines o h in
      let test = le→ltb (length q) 4096 full in (rw test at answer, rw test at held)

module _ (fuel : ℕ) (o : Order) (ring : RingBuffer Order) where
  pub push_when_room-pushed :
      (consumer : RingBuffer Order → RingBuffer Order)
      → (push ring_capacity o ring).0 ≡ true
      → push_when_room (suc fuel) consumer o ring ≡ some (push ring_capacity o ring).1
  unfolding push_when_room
  push_when_room-pushed consumer pushed = rw pushed refl

  pub push_when_room-again :
      (consumer : RingBuffer Order → RingBuffer Order)
      → (push ring_capacity o ring).0 ≡ false
      → push_when_room (suc fuel) consumer o ring
        ≡ push_when_room fuel consumer o (consumer (push ring_capacity o ring).1)
  unfolding push_when_room
  push_when_room-again consumer refused = rw refused refl

pub push_when_room-none :
    (consumer : RingBuffer Order → RingBuffer Order) (o : Order) (ring : RingBuffer Order)
    → push_when_room 0 consumer o ring ≡ none
unfolding push_when_room
push_when_room-none consumer o ring = refl

-- Nobody makes room in a full ring.
pub push_when_room-stuck :
    (fuel : ℕ) (o : Order) (ring : RingBuffer Order) (start : ℕ) (q : List Order)
    → Holds 12 ring start q
    → 4096 ≤ length q
    → push_when_room fuel idle o ring ≡ none
unfolding push_when_room
push_when_room-stuck zero o ring start q h full = refl
push_when_room-stuck (suc fuel) o ring start q h full =
    let (refused, held) = push-full o h full in
    push_when_room-again fuel o ring idle refused
    ∙ push_when_room-stuck fuel o (push ring_capacity o ring).1 start q held full

-- The feed goes on with the next order.
pub synthetic_feed-pushed :
    (fuel : ℕ) (consumer : RingBuffer Order → RingBuffer Order) (i : OrderId) (d : Draw)
    (draws : List Draw) (ring ring1 : RingBuffer Order)
    → push_when_room fuel consumer (drawn_order i d) ring ≡ some ring1
    → synthetic_feed fuel consumer i (d ∷ draws) ring
      ≡ synthetic_feed fuel consumer (i + 1) draws ring1
unfolding synthetic_feed
synthetic_feed-pushed fuel consumer i d draws ring ring1 e =
    ap (λ r. elim r [ none ↦ none | some ring2 ↦ synthetic_feed fuel consumer (i + 1) draws ring2 ])
      e

pub synthetic_feed-waits :
    (fuel : ℕ) (consumer : RingBuffer Order → RingBuffer Order) (i : OrderId) (d : Draw)
    (draws : List Draw) (ring : RingBuffer Order)
    → push_when_room fuel consumer (drawn_order i d) ring ≡ none
    → synthetic_feed fuel consumer i (d ∷ draws) ring ≡ none
unfolding synthetic_feed
synthetic_feed-waits fuel consumer i d draws ring e =
    ap (λ r. elim r [ none ↦ none | some ring2 ↦ synthetic_feed fuel consumer (i + 1) draws ring2 ])
      e
