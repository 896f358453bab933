-- ===== src/Demo.antt =====
-- src/demo/synthetic_feed.cpp: the feed, which pushes its orders into a ring and waits for room. What
-- the random generator and the clock give is an argument, and so is what the consumer does to the
-- ring between two attempts. The waiting loop runs on fuel; `none` is that it has not ended.
pub mod Attempts
pub mod Progress
use low_latency_project.Prelude.{
  ℕ, zero, suc, ◌+◌, Bool, Option, none, some, List, [], ◌∷◌, if◌then◌else◌,
}
use low_latency_project.Core.Types.{OrderId, Price, Quantity, Timestamp, buy, sell}
use low_latency_project.Core.Ring.{RingBuffer, push}
use low_latency_project.Order.Record.{Order, zero_order}
use low_latency_project.Engine.Run.{ring_capacity}

-- The numbers behind one order.
pub record Draw : Type 0 where
  pub price : Price
  pub qty : Quantity
  pub buys : Bool
  pub now : Timestamp

abbrev pub drawn_order : OrderId → Draw → Order
drawn_order id d = record zero_order {
  id = id;
  price = d.price;
  qty = d.qty;
  remaining_qty = d.qty;
  side = if d.buys then buy else sell;
  timestamp_ns = d.now;
}

-- `while (!ring.push(o)) {}`
unfoldable pub push_when_room :
    ℕ → (RingBuffer Order → RingBuffer Order) → Order → RingBuffer Order → Option (RingBuffer Order)
push_when_room zero consumer o ring = none
push_when_room (suc fuel) consumer o ring =
    let (pushed, ring1) = push ring_capacity o ring in
    let again = push_when_room fuel consumer o (consumer ring1) in
    if pushed then some ring1 else again

-- The orders from the id `i` on.
unfoldable pub synthetic_feed :
    ℕ
    → (RingBuffer Order → RingBuffer Order)
    → OrderId
    → List Draw
    → RingBuffer Order
    → Option (RingBuffer Order)
synthetic_feed fuel consumer i [] ring = some ring
synthetic_feed fuel consumer i (d ∷ draws) ring =
    elim (push_when_room fuel consumer (drawn_order i d) ring) [
      | none ↦ none
      | some ring1 ↦ synthetic_feed fuel consumer (i + 1) draws ring1
    ]
