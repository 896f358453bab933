-- ===== src/Engine/Run/Stepped.antt =====
-- What a round of the engine's loop leaves.
use low_latency_project.Prelude.{ℕ, ◌≡◌, Option, none, some, List, ◌==◌, false}
use low_latency_project.Core.Types.{OrderId}
use low_latency_project.Core.Ring.{RingBuffer}
use low_latency_project.Order.Record.{Order}
use low_latency_project.Order.Book.{heap}
use low_latency_project.Order.Shape.{Shape, Entry, entries}
use low_latency_project.Order.Invariant.{IsBook}
use low_latency_project.Engine.Matching.Uncrossed.{IsUncrossed}
use low_latency_project.Engine.Risk.{RiskLimits}
use low_latency_project.Engine.Run.Ids.{has_id, resting_entries}
use low_latency_project.Prelude.Int.{ℤ}
use low_latency_project.Engine.Run.Position.{Moved}
use low_latency_project.Engine.Run.{EngineState}

-- A returned state whose book is at rest and uncrossed.
pub record Kept (capacity : ℕ) (r : Option EngineState) : Type 0 where
  pub after : EngineState
  pub bids : Shape
  pub asks : Shape
  pub returns : r ≡ some after
  pub book : IsBook capacity after.book bids asks
  pub uncrossed : IsUncrossed (entries (heap after.book) bids) (entries (heap after.book) asks)

-- An id that the popped order, if any, does not have.
abbrev pub Other : OrderId → Option Order → Type 0
Other i none = Unit {0}
Other i (some o) = (i == o.id) ≡ false

-- The state that is left of a round in which the order was popped and this ring remained, when this was
-- the position and these entries rested before.
pub record Stepped (limits : RiskLimits) (capacity : ℕ) (ring : RingBuffer Order)
    (popped : Option Order) (position : ℤ) (before : List Entry) (r : Option EngineState)
    : Type 0 where
  pub kept : Kept capacity r
  pub ring_is : kept.after.inbound ≡ ring
  pub moved : Moved limits popped position kept.after.risk_state.net_position
  pub ids :
      (i : OrderId)
      → Other i popped
      → has_id i before ≡ false
      → has_id i (resting_entries kept.after.book kept.bids kept.asks) ≡ false
