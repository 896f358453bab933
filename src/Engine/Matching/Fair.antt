-- ===== src/Engine/Matching/Fair.antt =====
-- The trades of a new order in terms of the resting orders: price and time priority, the price limit,
-- and no quantity made or lost.
use low_latency_project.Prelude.{ℕ, ◌+◌, ◌^◌, ◌≡◌, ◌<◌, Bool, not, none, some, List, [], ◌∷◌, ◌++◌}
use low_latency_project.Prelude.Map.{lookup}
use low_latency_project.Core.Types.{OrderId, Price, Quantity, Timestamp, Side, is_buy}
use low_latency_project.Core.Pool.{used}
use low_latency_project.Order.Record.{Heap}
use low_latency_project.Order.Book.{OrderBook, Levels, heap}
use low_latency_project.Order.Shape.{Shape, Represents, AllRest, Entry, entries, entries_at}
use low_latency_project.Order.Invariant.{IsBook}
use low_latency_project.Engine.Matching.{process_new_order}
use low_latency_project.Engine.Matching.Turned.{choose, turn}
use low_latency_project.Engine.Matching.Loop.{stamp}
use low_latency_project.Engine.Matching.Priority.{Fill, sweep}
use low_latency_project.Engine.Matching.Priority.Laws.{
  AllPositive, AllWithin, InPriority, total_filled, sweep-conserves, sweep-AllWithin,
  sweep-InPriority,
}
use low_latency_project.Engine.Matching.Refine.{rest_of, process_new_order_lem}

AllPositive-level :
    (h : Heap) (bid : Bool) (k : Price) (ps : List ℕ) (es : List Entry)
    → AllRest h bid k ps
    → AllPositive es
    → AllPositive (entries_at h k ps ++ es)
AllPositive-level h bid k [] es r p = p
AllPositive-level h bid k (q ∷ ps) es r p = (r.0.filling, AllPositive-level h bid k ps es r.1 p)

AllPositive-entries :
    (h : Heap) (bid : Bool) (m : Levels) (s : Shape)
    → Represents h bid m s
    → AllPositive (entries h s)
AllPositive-entries h bid [] [] r = tt
AllPositive-entries h bid [] (e ∷ s) r = absurd r
AllPositive-entries h bid (e ∷ m) [] r = absurd r
AllPositive-entries h bid ((key, l) ∷ m) ((k, ps) ∷ s) r =
    AllPositive-level h bid k ps (entries h s) r.0.resting (AllPositive-entries h bid m s r.1)

-- The fills of an order with the limit `price`, from the entries `hit`, of which `rest` remain.
pub record IsFair (s : Bool) (price : Price) (qty : Quantity) (hit : List Entry) (fills : List Fill)
    (left : Quantity) (rest : List Entry) : Type 0 where
  pub in_priority : InPriority hit fills rest
  pub within : AllWithin s price fills
  pub conserved : total_filled fills + left ≡ qty

-- On a book at rest, for an id that is not listed, a quantity below 2 ^ 64 and a pool with a free slot,
-- `process_new_order` returns the trades of fills that are in priority, within the limit price, of a
-- positive quantity each, and add up to the order's quantity with what is left, which rests.
pub process_new_order-IsFair :
    (capacity : ℕ) (now : Timestamp) (clock : ℕ → Timestamp) (id : OrderId) (side : Side)
    (price : Price) (qty : Quantity) (b : OrderBook) (bids asks : Shape)
    → IsBook capacity b bids asks
    → lookup id b.order_map ≡ none
    → qty < 2 ^ 64
    → used b.pool < capacity
    → (after : OrderBook) × (bids' asks' : Shape) × (fills : List Fill) × (left : Quantity)
      × (process_new_order capacity now clock id side price qty b
          ≡ some (after, stamp clock 0 id fills))
      × IsBook capacity after bids' asks'
      × IsFair
          (is_buy side)
          price
          qty
          (entries (heap b) (choose (is_buy side) bids asks))
          fills
          left
          (entries (heap after) (choose (is_buy side) bids' asks'))
      × (entries (heap after) (choose (is_buy side) asks' bids')
          ≡ rest_of (is_buy side) id price left (entries (heap b) (choose (is_buy side) asks bids)))
process_new_order-IsFair capacity now clock id side price qty b bids asks ok fresh small room =
    let m =
      process_new_order_lem capacity now clock id side price qty b bids asks ok fresh small room in
    let s = is_buy side in
    let hit = entries (heap b) (choose s bids asks) in
    (
      m.after,
      m.bids,
      m.asks,
      (sweep s price qty hit).fills,
      (sweep s price qty hit).left,
      m.returns,
      m.book,
      record {
        in_priority = rw m.hit_rest (sweep-InPriority s price qty hit);
        within = sweep-AllWithin s price qty hit (
            AllPositive-entries (heap b) (not s) _ (choose s bids asks)
              (turn capacity s b bids asks ok).hit_side);
        conserved = (sweep-conserves s price qty hit).0;
      },
      m.far_rest,
    )
