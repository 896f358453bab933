-- ===== src/Order/Invariant.antt =====
-- The invariant of the order book between two calls.
use low_latency_project.Prelude.{ℕ, ◌≡◌, [], ◌++◌, refl, IsDistinct, true, false}
use low_latency_project.Prelude.Map.{first_key, lookup}
use low_latency_project.Order.Book.{OrderBook, new_book, heap, greater, less}
use low_latency_project.Core.Pool.{used}
use low_latency_project.Core.Pool.Slots.{new_pool-IsValid}
use low_latency_project.Order.Record.{Heap}
use low_latency_project.Order.Shape.{Shape, slots, Represents, IsSorted}
use low_latency_project.Order.Accounts.{Accounts}
use low_latency_project.Order.Listed.{Listed}

-- Each side is a sorted map of the queues of its shape, no order stands twice, the slots in use are
-- those of the resting orders, the id map lists exactly them, and the best prices are the first keys.
pub record IsBook (capacity : ℕ) (b : OrderBook) (bids asks : Shape) : Type 0 where
  pub bids_side : Represents (heap b) true b.bids bids
  pub asks_side : Represents (heap b) false b.asks asks
  pub bids_sorted : IsSorted greater bids
  pub asks_sorted : IsSorted less asks
  pub distinct : IsDistinct (slots bids ++ slots asks)
  pub accounts : Accounts capacity b.pool (slots bids ++ slots asks)
  pub listed : Listed b.order_map (heap b) (slots bids ++ slots asks)
  pub best_bid : b.best_bid ≡ first_key b.bids
  pub best_ask : b.best_ask ≡ first_key b.asks

-- A new book is at rest and empty, whatever bytes its pool stands on.
pub new_book-IsBook :
    (capacity : ℕ) (bytes : Heap) → IsBook capacity (new_book capacity bytes) [] []
unfolding new_book used lookup
new_book-IsBook capacity bytes = record {
  bids_side = tt;
  asks_side = tt;
  bids_sorted = tt;
  asks_sorted = tt;
  distinct = tt;
  accounts = record {
    valid = new_pool-IsValid capacity bytes;
    inside = λ q i. cc;
    taken = λ q i. cc;
    counted = refl;
  };
  listed = record {
    keys = tt;
    finds = λ p i. cc;
    sound = λ id p e. let clash : ⊥ = cc in absurd clash;
    sized = refl;
  };
  best_bid = refl;
  best_ask = refl;
}
