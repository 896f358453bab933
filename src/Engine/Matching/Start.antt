-- ===== src/Engine/Matching/Start.antt =====
-- An order that stands in a fresh slot of the pool, before it meets the book.
use low_latency_project.Prelude.{
  ℕ, ◌^◌, ◌≡◌, ◌<◌, refl, ap, Bool, false, not, none, ◌∷◌, ◌++◌, update, contains, ==_self,
  apart_of_contains,
}
use low_latency_project.Prelude.Map.{lookup}
use low_latency_project.Core.Types.{OrderId, Price, Quantity, Side, is_buy}
use low_latency_project.Core.Pool.{ObjectPool}
use low_latency_project.Core.Pool.Slots.{Allocated}
use low_latency_project.Order.Record.{Order, zero_order}
use low_latency_project.Order.Book.{OrderBook, heap}
use low_latency_project.Order.Shape.{Shape, slots, entries}
use low_latency_project.Order.Shape.Frame.{
  Agree, Agree-left, Agree-right, Represents-frame, entries-frame,
}
use low_latency_project.Order.Accounts.{Accounts, Accounts-storage, Accounts-take}
use low_latency_project.Order.Listed.{Listed-frame}
use low_latency_project.Order.Invariant.{IsBook}
use low_latency_project.Engine.Matching.{hit_levels}
use low_latency_project.Engine.Matching.Mid.{Mid, hit_levels-set_only_pool}
use low_latency_project.Engine.Matching.Turned.{Turned, choose, turn}

module _ (capacity : ℕ) (new : Order) (b : OrderBook) (bids asks : Shape)
    (ok : IsBook capacity b bids asks) (fresh : lookup new.id b.order_map ≡ none)
    (small : new.remaining_qty < 2 ^ 64) where
  abbrev id : OrderId
  id = new.id

  abbrev side : Side
  side = new.side

  abbrev price : Price
  price = new.price

  abbrev qty : Quantity
  qty = new.remaining_qty

  abbrev pub s : Bool
  s = is_buy side

  abbrev pub hit : Shape
  hit = choose s bids asks

  abbrev pub far : Shape
  far = choose s asks bids

  turned : Turned capacity s hit far b
  turned = turn capacity s b bids asks ok

  module _ (a : ℕ) (q : ObjectPool Order) (took : Allocated capacity zero_order b.pool a q) where
    abbrev pub started : OrderBook
    started = record b { pool = record q { storage = update q.storage a new } }

    pub joined :
        (contains (slots hit ++ slots far) a ≡ false)
        × Accounts capacity q (a ∷ (slots hit ++ slots far))
    joined = Accounts-take a (slots hit ++ slots far) turned.accounts took

    pub new_is : heap started a ≡ new
    new_is = rw (==_self a) refl

    pub agrees : Agree (slots hit ++ slots far) (heap b) (heap started)
    agrees p i =
        let apart = (apart_of_contains (slots hit ++ slots far) a p (joined.0) i).1 in
        rw apart (took.frame p apart)

    pub Mid-start : Mid capacity s a hit far started
    Mid-start = record {
      hit_side = rw (hit_levels-set_only_pool s started.pool b) (
          Represents-frame (heap b) (heap started) (not s) (hit_levels s b) hit
            (Agree-left (slots hit) (slots far) (heap b) (heap started) agrees) turned.hit_side);
      far_side = rw (hit_levels-set_only_pool (not s) started.pool b) (
          Represents-frame (heap b) (heap started) s (hit_levels (not s) b) far
            (Agree-right (slots hit) (slots far) (heap b) (heap started) agrees) turned.far_side);
      hit_sorted = turned.hit_sorted;
      far_sorted = turned.far_sorted;
      distinct = (joined.0, turned.distinct);
      accounts = Accounts-storage (heap started) (joined.1);
      listed =
          Listed-frame b.order_map (heap b) (heap started) (slots hit ++ slots far)
            (λ p i. ap (λ (o : Order). o.id) (agrees p i)) turned.listed;
      small = rw new_is small;
      fresh = rw new_is fresh;
    }

    pub same_hit : entries (heap started) hit ≡ entries (heap b) hit
    same_hit =
        entries-frame (heap b) (heap started) hit
          (Agree-left (slots hit) (slots far) (heap b) (heap started) agrees)

    pub same_far : entries (heap started) far ≡ entries (heap b) far
    same_far =
        entries-frame (heap b) (heap started) far
          (Agree-right (slots hit) (slots far) (heap b) (heap started) agrees)
