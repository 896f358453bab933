-- ===== src/Engine/Matching/Full.antt =====
-- A full book refuses an order, and takes it when one that rests is cancelled.
use mathlib.Core.Path.{subst}
use low_latency_project.Prelude.{ℕ, ◌^◌, ◌≡◌, ◌<◌, ◌≤◌, true, false, Bool, none, some, [], arith}
use low_latency_project.Prelude.Map.{lookup}
use low_latency_project.Core.Types.{OrderId, Price, Quantity, Timestamp, Side, is_buy}
use low_latency_project.Core.Pool.{used}
use low_latency_project.Order.Book.{OrderBook, heap, cancel}
use low_latency_project.Order.Shape.{Shape, entries}
use low_latency_project.Order.Delete.{delete}
use low_latency_project.Order.Invariant.{IsBook}
use low_latency_project.Order.Cancel.{cancel_lem}
use low_latency_project.Order.Record.{Heap}
use low_latency_project.Engine.Matching.{process_new_order}
use low_latency_project.Engine.Matching.Priority.{sweep}
use low_latency_project.Engine.Matching.Turned.{choose}
use low_latency_project.Engine.Matching.Refine.{
  Matched, process_new_order_lem, process_new_order-full,
}

entries-choose :
    (s : Bool) (h g : Heap) (x y : Shape)
    → entries h x ≡ entries g x
    → entries h y ≡ entries g y
    → entries h (choose s x y) ≡ entries g (choose s x y)
entries-choose true h g x y on_x on_y = on_y
entries-choose false h g x y on_x on_y = on_x

-- On a book at rest without a free slot, for an id that is not listed and a quantity below 2 ^ 64,
-- process_new_order returns no trade and leaves the book as it is; after cancel of any listed id,
-- which returns true, the same call returns the trades of the specification's sweep over the other
-- side of what still rests, and rests the remainder.
pub process_new_order-cancel :
    (capacity : ℕ) (now : Timestamp) (clock : ℕ → Timestamp) (id : OrderId) (side : Side)
    (price : Price) (qty : Quantity) (b : OrderBook) (bids asks : Shape) (listed : OrderId) (p : ℕ)
    → IsBook capacity b bids asks
    → lookup id b.order_map ≡ none
    → qty < 2 ^ 64
    → capacity ≤ used b.pool
    → lookup listed b.order_map ≡ some p
    → (process_new_order capacity now clock id side price qty b ≡ some (b, []))
      × ((after : OrderBook) × (cancel listed b ≡ (true, after))
          × Matched capacity
              (is_buy side)
              id
              price
              clock
              (entries (heap b) (choose (is_buy side) (delete p asks) (delete p bids)))
              (sweep
                (is_buy side)
                price
                qty
                (entries (heap b) (choose (is_buy side) (delete p bids) (delete p asks))))
              (process_new_order capacity now clock id side price qty after))
unfolding used
process_new_order-cancel capacity now clock id side price qty b bids asks listed p ok fresh small
      full is =
    let c = cancel_lem capacity b bids asks ok listed p is in
    let s = is_buy side in
    let m =
      process_new_order_lem capacity now clock id side price qty c.after (delete p bids)
        (delete p asks) c.book (c.unlisted id fresh) small
        (omega (arith, c.freed, ok.accounts.valid.within)) in
    let far_rests =
      entries-choose s (heap c.after) (heap b) (delete p asks) (delete p bids) c.asks_rest
        c.bids_rest in
    let hit_rests =
      entries-choose s (heap c.after) (heap b) (delete p bids) (delete p asks) c.bids_rest
        c.asks_rest in
    let result = process_new_order capacity now clock id side price qty c.after in
    (
      process_new_order-full capacity now clock id side price qty b bids asks ok full,
      (
        c.after,
        c.returns,
        subst
            (λ far.
              Matched capacity s id price clock far
                (sweep s price qty (entries (heap b) (choose s (delete p bids) (delete p asks))))
                result)
            far_rests
            (subst
              (λ hit.
                Matched capacity s id price clock
                  (entries (heap c.after) (choose s (delete p asks) (delete p bids)))
                  (sweep s price qty hit) result)
              hit_rests m),
      ),
    )
