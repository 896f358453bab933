-- ===== src/Examples/Full.antt =====
-- A book of one slot, in which an ask of 10 at 100 rests.
use low_latency_project.Prelude.{
  ◌≡◌, refl, sym, ap, ◌∙◌, true, false, Option, none, some, List, [], arith,
}
use mathlib.Core.Path.{subst}
use low_latency_project.Prelude.Int.{pos}
use low_latency_project.Prelude.Map.{find, put, erase, lookup, assign, remove_key}
use low_latency_project.Core.Types.{buy, sell}
use low_latency_project.Core.Pool.{allocate, deallocate, used}
use low_latency_project.Order.Record.{TradeEvent}
use low_latency_project.Order.Level.{push_back, remove, is_empty}
use low_latency_project.Order.Book.{
  OrderBook, new_book, heap, insert_order, push_resting, refresh_best_at, add_resting, refresh_best,
  cancel,
}
use low_latency_project.Order.Shape.{entries}
use low_latency_project.Order.Delete.{delete}
use low_latency_project.Order.Invariant.{IsBook, new_book-IsBook}
use low_latency_project.Engine.Matching.{
  match_loop, match_round, fill_orders, retire, finish, match_order, process_new_order,
}
use low_latency_project.Engine.Matching.Priority.{sweep}
use low_latency_project.Engine.Matching.Refine.{Matched, process_new_order_lem}
use low_latency_project.Engine.Matching.Full.{process_new_order-cancel}
use low_latency_project.Examples.Matching.{bytes, ticks}

abbrev small : OrderBook
small = new_book 1 bytes

abbrev crowded : OrderBook
unfolding process_new_order match_order match_loop match_round fill_orders retire finish add_resting
    refresh_best refresh_best_at push_resting insert_order allocate deallocate used push_back remove
    is_empty find put erase assign remove_key new_book
crowded = elim (process_new_order 1 0 ticks 1 sell (pos 100) 10 small) [
  | none ↦ small
  | some r ↦ r.0
]

filled :
    Matched 1 false 1
      (pos 100)
      ticks
      []
      (sweep false (pos 100) 10 [])
      (process_new_order 1 0 ticks 1 sell (pos 100) 10 small)
unfolding lookup used new_book
filled =
    process_new_order_lem 1 0 ticks 1 sell (pos 100) 10 small [] [] (new_book-IsBook 1 bytes) refl
      (omega arith) (omega arith)

returned : process_new_order 1 0 ticks 1 sell (pos 100) 10 small ≡ some (crowded, [])
unfolding process_new_order match_order match_loop match_round fill_orders retire finish add_resting
    refresh_best refresh_best_at push_resting insert_order allocate deallocate used push_back remove
    is_empty find put erase assign remove_key new_book
returned = refl

filled_is : filled.after ≡ crowded
filled_is =
    let e = sym filled.returns ∙ returned in
    ap (λ (r : Option (OrderBook × List TradeEvent)). elim r [ none ↦ small | some x ↦ x.0 ]) e

crowded-IsBook : IsBook 1 crowded filled.bids filled.asks
crowded-IsBook = subst (λ b. IsBook 1 b filled.bids filled.asks) filled_is filled.book

process_new_order-cancel_example :
    (process_new_order 1 0 ticks 2 buy (pos 101) 15 crowded ≡ some (crowded, []))
    × ((after : OrderBook) × (cancel 1 crowded ≡ (true, after))
        × Matched 1 true 2
            (pos 101)
            ticks
            (entries (heap crowded) (delete 0 filled.bids))
            (sweep true (pos 101) 15 (entries (heap crowded) (delete 0 filled.asks)))
            (process_new_order 1 0 ticks 2 buy (pos 101) 15 after))
unfolding crowded lookup used
process_new_order-cancel_example =
    process_new_order-cancel 1 0 ticks 2 buy (pos 101) 15 crowded filled.bids filled.asks 1 0
      crowded-IsBook refl (omega arith) (omega arith) refl
