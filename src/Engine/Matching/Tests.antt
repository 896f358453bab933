-- ===== src/Engine/Matching/Tests.antt =====
-- The scenarios of tests/order_book_test.cpp on the model.
use Prim.Native.Nat.{ℕ}
use low_latency_project.Prelude.{◌≡◌, refl, Option, none, some, List, [], ◌∷◌}
use low_latency_project.Prelude.Int.{ℤ, pos}
use low_latency_project.Prelude.Map.{find, put, erase, lookup, assign, remove_key}
use low_latency_project.Core.Types.{Side, buy, sell}
use low_latency_project.Core.Pool.{allocate, deallocate, used}
use low_latency_project.Order.Record.{zero_order, TradeEvent}
use low_latency_project.Order.Level.{PriceLevel, push_back, remove, is_empty}
use low_latency_project.Order.Book.{
  OrderBook, new_book, size, get_best_bid, insert_order, push_resting, refresh_best_at, add_resting,
  remove_order, unlist, cancel, refresh_best,
}
use low_latency_project.Engine.Matching.{
  match_loop, match_round, fill_orders, retire, finish, match_order, process_new_order,
}

abbrev fresh : OrderBook
unfolding new_book
fresh = new_book 4 (λ _. zero_order)

-- A limit order of the given side, price and quantity arrives; faults leave the book as it is.
after : ℕ → Side → ℕ → ℕ → OrderBook → OrderBook
unfolding process_new_order match_order match_loop match_round fill_orders retire finish add_resting
    refresh_best refresh_best_at push_resting insert_order allocate deallocate used push_back remove
    is_empty find put erase assign remove_key
after id side price qty b = elim (process_new_order 4 0 (λ _. 0) id side (pos price) qty b) [
  | none ↦ b
  | some r ↦ r.0
]

trades_of : ℕ → Side → ℕ → ℕ → OrderBook → List (ℕ × ℕ × ℤ)
unfolding after
trades_of id side price qty b = elim (process_new_order 4 0 (λ _. 0) id side (pos price) qty b) [
  | none ↦ []
  | some r ↦ map_trades r.1
]
  where
    map_trades : List TradeEvent → List (ℕ × ℕ × ℤ)
    map_trades [] = []
    map_trades (t ∷ ts) = (t.passive_id, t.trade_qty, t.trade_price) ∷ map_trades ts

best_price : Option PriceLevel → ℤ
best_price none = pos 0
best_price (some l) = l.price

-- test_1: the best of three bids
best_of_bids :
    best_price (get_best_bid (after 3 buy 102 10 (after 2 buy 105 10 (after 1 buy 100 10 fresh))))
    ≡ pos 105
unfolding fresh after best_price get_best_bid
best_of_bids = refl

-- test_6: the remainder of a larger aggressive order rests
sweep :
    trades_of 3 buy 201 25 (after 2 sell 201 5 (after 1 sell 200 10 fresh))
    ≡ (1, 10, pos 200) ∷ (2, 5, pos 201) ∷ []
unfolding fresh trades_of
sweep = refl

-- test_3: cancelling the best bid
cancel_best :
    best_price (get_best_bid (cancel 2 (after 2 buy 105 10 (after 1 buy 100 10 fresh))).1) ≡ pos 100
unfolding fresh after best_price get_best_bid cancel lookup unlist remove_order
cancel_best = refl

-- test_8: a full pool refuses
exhausted :
    size (
      after 5 buy 5 1 (after 4 buy 4 1 (after 3 buy 3 1 (after 2 buy 2 1 (after 1 buy 1 1 fresh)))))
    ≡ 4
unfolding fresh after size
exhausted = refl
