-- ===== src/Examples/Matching.antt =====
-- A book of four slots: an ask of 10 at 100 rests, and a bid of 15 at 101 arrives.
use low_latency_project.Prelude.{
  ◌<◌, ℕ, ◌≡◌, refl, sym, ap, ◌∙◌, true, false, Option, none, some, List, [], arith,
}
use mathlib.Core.Path.{subst}
use low_latency_project.Prelude.Int.{pos, negsuc}
use low_latency_project.Prelude.Map.{find, put, erase, lookup, assign, remove_key}
use low_latency_project.Core.Types.{buy, sell}
use low_latency_project.Core.Pool.{allocate, deallocate, used}
use low_latency_project.Order.Record.{Heap, zero_order, TradeEvent}
use low_latency_project.Order.Level.{push_back, remove, is_empty}
use low_latency_project.Order.Book.{
  OrderBook, new_book, heap, insert_order, push_resting, refresh_best_at, add_resting, refresh_best,
  cancel, limit_order, add, modify,
}
use low_latency_project.Order.Shape.{Shape, entries}
use low_latency_project.Order.Invariant.{IsBook, new_book-IsBook}
use low_latency_project.Order.Cancel.{Cancelled, cancel_lem}
use low_latency_project.Order.Add.{Added, add_lem}
use low_latency_project.Order.Modify.{Modified, modify_lem}
use low_latency_project.Engine.Matching.{
  match_loop, match_round, fill_orders, retire, finish, match_order, process_new_order,
}
use low_latency_project.Core.Ring.{pop}
use low_latency_project.Engine.Risk.{RiskLimits}
use low_latency_project.Engine.Session.{new_session, active}
use low_latency_project.Engine.Run.{EngineState, round}
use low_latency_project.Engine.Run.Stepped.{Kept}
use low_latency_project.Engine.Run.Keeps.{round-IsBook}
use low_latency_project.Metrics.Latency.{zeros}
use low_latency_project.Engine.Matching.Loop.{stamp}
use low_latency_project.Engine.Matching.Priority.{Fill, sweep}
use low_latency_project.Engine.Matching.Refine.{Matched, rest_of, process_new_order_lem}
use low_latency_project.Engine.Matching.Uncrossed.{
  IsUncrossed, Matched-IsUncrossed, process_new_order-IsUncrossed,
}
use low_latency_project.Engine.Matching.Fair.{IsFair, process_new_order-IsFair}

abbrev pub bytes : Heap
bytes _ = zero_order

abbrev pub ticks : ℕ → ℕ
ticks n = n

abbrev pub fresh : OrderBook
fresh = new_book 4 bytes

fresh-IsBook : IsBook 4 fresh [] []
fresh-IsBook = new_book-IsBook 4 bytes

-- The book when the ask rests.
abbrev pub resting : OrderBook
unfolding process_new_order match_order match_loop match_round fill_orders retire finish add_resting
    refresh_best refresh_best_at push_resting insert_order allocate deallocate used push_back remove
    is_empty find put erase assign remove_key new_book
resting = elim (process_new_order 4 0 ticks 1 sell (pos 100) 10 fresh) [
  | none ↦ fresh
  | some r ↦ r.0
]

pub first :
    Matched 4 false 1
      (pos 100)
      ticks
      []
      (sweep false (pos 100) 10 [])
      (process_new_order 4 0 ticks 1 sell (pos 100) 10 fresh)
unfolding lookup used new_book
first =
    process_new_order_lem 4 0 ticks 1 sell (pos 100) 10 fresh [] [] fresh-IsBook refl (omega arith)
      (omega arith)

returned : process_new_order 4 0 ticks 1 sell (pos 100) 10 fresh ≡ some (resting, [])
unfolding process_new_order match_order match_loop match_round fill_orders retire finish add_resting
    refresh_best refresh_best_at push_resting insert_order allocate deallocate used push_back remove
    is_empty find put erase assign remove_key new_book
returned = refl

first_is : first.after ≡ resting
first_is =
    let e = sym first.returns ∙ returned in
    ap (λ (r : Option (OrderBook × List TradeEvent)). elim r [ none ↦ fresh | some x ↦ x.0 ]) e

pub resting-IsBook : IsBook 4 resting first.bids first.asks
resting-IsBook = subst (λ b. IsBook 4 b first.bids first.asks) first_is first.book

resting-IsUncrossed :
    IsUncrossed (entries (heap resting) first.bids) (entries (heap resting) first.asks)
resting-IsUncrossed =
    subst (λ b. IsUncrossed (entries (heap b) first.bids) (entries (heap b) first.asks)) first_is
      (Matched-IsUncrossed 4 false 1 (pos 100) 10 ticks bytes [] []
        (process_new_order 4 0 ticks 1 sell (pos 100) 10 fresh) first
        (λ x y has_x has_y. absurd has_x))

process_new_order_lem_example :
    Matched 4 true 2
      (pos 101)
      ticks
      (entries (heap resting) first.bids)
      (sweep true (pos 101) 15 (entries (heap resting) first.asks))
      (process_new_order 4 0 ticks 2 buy (pos 101) 15 resting)
unfolding resting lookup used
process_new_order_lem_example =
    process_new_order_lem 4 0 ticks 2 buy (pos 101) 15 resting first.bids first.asks resting-IsBook
      refl (omega arith) (omega arith)

process_new_order-IsUncrossed_example :
    (after : OrderBook) × (bids' asks' : Shape) × (trades : List TradeEvent) × (process_new_order 4
        0 ticks 2 buy
        (pos 101)
        15
        resting
      ≡ some (after, trades))
    × IsBook 4 after bids' asks'
    × IsUncrossed (entries (heap after) bids') (entries (heap after) asks')
unfolding resting lookup used
process_new_order-IsUncrossed_example =
    process_new_order-IsUncrossed 4 0 ticks 2 buy (pos 101) 15 resting first.bids first.asks
      resting-IsBook refl (omega arith) (omega arith) resting-IsUncrossed

process_new_order-IsFair_example :
    (after : OrderBook) × (bids' asks' : Shape) × (fills : List Fill) × (left : ℕ)
    × (process_new_order 4 0 ticks 2 buy (pos 101) 15 resting ≡ some (after, stamp ticks 0 2 fills))
    × IsBook 4 after bids' asks'
    × IsFair true
        (pos 101)
        15
        (entries (heap resting) first.asks)
        fills
        left
        (entries (heap after) asks')
    × (entries (heap after) bids'
        ≡ rest_of true 2 (pos 101) left (entries (heap resting) first.bids))
unfolding resting lookup used
process_new_order-IsFair_example =
    process_new_order-IsFair 4 0 ticks 2 buy (pos 101) 15 resting first.bids first.asks
      resting-IsBook refl (omega arith) (omega arith)

new_book-IsBook_example : IsBook 4 (new_book 4 bytes) [] []
new_book-IsBook_example = new_book-IsBook 4 bytes

cancel_lem_example : Cancelled 4 resting first.bids first.asks 1 0 (cancel 1 resting)
unfolding resting lookup
cancel_lem_example = cancel_lem 4 resting first.bids first.asks resting-IsBook 1 0 refl

abbrev pub limits : RiskLimits
limits = record {
  max_order_qty = 1000;
  max_notional = 1000000;
  max_long_position = pos 500;
  max_short_position = negsuc 499;
}

abbrev pub nothing : TradeEvent
nothing = record {
  aggressive_id = 0;
  passive_id = 0;
  trade_price = pos 0;
  trade_qty = 0;
  timestamp_ns = 0;
}

pub resting-unlisted : lookup 2 resting.order_map ≡ none
unfolding resting lookup
resting-unlisted = refl

pub resting-room : used resting.pool < 4
unfolding resting used
resting-room = omega arith

-- The engine when a bid waits in its inbound ring.
abbrev pub waiting : EngineState
waiting = record {
  book = resting;
  risk_state = record { net_position = pos 0; orders_sent = 0; orders_rejected = 0 };
  session = record new_session { state = active };
  inbound = record { head = 0; tail = 1; buffer = λ _. limit_order 2 buy (pos 101) 15 0 };
  outbound = record { head = 0; tail = 0; buffer = λ _. nothing };
  tracker = zeros 64;
  journal = [];
  journal_record_count = 0;
  order_count = 0;
}

round-IsBook_example : Kept 4 (round limits 4 9 ticks 100 waiting)
unfolding resting lookup pop
round-IsBook_example =
    round-IsBook limits 4 ticks 100 first.bids first.asks 9 waiting resting-IsBook
      resting-IsUncrossed
      (λ o e.
        let same : limit_order 2 buy (pos 101) 15 0 ≡ o = cc in
        (rw (sym same) refl, rw (sym same) (omega arith)))

add_lem_example :
    Added 4 resting first.bids first.asks true
      (record { id = 2; price = pos 99; remaining = 7 })
      (add 4 0 2 buy (pos 99) 7 resting)
unfolding resting lookup used
add_lem_example =
    add_lem 4 0 2 buy (pos 99) 7 resting first.bids first.asks resting-IsBook refl (omega arith)
      (omega arith) (omega arith)

modify_lem_example :
    Modified 4 resting first.bids first.asks false 0
      (record { id = 1; price = pos 100; remaining = 7 })
      (modify 4 0 1 7 resting)
unfolding resting lookup
modify_lem_example =
    modify_lem 4 0 1 7 resting first.bids first.asks resting-IsBook 0 refl (omega arith)
      (omega arith)
