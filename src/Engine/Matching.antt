-- ===== src/Engine/Matching.antt =====
-- include/engine/matching_engine.hpp and src/engine/matching_engine.cpp: `MatchingEngine`.
-- `none` stands for undefined behaviour (a level with no head) or for fuel that ran out; the fuel is
-- one more than the slots in use. `clock n` is what the clock says at the n-th trade of a call.
pub mod Fill
pub mod Partial
pub mod Whole
pub mod Mid
pub mod Priority
pub mod Loop
pub mod Turned
pub mod Finish
pub mod Rest
pub mod Start
pub mod Refine
pub mod Uncrossed
pub mod Fair
pub mod Full
mod Tests
use Prim.Native.Nat.{min}
use low_latency_project.Prelude.{
  ℕ, zero, suc, ◌+◌, ◌-◌, ◌%◌, ◌^◌, Bool, true, false, not, Option, none, some, List, [], ◌∷◌, ◌++◌,
  ◌==◌, if◌then◌else◌, length, update,
}
use low_latency_project.Prelude.Int.{ℤ, ltb_ℤ}
use low_latency_project.Prelude.Map.{Entries, remove_key}
use low_latency_project.Core.Types.{OrderId, Price, Quantity, Timestamp, Side, is_buy}
use low_latency_project.Core.Pool.{ObjectPool, allocate, deallocate, used}
use low_latency_project.Order.Record.{
  OrderState, part_fill, filled, Pointer, Order, zero_order, TradeEvent, Heap, set_remaining,
  set_state,
}
use low_latency_project.Order.Level.{PriceLevel, remove, is_empty}
use low_latency_project.Order.Book.{
  Levels, OrderBook, heap, set_heap, limit_order, add_resting, cancel, refresh_best,
}

-- `uint64_t` subtraction wraps.
abbrev pub sub_u64 : ℕ → ℕ → ℕ
sub_u64 a b = (a + 2 ^ 64 - b % 2 ^ 64) % 2 ^ 64

-- The side that an aggressive order hits: the asks if it buys.
abbrev pub hit_levels : Bool → OrderBook → Levels
hit_levels hits_asks b = if hits_asks then b.asks else b.bids

abbrev pub set_hit_levels : Bool → Levels → OrderBook → OrderBook
set_hit_levels hits_asks levels b =
    if hits_asks then record b { asks = levels } else record b { bids = levels }

-- What is written through the reference to the level at `begin()`.
abbrev pub set_first : PriceLevel → Levels → Levels
set_first level [] = []
set_first level ((k, old) ∷ levels) = (k, level) ∷ levels

-- `erase(begin())`
abbrev pub erase_first : Levels → Levels
erase_first [] = []
erase_first (entry ∷ levels) = levels

-- The order does not cross: `price < best_price` for a buyer, `price > best_price` for a seller.
abbrev pub out_of_reach : Bool → Price → Price → Bool
out_of_reach hits_asks price best_price =
    if hits_asks then ltb_ℤ price best_price else ltb_ℤ best_price price

-- The passive order is filled: it leaves the level, the map and the pool, and an empty level goes.
unfoldable pub retire : Bool → ℕ → PriceLevel → OrderBook → OrderBook
retire hits_asks p level b =
    let (h, level') = remove p (heap b) level in
    let b1 = set_heap b h in
    let b2 = record b1 {
      order_map = remove_key (h p).id b1.order_map;
      pool = deallocate (some p) b1.pool;
    } in
    let levels = hit_levels hits_asks b2 in
    set_hit_levels hits_asks
      (if is_empty level' then erase_first levels else set_first level' levels) b2

-- The quantities and the state that one trade leaves in the two orders.
unfoldable pub fill_orders : ℕ → ℕ → Quantity → Heap → Heap
fill_orders a p fill_qty h =
    let h1 = set_remaining h a (sub_u64 (h a).remaining_qty fill_qty) in
    let h2 = set_remaining h1 p (sub_u64 (h1 p).remaining_qty fill_qty) in
    set_state h2 p (if (h2 p).remaining_qty == 0 then filled else part_fill)

-- The body of the loop behind its tests: one trade of the aggressive order `a` with the passive `p`.
unfoldable pub match_round :
    Timestamp → Bool → ℕ → ℕ → Price → PriceLevel → OrderBook → OrderBook × TradeEvent
match_round now hits_asks a p best_price level b =
    let h = heap b in
    let fill_qty = min (h a).remaining_qty (h p).remaining_qty in
    let trade : TradeEvent = record {
      aggressive_id = (h a).id;
      passive_id = (h p).id;
      trade_price = best_price;
      trade_qty = fill_qty;
      timestamp_ns = now;
    } in
    let level1 = record level { total_qty = sub_u64 level.total_qty fill_qty } in
    let h3 = fill_orders a p fill_qty h in
    let b1 = set_heap b h3 in
    (
      if (h3 p).remaining_qty == 0
          then retire hits_asks p level1 b1
          else set_hit_levels hits_asks (set_first level1 (hit_levels hits_asks b1)) b1,
      trade,
    )

unfoldable pub match_loop :
    (ℕ → Timestamp)
    → ℕ
    → Bool
    → ℕ
    → OrderBook
    → List TradeEvent
    → Option (OrderBook × List TradeEvent)
match_loop clock zero hits_asks a b trades = none
match_loop clock (suc fuel) hits_asks a b trades = elim ((heap b a).remaining_qty == 0) [
  | true ↦ some (b, trades)
  | false ↦ elim (hit_levels hits_asks b) [
    | [] ↦ some (b, trades)
    | entry ∷ levels ↦ elim (out_of_reach hits_asks (heap b a).price (entry.0)) [
      | true ↦ some (b, trades)
      | false ↦ elim (entry.1.head) [
        | none ↦ none
        | some p ↦
            let r = match_round (clock (length trades)) hits_asks a p (entry.0) (entry.1) b in
            match_loop clock fuel hits_asks a (r.0) (trades ++ (r.1 ∷ []))
      ]
    ]
  ]
]

-- The remainder of the aggressive order rests; a filled one goes back to the pool.
unfoldable pub finish : ℕ → OrderBook → OrderBook
finish a b =
    let h = set_state (heap b) a (if (heap b a).remaining_qty == 0 then filled else part_fill) in
    let b1 = set_heap b h in
    refresh_best (
      if (h a).remaining_qty == 0
      then record b1 { pool = deallocate (some a) b1.pool }
      else add_resting a b1)

unfoldable pub match_order : (ℕ → Timestamp) → ℕ → OrderBook → Option (OrderBook × List TradeEvent)
match_order clock a b = elim (match_loop clock (used b.pool + 1) (is_buy (heap b a).side) a b []) [
  | none ↦ none
  | some r ↦ some (finish a (r.0), r.1)
]

unfoldable pub process_new_order :
    ℕ
    → Timestamp
    → (ℕ → Timestamp)
    → OrderId
    → Side
    → Price
    → Quantity
    → OrderBook
    → Option (OrderBook × List TradeEvent)
process_new_order capacity now clock id side price qty b =
    let (o, pool) = allocate capacity zero_order b.pool in
    elim o [
      | none ↦ some (b, [])
      | some a ↦
          let h = update pool.storage a (limit_order id side price qty now) in
          match_order clock a (record b { pool = record pool { storage = h } })
    ]

unfoldable pub process_cancel_order : OrderId → OrderBook → Bool × OrderBook
process_cancel_order = cancel
