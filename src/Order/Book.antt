-- ===== src/Order/Book.antt =====
-- include/order/order_book.hpp and src/order/order_book.cpp: `OrderBook`.
-- The orders live in the pool's slots; the two sides are `std::map`s from price to level, sorted best
-- price first. An iterator is the key of its node, `none` for `end()`. The clock is an argument.
use low_latency_project.Prelude.{
  ℕ, Bool, true, false, Option, none, some, [], if◌then◌else◌, length, update,
}
use low_latency_project.Prelude.Int.{ltb_ℤ}
use low_latency_project.Prelude.Map.{
  Entries, first_key, find, put, erase, lookup, assign, remove_key,
}
use low_latency_project.Core.Types.{OrderId, Price, Quantity, Timestamp, Side, is_buy, limit}
use low_latency_project.Core.Pool.{ObjectPool, new_pool, allocate, deallocate}
use low_latency_project.Order.Record.{
  OrderState, new_order, part_fill, filled, cancelled, Pointer, Order, zero_order, Heap, set_state,
}
use low_latency_project.Order.Level.{PriceLevel, empty_level, push_back, remove, is_empty}

-- The capacity of the order pool. The operations that look at it take it as an argument.
abbrev pub pool_capacity : ℕ
pool_capacity = 65536

abbrev pub Levels : Type 0
Levels = Entries Price PriceLevel

-- `std::greater<Price>` orders the bids, `std::less<Price>` the asks.
abbrev pub greater : Price → Price → Bool
greater a b = ltb_ℤ b a

abbrev pub less : Price → Price → Bool
less a b = ltb_ℤ a b

pub record OrderBook : Type 0 where
  pub bids : Levels
  pub asks : Levels
  pub best_bid : Option Price
  pub best_ask : Option Price
  pub order_map : Entries OrderId ℕ
  pub pool : ObjectPool Order

abbrev pub heap : OrderBook → Heap
heap b = b.pool.storage

abbrev pub set_heap : OrderBook → Heap → OrderBook
set_heap b h = record b { pool = record (b.pool) { storage = h } }

-- A new book, whose pool stands on the given bytes.
unfoldable pub new_book : ℕ → Heap → OrderBook
new_book capacity bytes = record {
  bids = [];
  asks = [];
  best_bid = none;
  best_ask = none;
  order_map = [];
  pool = new_pool capacity bytes;
}

unfoldable pub has_bids : OrderBook → Bool
has_bids b = elim b.best_bid [ none ↦ false | some _ ↦ true ]

unfoldable pub has_asks : OrderBook → Bool
has_asks b = elim b.best_ask [ none ↦ false | some _ ↦ true ]

-- `none` is the dereference of `end()`.
unfoldable pub get_best_bid : OrderBook → Option PriceLevel
get_best_bid b = elim b.best_bid [ none ↦ none | some k ↦ find greater k b.bids ]

unfoldable pub get_best_ask : OrderBook → Option PriceLevel
get_best_ask b = elim b.best_ask [ none ↦ none | some k ↦ find less k b.asks ]

unfoldable pub size : OrderBook → ℕ
size b = length b.order_map

-- `best_bid_ == bids_.end() || price > best_bid_->first`, and the same for asks.
abbrev pub improves : (Price → Price → Bool) → Price → Option Price → Bool
improves before price none = true
improves before price (some best) = before price best

-- `refresh_best_bid_ask(Side, Price)`
unfoldable pub refresh_best_at : Side → Price → OrderBook → OrderBook
refresh_best_at side price b =
    if is_buy side
    then (if improves greater price b.best_bid then record b { best_bid = first_key b.bids } else b)
    else (if improves less price b.best_ask then record b { best_ask = first_key b.asks } else b)

-- `refresh_best_bid_ask()`
unfoldable pub refresh_best : OrderBook → OrderBook
refresh_best b = record b { best_bid = first_key b.bids; best_ask = first_key b.asks }

-- `levels[price].price = price; levels[price].push_back(o)`: a new price makes an empty level first.
abbrev pub level_or_empty : Option PriceLevel → PriceLevel
level_or_empty none = empty_level
level_or_empty (some l) = l

unfoldable pub insert_order : (Price → Price → Bool) → Price → ℕ → Heap → Levels → Heap × Levels
insert_order before price o h levels =
    let level = record (level_or_empty (find before price levels)) { price = price } in
    let (h', level') = push_back o h level in (h', put before price level' levels)

-- The branch on the side that `add` and `add_resting` share.
unfoldable pub push_resting : Side → Price → ℕ → OrderBook → OrderBook
push_resting side price o b =
    if is_buy side
    then (let (h, levels) = insert_order greater price o (heap b) b.bids in
        record (set_heap b h) { bids = levels })
    else (let (h, levels) = insert_order less price o (heap b) b.asks in
        record (set_heap b h) { asks = levels })

abbrev pub limit_order : OrderId → Side → Price → Quantity → Timestamp → Order
limit_order id side price qty now = record {
  id = id;
  price = price;
  qty = qty;
  remaining_qty = qty;
  side = side;
  type = limit;
  state = new_order;
  timestamp_ns = now;
  prev = none;
  next = none;
}

unfoldable pub add :
    ℕ → Timestamp → OrderId → Side → Price → Quantity → OrderBook → Pointer × OrderBook
add capacity now id side price qty b =
    let (o, pool) = allocate capacity zero_order b.pool in
    elim o [
      | none ↦ (none, b)
      | some p ↦
          let h = update pool.storage p (limit_order id side price qty now) in
          let b1 = record b {
            pool = record pool { storage = h };
            order_map = assign id p b.order_map;
          } in
          (some p, refresh_best_at side price (push_resting side price p b1))
    ]

unfoldable pub add_resting : ℕ → OrderBook → OrderBook
add_resting p b =
    let o = heap b p in
    let b1 = record b { order_map = assign o.id p b.order_map } in
    refresh_best_at o.side o.price (push_resting o.side o.price p b1)

-- `level_it->second.remove(o)`, and the erasure of a level that it leaves empty. An order whose price
-- has no level leaves all as it is.
unfoldable pub remove_order : (Price → Price → Bool) → Price → ℕ → Heap → Levels → Heap × Levels
remove_order before price o h levels = elim (find before price levels) [
  | none ↦ (h, levels)
  | some level ↦
      let (h', level') = remove o h level in
      (h', if is_empty level' then erase before price levels else put before price level' levels)
]

unfoldable pub unlist : Side → Price → ℕ → OrderBook → OrderBook
unlist side price o b =
    if is_buy side
    then (let (h, levels) = remove_order greater price o (heap b) b.bids in
        record (set_heap b h) { bids = levels })
    else (let (h, levels) = remove_order less price o (heap b) b.asks in
        record (set_heap b h) { asks = levels })

-- `o->state == OrderState::Cancelled || o->state == OrderState::Filled`
abbrev pub is_closed : OrderState → Bool
is_closed new_order = false
is_closed part_fill = false
is_closed filled = true
is_closed cancelled = true

unfoldable pub cancel : OrderId → OrderBook → Bool × OrderBook
cancel id b = elim (lookup id b.order_map) [
  | none ↦ (false, b)
  | some p ↦
      if is_closed (heap b p).state
      then (false, b)
      else (let b1 = set_heap b (set_state (heap b) p cancelled) in
          let o = heap b1 p in
          let b2 = unlist o.side o.price p b1 in
          let b3 = record b2 {
            order_map = remove_key id b2.order_map;
            pool = deallocate (some p) b2.pool;
          } in
          (true, refresh_best b3))
]

unfoldable pub modify : ℕ → Timestamp → OrderId → Quantity → OrderBook → Bool × OrderBook
modify capacity now id new_qty b = elim (lookup id b.order_map) [
  | none ↦ (false, b)
  | some p ↦
      let o = heap b p in
      let (cancelled_ok, b1) = cancel id b in
      if cancelled_ok
      then (let (q, b2) = add capacity now id o.side o.price new_qty b1 in
          (elim q [ none ↦ false | some _ ↦ true ], b2))
      else (false, b1)
]
