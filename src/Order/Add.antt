-- ===== src/Order/Add.antt =====
-- src/order/order_book.cpp: `OrderBook::add` on a book at rest.
use mathlib.Core.Path.{ap₂, subst}
use low_latency_project.Prelude.{
  ℕ, ◌^◌, ◌≡◌, ◌<◌, refl, sym, ap, ◌∙◌, Bool, false, not, none, some, [], ◌∷◌, update, arith, inl,
  inr, Bool-cases,
}
use low_latency_project.Prelude.Map.{first_key, put, find, lookup, assign}
use low_latency_project.Core.Types.{OrderId, Price, Quantity, Timestamp, Side, is_buy}
use low_latency_project.Core.Pool.{ObjectPool, allocate, used}
use low_latency_project.Core.Pool.Slots.{Allocated, allocate_lem}
use low_latency_project.Order.Record.{Order, Heap, Pointer, zero_order}
use low_latency_project.Order.Level.{PriceLevel, push_back}
use low_latency_project.Order.Book.{
  OrderBook, Levels, heap, set_heap, limit_order, refresh_best, refresh_best_at, push_resting,
  improves, level_or_empty, greater, less, add, insert_order, is_closed,
}
use low_latency_project.Order.Shape.{Shape, Entry, entries, order_of, Rests}
use low_latency_project.Order.Invariant.{IsBook}
use low_latency_project.Order.Insert.Place.{insert_entry}
use low_latency_project.Engine.Matching.{hit_levels, set_hit_levels}
use low_latency_project.Engine.Matching.Finish.{push_resting-far}
use low_latency_project.Engine.Matching.Refine.{choose-back}
use low_latency_project.Engine.Matching.Rest
use low_latency_project.Engine.Matching.Start
use low_latency_project.Engine.Matching.Turned.{choose, turn_back}

-- A price that is not better than the best one does not come first.
first_key-put :
    (before : Price → Price → Bool) (price : Price) (l : PriceLevel) (levels : Levels)
    → improves before price (first_key levels) ≡ false
    → first_key (put before price l levels) ≡ first_key levels
unfolding put
first_key-put before price l [] h = absurd (ground (arith, h))
first_key-put before price l ((k, v) ∷ levels) h = ground (arith, h)

-- The best price that `add` refreshes only when the new price is better is then the right one.
refresh_best_at-is :
    (side : Side) (price : Price) (l : PriceLevel) (c : OrderBook)
    → c.best_bid ≡ first_key c.bids
    → c.best_ask ≡ first_key c.asks
    → (let s = is_buy side in
        let x = set_hit_levels (not s) (put (order_of s) price l (hit_levels (not s) c)) c in
        refresh_best_at side price x ≡ refresh_best x)
unfolding refresh_best_at refresh_best
refresh_best_at-is side price l c on_bid on_ask = elim (Bool-cases (is_buy side)) [
  | inl buys ↦ rw buys (elim (Bool-cases (improves greater price c.best_bid)) [
    | inl better ↦ rw better (ground arith)
    | inr worse ↦
        let e =
          first_key-put greater price l c.bids
            (subst (λ k. improves greater price k ≡ false) on_bid worse) in
        rw worse (ground (arith, e))
  ])
  | inr sells ↦ rw sells (elim (Bool-cases (improves less price c.best_ask)) [
    | inl better ↦ rw better (ground arith)
    | inr worse ↦
        let e =
          first_key-put less price l c.asks
            (subst (λ k. improves less price k ≡ false) on_ask worse) in
        rw worse (ground (arith, e))
  ])
]

-- What `add` leaves: the new order rests behind those of a better or the same price, the other side is
-- as it was, and nothing is matched.
pub record Added (capacity : ℕ) (b : OrderBook) (bids asks : Shape) (s : Bool) (new : Entry)
    (r : Pointer × OrderBook) : Type 0 where
  pub slot : ℕ
  pub after : OrderBook
  pub new_bids : Shape
  pub new_asks : Shape
  pub returns : r ≡ (some slot, after)
  pub book : IsBook capacity after new_bids new_asks
  pub other_side :
      entries (heap after) (choose s new_bids new_asks) ≡ entries (heap b) (choose s bids asks)
  pub own_side :
      entries (heap after) (choose s new_asks new_bids)
      ≡ insert_entry s new (entries (heap b) (choose s asks bids))

module _ (capacity : ℕ) (now : Timestamp) (id : OrderId) (side : Side) (price : Price)
    (qty : Quantity) (b : OrderBook) (bids asks : Shape) (ok : IsBook capacity b bids asks)
    (fresh : lookup id b.order_map ≡ none) (positive : 0 < qty) (small : qty < 2 ^ 64) where
  abbrev s : Bool
  s = is_buy side

  abbrev new : Order
  new = limit_order id side price qty now

  module _ (a : ℕ) (q : ObjectPool Order) (took : Allocated capacity zero_order b.pool a q) where
    abbrev started : OrderBook
    started = record b { pool = record q { storage = update q.storage a new } }

    abbrev after : OrderBook
    after = refresh_best (Rest.rested s a started (heap started) price)

    new_is : heap started a ≡ new
    new_is = Start.new_is capacity new b bids asks ok fresh small a q took

    rests : Rests (heap started) s price a
    rests = record {
      at_price = ap (λ (o : Order). o.price) new_is;
      on_side = ap (λ (o : Order). is_buy o.side) new_is;
      filling = rw new_is positive;
      fits = rw new_is small;
      alive = ap (λ (o : Order). is_closed o.state) new_is;
    }

    abbrev levels : Levels
    levels = hit_levels (not s) started

    abbrev pushed : Heap × PriceLevel
    pushed =
        push_back a (heap started)
          (record (level_or_empty (find (order_of s) price levels)) { price = price })

    abbrev listing : OrderBook
    listing = record started { order_map = assign id a b.order_map }

    taken :
        allocate capacity zero_order b.pool ≡ (some a, q)
        → add capacity now id side price qty b
          ≡ (some a, refresh_best_at side price (push_resting side price a listing))
    unfolding add
    taken took_is = ground arith

    refreshed : refresh_best_at side price (push_resting side price a listing) ≡ after
    unfolding insert_order
    refreshed =
        ap (refresh_best_at side price) (push_resting-far s side price a listing refl)
        ∙ refresh_best_at-is side price (pushed.1) (set_heap listing (pushed.0)) ok.best_bid
            ok.best_ask
        ∙ ap
            (λ n. refresh_best (
              set_hit_levels (not s) (put (order_of s) price (pushed.1) levels)
                (record (set_heap started (pushed.0)) { order_map = assign n a b.order_map })))
            (sym (ap (λ (o : Order). o.id) new_is))

    Added-rested :
        allocate capacity zero_order b.pool ≡ (some a, q)
        → Added capacity b bids asks s
            (record { id = id; price = price; remaining = qty })
            (add capacity now id side price qty b)
    unfolding refresh_best
    Added-rested took_is =
        let hit = choose s bids asks in
        let far = choose s asks bids in
        let mid = Start.Mid-start capacity new b bids asks ok fresh small a q took in
        let far' =
          Rest.new_far capacity s a hit far started mid (heap started) (λ _ _. refl) refl price
            rests in
        record {
          slot = a;
          after = after;
          new_bids = choose s hit far';
          new_asks = choose s far' hit;
          returns = taken took_is ∙ ap (λ x. (some a, x)) refreshed;
          book = turn_back capacity s (Rest.rested s a started (heap started) price) hit far' (
              Rest.Turned-rested capacity s a hit far started mid (heap started) (λ _ _. refl) refl
                price rests);
          other_side =
              ap (entries (heap after)) (choose-back s hit far').0
              ∙ Rest.entries-hit-rested capacity s a hit far started mid (heap started)
                  (λ _ _. refl) refl price rests
              ∙ Start.same_hit capacity new b bids asks ok fresh small a q took;
          own_side =
              ap (entries (heap after)) (choose-back s hit far').1
              ∙ Rest.entries-far-rested capacity s a hit far started mid (heap started)
                  (λ _ _. refl) refl price rests
              ∙ ap₂
                  (λ (o : Order) es.
                    insert_entry s
                      (record { id = o.id; price = price; remaining = o.remaining_qty }) es)
                  new_is (Start.same_far capacity new b bids asks ok fresh small a q took);
        }

  -- `add` on a book at rest, for an id that is not listed, a quantity of 64 bits above 0 and a pool with
  -- a free slot, returns that slot and leaves a book at rest, whose best prices are right: the new
  -- order rests behind those of a better or the same price, and the other side is as it was.
  pub add_lem :
      used b.pool < capacity
      → Added capacity b bids asks s
          (record { id = id; price = price; remaining = qty })
          (add capacity now id side price qty b)
  add_lem room = elim (allocate_lem capacity zero_order b.pool ok.accounts.valid) [
    | inl (h, none_free) ↦ absurd (omega (arith, room, h))
    | inr (h, (a, q, took_is, took)) ↦ Added-rested a q took took_is
  ]
