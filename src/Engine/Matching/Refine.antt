-- ===== src/Engine/Matching/Refine.antt =====
-- `process_new_order` against the specification: the sweep of the other side, and then the rest.
use low_latency_project.Prelude.{
  ℕ, ◌+◌, ◌^◌, ◌≡◌, ◌<◌, ◌≤◌, refl, sym, ap, ◌∙◌, Bool, true, false, Option, none, some, List, [],
  arith, ◌==◌, if◌then◌else◌, update, length, length-append, Bool-cases, inl, inr,
}
use mathlib.Core.Path.{ap₂, subst}
use low_latency_project.Prelude.Map.{lookup}
use low_latency_project.Core.Types.{OrderId, Price, Quantity, Timestamp, Side, is_buy}
use low_latency_project.Core.Pool.{ObjectPool, allocate, used}
use low_latency_project.Core.Pool.Slots.{Allocated, allocate_lem}
use low_latency_project.Order.Record.{Order, TradeEvent, zero_order}
use low_latency_project.Order.Book.{OrderBook, heap, limit_order, refresh_best}
use low_latency_project.Order.Shape.{Shape, slots, Entry, entries}
use low_latency_project.Order.Invariant.{IsBook}
use low_latency_project.Order.Insert.Place.{insert_entry}
use low_latency_project.Engine.Matching.{
  hit_levels, match_loop, match_order, finish, process_new_order,
}
use low_latency_project.Engine.Matching.Mid.{Mid}
use low_latency_project.Engine.Matching.Turned.{Turned, choose, turn_back}
use low_latency_project.Engine.Matching.Priority.{Outcome, sweep}
use low_latency_project.Engine.Matching.Loop.{Swept, stamp}
use low_latency_project.Engine.Matching.Loop.Rounds.{loop_lem}
use low_latency_project.Engine.Matching.Finish
use low_latency_project.Engine.Matching.Start

-- What the order leaves of the side on which it rests.
abbrev pub rest_of : Bool → OrderId → Price → Quantity → List Entry → List Entry
rest_of bid id price left es =
    if left == 0
    then es
    else insert_entry bid (record { id = id; price = price; remaining = left }) es

-- The result of an order that meets the entries `hit` and `far`, as the outcome `o` says.
pub record Matched (capacity : ℕ) (s : Bool) (id : OrderId) (price : Price) (clock : ℕ → Timestamp)
    (far : List Entry) (o : Outcome) (r : Option (OrderBook × List TradeEvent)) : Type 0 where
  pub after : OrderBook
  pub bids : Shape
  pub asks : Shape
  pub returns : r ≡ some (after, stamp clock 0 id o.fills)
  pub book : IsBook capacity after bids asks
  pub hit_rest : entries (heap after) (choose s bids asks) ≡ o.rest
  pub far_rest : entries (heap after) (choose s asks bids) ≡ rest_of s id price o.left far

pub choose-back :
    {A : Type 0}
    → (s : Bool) (x y : A)
    → (choose s (choose s x y) (choose s y x) ≡ x) × (choose s (choose s y x) (choose s x y) ≡ y)
choose-back true x y = (refl, refl)
choose-back false x y = (refl, refl)

match_order-returns :
    (clock : ℕ → Timestamp) (s : Bool) (a : ℕ) (b after : OrderBook) (trades : List TradeEvent)
    → is_buy (heap b a).side ≡ s
    → match_loop clock (used b.pool + 1) s a b [] ≡ some (after, trades)
    → match_order clock a b ≡ some (finish a after, trades)
unfolding match_order
match_order-returns clock s a b after trades es e =
    let now : match_loop clock (used b.pool + 1) (is_buy (heap b a).side) a b []
        ≡ some (after, trades) =
      rw es e in
    ground arith

process-taken :
    (capacity : ℕ) (now : Timestamp) (clock : ℕ → Timestamp) (id : OrderId) (side : Side)
    (price : Price) (qty : Quantity) (b : OrderBook) (a : ℕ) (q : ObjectPool Order)
    → allocate capacity zero_order b.pool ≡ (some a, q)
    → process_new_order capacity now clock id side price qty b
      ≡ match_order clock a (record b {
        pool = record q { storage = update q.storage a (limit_order id side price qty now) };
      })
unfolding process_new_order
process-taken capacity now clock id side price qty b a q e = ground arith

process-full :
    (capacity : ℕ) (now : Timestamp) (clock : ℕ → Timestamp) (id : OrderId) (side : Side)
    (price : Price) (qty : Quantity) (b : OrderBook)
    → allocate capacity zero_order b.pool ≡ (none, b.pool)
    → process_new_order capacity now clock id side price qty b ≡ some (b, [])
unfolding process_new_order
process-full capacity now clock id side price qty b e = ground arith

-- A book at rest behind the last refresh of the best prices.
conclude :
    (capacity : ℕ) (s : Bool) (hit far : Shape) (c b : OrderBook) (id : OrderId) (price : Price)
    (clock : ℕ → Timestamp) (es : List Entry) (o : Outcome)
    → Turned capacity s hit far b
    → c ≡ refresh_best b
    → entries (heap b) hit ≡ o.rest
    → entries (heap b) far ≡ rest_of s id price o.left es
    → Matched capacity s id price clock es o (some (c, stamp clock 0 id o.fills))
unfolding refresh_best
conclude capacity s hit far c b id price clock es o t e er ef = record {
  after = refresh_best b;
  bids = choose s hit far;
  asks = choose s far hit;
  returns = ap (λ x. some (x, stamp clock 0 id o.fills)) e;
  book = turn_back capacity s b hit far t;
  hit_rest = ap (entries (heap b)) (choose-back s hit far).0 ∙ er;
  far_rest = ap (entries (heap b)) (choose-back s hit far).1 ∙ ef;
}

-- The book that `finish` leaves.
finish_lem :
    (capacity : ℕ) (s : Bool) (a : ℕ) (hit far : Shape) (b : OrderBook) (id : OrderId)
    (price : Price) (clock : ℕ → Timestamp) (es : List Entry) (o : Outcome)
    → Mid capacity s a hit far b
    → is_buy (heap b a).side ≡ s
    → (heap b a).id ≡ id
    → (heap b a).price ≡ price
    → (heap b a).remaining_qty ≡ o.left
    → entries (heap b) hit ≡ o.rest
    → entries (heap b) far ≡ es
    → Matched capacity s id price clock es o (some (finish a b, stamp clock 0 id o.fills))
finish_lem capacity s a hit far b id price clock es o mid on_side at_id at_price at_left er ef =
    elim (Bool-cases ((heap b a).remaining_qty == 0)) [
      | inl done ↦
          let none_left : (o.left == 0) ≡ true = rw at_left at done in
          conclude capacity s hit far (finish a b) (Finish.freed capacity s a hit far b mid) id
            price clock es o (Finish.Turned-freed capacity s a hit far b mid)
            (Finish.finish-filled capacity s a hit far b mid done)
            (Finish.entries-hit-freed capacity s a hit far b mid ∙ er)
            (rw none_left (Finish.entries-far-freed capacity s a hit far b mid ∙ ef))
      | inr remains ↦
          let some_left : (o.left == 0) ≡ false = rw at_left at remains in
          conclude capacity s hit (Finish.new_far capacity s a hit far b mid remains on_side)
            (finish a b) (Finish.rested capacity s a hit far b mid remains on_side) id price clock
            es o (Finish.Turned-rested capacity s a hit far b mid remains on_side)
            (Finish.finish-rested capacity s a hit far b mid remains on_side)
            (Finish.entries-hit-rested capacity s a hit far b mid remains on_side ∙ er)
            (rw some_left (
              Finish.entries-far-rested capacity s a hit far b mid remains on_side
              ∙ rw (at_id, at_price, at_left, ef) refl))
    ]

-- Any order that stands in a fresh slot when `match` gets it.
module _ (capacity : ℕ) (clock : ℕ → Timestamp) (new : Order) (b : OrderBook) (bids asks : Shape)
    (ok : IsBook capacity b bids asks) (fresh : lookup new.id b.order_map ≡ none)
    (small : new.remaining_qty < 2 ^ 64) where
  abbrev id : OrderId
  id = new.id

  abbrev side : Side
  side = new.side

  abbrev price : Price
  price = new.price

  abbrev qty : Quantity
  qty = new.remaining_qty

  abbrev s : Bool
  s = is_buy side

  abbrev hit : Shape
  hit = choose s bids asks

  abbrev far : Shape
  far = choose s asks bids

  module _ (a : ℕ) (q : ObjectPool Order) (took : Allocated capacity zero_order b.pool a q) where
    abbrev started : OrderBook
    started = record b { pool = record q { storage = update q.storage a new } }

    new_is : heap started a ≡ new
    new_is = Start.new_is capacity new b bids asks ok fresh small a q took

    Mid-start : Mid capacity s a hit far started
    Mid-start = Start.Mid-start capacity new b bids asks ok fresh small a q took

    same_hit : entries (heap started) hit ≡ entries (heap b) hit
    same_hit = Start.same_hit capacity new b bids asks ok fresh small a q took

    same_far : entries (heap started) far ≡ entries (heap b) far
    same_far = Start.same_far capacity new b bids asks ok fresh small a q took

    -- Every slot in use is enough fuel.
    enough : length (slots hit) < used started.pool + 1
    enough = omega (arith, Mid-start.accounts.counted, length-append (slots hit) (slots far))

    swept :
        Swept capacity s a far clock started []
          (sweep s price qty (entries (heap b) hit))
          (match_loop clock (used started.pool + 1) s a started [])
    swept =
        subst
          (λ (o : Outcome).
            Swept capacity s a far clock started [] o
              (match_loop clock (used started.pool + 1) s a started []))
          (ap₂ (λ (o : Order) es. sweep s o.price o.remaining_qty es) new_is same_hit)
          (loop_lem clock s a capacity far (used started.pool + 1) started [] hit
            (hit_levels s started) refl Mid-start enough)

    after_is :
        heap swept.after a
        ≡ record new { remaining_qty = (sweep s price qty (entries (heap b) hit)).left }
    after_is =
        swept.aggressive
        ∙ ap
            (λ (o : Order). record o {
              remaining_qty = (sweep s price qty (entries (heap b) hit)).left;
            })
            new_is

    pub match_order_lem :
        Matched capacity s id price clock
          (entries (heap b) far)
          (sweep s price qty (entries (heap b) hit))
          (match_order clock a started)
    match_order_lem =
        subst
          (Matched capacity s id price clock (entries (heap b) far)
            (sweep s price qty (entries (heap b) hit)))
          (sym (
            match_order-returns clock s a started swept.after
              (stamp clock 0 id (sweep s price qty (entries (heap b) hit)).fills)
              (ap (λ (o : Order). is_buy o.side) new_is)
              (swept.returns
                ∙ ap
                    (λ (o : Order). some (
                      swept.after,
                      stamp clock 0 o.id (sweep s price qty (entries (heap b) hit)).fills,
                    ))
                    new_is)))
          (finish_lem capacity s a swept.side far swept.after id price clock (entries (heap b) far)
            (sweep s price qty (entries (heap b) hit)) swept.mid
            (ap (λ (o : Order). is_buy o.side) after_is) (ap (λ (o : Order). o.id) after_is)
            (ap (λ (o : Order). o.price) after_is) (ap (λ (o : Order). o.remaining_qty) after_is)
            swept.rest (swept.far_rest ∙ same_far))

-- `process_new_order` on a book at rest, for an id that is not listed, a quantity below 2 ^ 64 and a
-- pool with a free slot, returns: its trades are those of the specification's sweep over the other
-- side, that side keeps what the sweep leaves, the remainder rests behind the orders of a better or
-- the same price, and the book is at rest again.
pub process_new_order_lem :
    (capacity : ℕ) (now : Timestamp) (clock : ℕ → Timestamp) (id : OrderId) (side : Side)
    (price : Price) (qty : Quantity) (b : OrderBook) (bids asks : Shape)
    → IsBook capacity b bids asks
    → lookup id b.order_map ≡ none
    → qty < 2 ^ 64
    → used b.pool < capacity
    → Matched capacity
        (is_buy side)
        id
        price
        clock
        (entries (heap b) (choose (is_buy side) asks bids))
        (sweep (is_buy side) price qty (entries (heap b) (choose (is_buy side) bids asks)))
        (process_new_order capacity now clock id side price qty b)
process_new_order_lem capacity now clock id side price qty b bids asks ok fresh small room =
    elim (allocate_lem capacity zero_order b.pool ok.accounts.valid) [
      | inl full ↦ absurd (omega (arith, full.0, room))
      | inr (h, (a, q, e, took)) ↦
          subst
            (Matched capacity (is_buy side) id price clock
              (entries (heap b) (choose (is_buy side) asks bids))
              (sweep (is_buy side) price qty (entries (heap b) (choose (is_buy side) bids asks))))
            (sym (process-taken capacity now clock id side price qty b a q e))
            (match_order_lem capacity clock (limit_order id side price qty now) b bids asks ok fresh
              small a q took)
    ]

-- Without a free slot nothing happens.
pub process_new_order-full :
    (capacity : ℕ) (now : Timestamp) (clock : ℕ → Timestamp) (id : OrderId) (side : Side)
    (price : Price) (qty : Quantity) (b : OrderBook) (bids asks : Shape)
    → IsBook capacity b bids asks
    → capacity ≤ used b.pool
    → process_new_order capacity now clock id side price qty b ≡ some (b, [])
process_new_order-full capacity now clock id side price qty b bids asks ok full =
    elim (allocate_lem capacity zero_order b.pool ok.accounts.valid) [
      | inl (h, e) ↦ process-full capacity now clock id side price qty b e
      | inr r ↦ absurd (omega (arith, full, r.0))
    ]
