-- ===== src/Engine/Matching/Loop.antt =====
-- The loop of `MatchingEngine::match` against the specification in Priority.
pub mod Rounds
use low_latency_project.Prelude.{
  ℕ, zero, suc, ◌-◌, ◌≡◌, ◌<◌, ◌≤◌, Bool-cases, inl, inr, refl, sym, ap, ◌∙◌, Bool, true, false,
  not, Option, some, List, [], ◌∷◌, ◌++◌, arith, ◌==◌, ltb, length, length-append,
}
use mathlib.Core.Path.{ap₂}
use mathlib.Core.List.{append_assoc, append-nil}
use low_latency_project.Core.Types.{OrderId, Price, Timestamp, Quantity}
use low_latency_project.Order.Record.{Order, Heap, TradeEvent}
use low_latency_project.Order.Level.{PriceLevel}
use low_latency_project.Order.Book.{OrderBook, Levels, heap, set_heap}
use low_latency_project.Order.Shape.{Shape, slots, Represents, Entry, entries, entries_at}
use low_latency_project.Order.Shape.Frame.{shape_after, slots_after}
use low_latency_project.Engine.Matching.{
  hit_levels, set_hit_levels, out_of_reach, match_round, match_loop,
}
use low_latency_project.Engine.Matching.Mid.{Mid, heap-set_hit_levels}
use low_latency_project.Engine.Matching.Priority.{Fill, Outcome, fill_of, prepend, sweep}
use low_latency_project.Engine.Matching.Partial
use low_latency_project.Engine.Matching.Whole

abbrev pub trade_of : Timestamp → OrderId → Fill → TradeEvent
trade_of now id f = record {
  aggressive_id = id;
  passive_id = f.passive_id;
  trade_price = f.price;
  trade_qty = f.qty;
  timestamp_ns = now;
}

-- The trade events of the fills, from the n-th trade of the call on.
abbrev pub stamp : (ℕ → Timestamp) → ℕ → OrderId → List Fill → List TradeEvent
stamp clock n id [] = []
stamp clock n id (f ∷ fs) = trade_of (clock n) id f ∷ stamp clock (suc n) id fs

-- The result of a loop that does what the outcome `o` says.
pub record Swept (capacity : ℕ) (hits_asks : Bool) (a : ℕ) (far : Shape) (clock : ℕ → Timestamp)
    (b : OrderBook) (trades : List TradeEvent) (o : Outcome)
    (r : Option (OrderBook × List TradeEvent)) : Type 0 where
  pub after : OrderBook
  pub side : Shape
  pub returns : r ≡ some (after, trades ++ stamp clock (length trades) (heap b a).id o.fills)
  pub mid : Mid capacity hits_asks a side far after
  pub aggressive : heap after a ≡ record (heap b a) { remaining_qty = o.left }
  pub rest : entries (heap after) side ≡ o.rest
  pub far_rest : entries (heap after) far ≡ entries (heap b) far

module _ (clock : ℕ → Timestamp) (hits_asks : Bool) (a : ℕ) where
  pub stop-filled :
      (fuel : ℕ) (b : OrderBook) (trades : List TradeEvent)
      → 0 < fuel
      → ((heap b a).remaining_qty == 0) ≡ true
      → match_loop clock fuel hits_asks a b trades ≡ some (b, trades)
  unfolding match_loop
  stop-filled zero b trades some_fuel e = absurd (omega arith)
  stop-filled (suc fuel) b trades some_fuel e = ground arith

  pub stop-empty :
      (fuel : ℕ) (b : OrderBook) (trades : List TradeEvent)
      → ((heap b a).remaining_qty == 0) ≡ false
      → hit_levels hits_asks b ≡ []
      → match_loop clock (suc fuel) hits_asks a b trades ≡ some (b, trades)
  unfolding match_loop
  stop-empty fuel b trades e none_there = ground arith

  pub stop-far :
      (fuel : ℕ) (b : OrderBook) (trades : List TradeEvent) (k : Price) (l : PriceLevel)
      (m : Levels)
      → ((heap b a).remaining_qty == 0) ≡ false
      → hit_levels hits_asks b ≡ (k, l) ∷ m
      → out_of_reach hits_asks (heap b a).price k ≡ true
      → match_loop clock (suc fuel) hits_asks a b trades ≡ some (b, trades)
  unfolding match_loop
  stop-far fuel b trades k l m e first far = rw (match_loop, e, first, far)

  pub step :
      (fuel : ℕ) (b : OrderBook) (trades : List TradeEvent) (k : Price) (l : PriceLevel)
      (m : Levels) (p : ℕ)
      → ((heap b a).remaining_qty == 0) ≡ false
      → hit_levels hits_asks b ≡ (k, l) ∷ m
      → out_of_reach hits_asks (heap b a).price k ≡ false
      → l.head ≡ some p
      → match_loop clock (suc fuel) hits_asks a b trades ≡ (
          let r = match_round (clock (length trades)) hits_asks a p k l b in
          match_loop clock fuel hits_asks a (r.0) (trades ++ (r.1 ∷ [])))
  unfolding match_loop
  step fuel b trades k l m p e first near h = ground arith

  module _ (capacity : ℕ) (far : Shape) where
    -- The loop is left at once.
    pub halt :
        (b : OrderBook) (trades : List TradeEvent) (hit : Shape) (o : Outcome)
        (r : Option (OrderBook × List TradeEvent))
        → Mid capacity hits_asks a hit far b
        → r ≡ some (b, trades)
        → o ≡ record { fills = []; left = (heap b a).remaining_qty; rest = entries (heap b) hit }
        → Swept capacity hits_asks a far clock b trades o r
    halt b trades hit o r mid e eo = record {
      after = b;
      side = hit;
      returns = rw eo (e ∙ ap (λ ts. some (b, ts)) (sym (append-nil trades)));
      mid = mid;
      aggressive = rw eo refl;
      rest = rw eo refl;
      far_rest = refl;
    }

    -- One round, and then the rest.
    pub go_on :
        (b b1 : OrderBook) (trades : List TradeEvent) (t : TradeEvent) (f : Fill) (n : Quantity)
        (o : Outcome) (r : Option (OrderBook × List TradeEvent))
        → t ≡ trade_of (clock (length trades)) (heap b a).id f
        → heap b1 a ≡ record (heap b a) { remaining_qty = n }
        → entries (heap b1) far ≡ entries (heap b) far
        → Swept capacity hits_asks a far clock b1 (trades ++ (t ∷ [])) o r
        → Swept capacity hits_asks a far clock b trades (prepend f o) r
    go_on b b1 trades t f n o r et ea ef swept = record {
      after = swept.after;
      side = swept.side;
      returns =
          swept.returns
          ∙ ap (λ ts. some (swept.after, ts))
              (rw (append_assoc, count, ap (λ (x : Order). x.id) ea, et) refl);
      mid = swept.mid;
      aggressive = swept.aggressive ∙ ap (λ (x : Order). record x { remaining_qty = o.left }) ea;
      rest = swept.rest;
      far_rest = swept.far_rest ∙ ef;
    }
      where
        count : length (trades ++ (t ∷ [])) ≡ suc (length trades)
        count = length-append trades (t ∷ []) ∙ omega arith

    -- The head of the first level is the oldest order of the shape's first queue.
    pub head_is :
        (b : OrderBook) (k : Price) (p : ℕ) (ps : List ℕ) (s : Shape) (key : Price) (l : PriceLevel)
        (m : Levels)
        → Mid capacity hits_asks a ((k, p ∷ ps) ∷ s) far b
        → hit_levels hits_asks b ≡ (key, l) ∷ m
        → (key ≡ k) × (l.head ≡ some p) × (0 < (heap b p).remaining_qty)
    head_is b k p ps s key l m mid first =
        let level : Represents (heap b) (not hits_asks) ((key, l) ∷ m) ((k, p ∷ ps) ∷ s) =
          rw first at mid.hit_side in
        (level.0.keyed, level.0.queue.links.0, level.0.resting.0.filling)

    pub sweep-part :
        (b : OrderBook) (k : Price) (p : ℕ) (ps : List ℕ) (s : Shape)
        → ((heap b a).remaining_qty == 0) ≡ false
        → out_of_reach hits_asks (heap b a).price k ≡ false
        → (heap b a).remaining_qty < (heap b p).remaining_qty
        → sweep hits_asks
            (heap b a).price
            (heap b a).remaining_qty
            (entries (heap b) ((k, p ∷ ps) ∷ s))
          ≡ record {
            fills =
                record { passive_id = (heap b p).id; price = k; qty = (heap b a).remaining_qty }
                ∷ [];
            left = 0;
            rest =
                record {
                  id = (heap b p).id;
                  price = k;
                  remaining = (heap b p).remaining_qty - (heap b a).remaining_qty;
                }
                ∷ (entries_at (heap b) k ps ++ entries (heap b) s);
          }
    unfolding sweep
    sweep-part b k p ps s left near part =
        let smaller : ltb (heap b a).remaining_qty (heap b p).remaining_qty ≡ true =
          ground (arith, part) in
        rw (left, near, smaller) refl

    pub sweep-whole :
        (b : OrderBook) (k : Price) (p : ℕ) (ps : List ℕ) (s : Shape)
        → ((heap b a).remaining_qty == 0) ≡ false
        → out_of_reach hits_asks (heap b a).price k ≡ false
        → (heap b p).remaining_qty ≤ (heap b a).remaining_qty
        → sweep hits_asks
            (heap b a).price
            (heap b a).remaining_qty
            (entries (heap b) ((k, p ∷ ps) ∷ s))
          ≡ prepend
              (record { passive_id = (heap b p).id; price = k; qty = (heap b p).remaining_qty })
              (sweep hits_asks
                (heap b a).price
                ((heap b a).remaining_qty - (heap b p).remaining_qty)
                (entries_at (heap b) k ps ++ entries (heap b) s))
    unfolding sweep
    sweep-whole b k p ps s left near whole =
        let smaller : ltb (heap b a).remaining_qty (heap b p).remaining_qty ≡ false =
          ground (arith, whole) in
        rw (left, near, smaller) refl
