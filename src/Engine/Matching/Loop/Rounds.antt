-- ===== src/Engine/Matching/Loop/Rounds.antt =====
-- The rounds of the loop in turn, and the whole of it.
use low_latency_project.Prelude.{
  ℕ, zero, suc, ◌-◌, ◌≡◌, ◌<◌, ◌≤◌, Bool-cases, inl, inr, refl, sym, ap, ◌∙◌, Bool, true, false,
  not, some, List, [], ◌∷◌, ◌++◌, arith, ◌==◌, ltb, length,
}
use mathlib.Core.Path.{ap₂}
use low_latency_project.Core.Types.{Price, Timestamp, Quantity}
use low_latency_project.Order.Record.{Order, Heap, TradeEvent}
use low_latency_project.Order.Level.{PriceLevel}
use low_latency_project.Order.Book.{OrderBook, Levels, heap, set_heap}
use low_latency_project.Order.Shape.{Shape, slots, Represents, Entry, entries, entries_at}
use low_latency_project.Order.Shape.Frame.{shape_after, slots_after}
use low_latency_project.Engine.Matching.{hit_levels, set_hit_levels, out_of_reach, match_loop}
use low_latency_project.Engine.Matching.Mid.{Mid, heap-set_hit_levels}
use low_latency_project.Engine.Matching.Priority.{Fill, Outcome, fill_of, prepend, sweep}
use low_latency_project.Engine.Matching.Partial
use low_latency_project.Engine.Matching.Whole
use low_latency_project.Engine.Matching.Loop.{
  trade_of, Swept, stop-filled, stop-empty, stop-far, step, halt, go_on, head_is, sweep-part,
  sweep-whole,
}

module _ (clock : ℕ → Timestamp) (hits_asks : Bool) (a : ℕ) where
  module _ (capacity : ℕ) (far : Shape) where
    -- A trade that leaves a part of the passive order ends the loop.
    last_round :
        (fuel : ℕ) (b : OrderBook) (trades : List TradeEvent) (k : Price) (p : ℕ) (ps : List ℕ)
        (s : Shape) (l : PriceLevel) (m : Levels)
        → 0 < fuel
        → hit_levels hits_asks b ≡ (k, l) ∷ m
        → Mid capacity hits_asks a ((k, p ∷ ps) ∷ s) far b
        → l.head ≡ some p
        → ((heap b a).remaining_qty == 0) ≡ false
        → out_of_reach hits_asks (heap b a).price k ≡ false
        → (heap b a).remaining_qty < (heap b p).remaining_qty
        → Swept capacity hits_asks a far clock b trades
            (sweep hits_asks
              (heap b a).price
              (heap b a).remaining_qty
              (entries (heap b) ((k, p ∷ ps) ∷ s)))
            (match_loop clock (suc fuel) hits_asks a b trades)
    last_round fuel b trades k p ps s l m some_fuel first mid head left near part =
        let h1 = Partial.filled_heap hits_asks a p ps k s far k l m b capacity first mid part in
        let m1 =
          (k, Partial.new_level hits_asks a p ps k s far k l m b capacity first mid part) ∷ m in
        let b1 = set_hit_levels hits_asks m1 (set_heap b h1) in
        let heap_b1 : heap b1 ≡ h1 = heap-set_hit_levels hits_asks m1 (set_heap b h1) in
        let mid1 = Partial.Mid-partial hits_asks a p ps k s far k l m b capacity first mid part in
        let f =
          fill_of (record { id = (heap b p).id; price = k; remaining = (heap b p).remaining_qty })
            (heap b a).remaining_qty in
        let t = trade_of (clock (length trades)) (heap b a).id f in
        let round =
          Partial.match_round-partial hits_asks a p ps k s far k l m b capacity first mid part
            (clock (length trades)) k in
        let nothing : (heap b1 a).remaining_qty ≡ 0 =
          ap (λ (h : Heap). (h a).remaining_qty) heap_b1
          ∙ Partial.aggressive_done hits_asks a p ps k s far k l m b capacity first mid part in
        let done : ((heap b1 a).remaining_qty == 0) ≡ true = ground (arith, nothing) in
        let o : Outcome = record {
          fills = [];
          left = (heap b1 a).remaining_qty;
          rest = entries (heap b1) ((k, p ∷ ps) ∷ s);
        } in
        let outcome : sweep hits_asks (heap b a).price (heap b a).remaining_qty
              (entries (heap b) ((k, p ∷ ps) ∷ s))
            ≡ prepend f o =
          sweep-part clock hits_asks a capacity far b k p ps s left near part
          ∙ ap₂ (λ (n : Quantity) (es : List Entry). record { fills = f ∷ []; left = n; rest = es })
              (sym nothing)
              (sym (
                ap (λ h. entries h ((k, p ∷ ps) ∷ s)) heap_b1
                ∙ Partial.entries-partial hits_asks a p ps k s far k l m b capacity first mid
                    part)) in
        rw outcome (
          go_on clock hits_asks a capacity far b b1 trades t f 0 o
            (match_loop clock (suc fuel) hits_asks a b trades) refl
            (rw heap_b1
              (Partial.aggressive_is hits_asks a p ps k s far k l m b capacity first mid part))
            (rw heap_b1 (
              Partial.entries-far-partial hits_asks a p ps k s far k l m b capacity first mid part))
            (halt clock hits_asks a capacity far b1 (trades ++ (t ∷ [])) ((k, p ∷ ps) ∷ s) o
              (match_loop clock (suc fuel) hits_asks a b trades) mid1
              (step clock hits_asks a fuel b trades k l m p left first near head
                ∙ ap (λ r. match_loop clock fuel hits_asks a (r.0) (trades ++ (r.1 ∷ []))) round
                ∙ stop-filled clock hits_asks a fuel b1 (trades ++ (t ∷ [])) some_fuel done)
              refl))

    -- A trade that fills the passive order goes on with the book that it leaves.
    full_round :
        (fuel : ℕ) (b : OrderBook) (trades : List TradeEvent) (k : Price) (p : ℕ) (ps : List ℕ)
        (s : Shape) (l : PriceLevel) (m : Levels)
        → (hit_levels hits_asks b ≡ (k, l) ∷ m)
        → Mid capacity hits_asks a ((k, p ∷ ps) ∷ s) far b
        → l.head ≡ some p
        → ((heap b a).remaining_qty == 0) ≡ false
        → out_of_reach hits_asks (heap b a).price k ≡ false
        → (heap b p).remaining_qty ≤ (heap b a).remaining_qty
        → length (p ∷ (ps ++ slots s)) < suc fuel
        → (go : (b1 : OrderBook) (ts : List TradeEvent) (hit : Shape)
            → Mid capacity hits_asks a hit far b1
            → length (slots hit) < fuel
            → Swept capacity hits_asks a far clock b1 ts
                (sweep hits_asks
                  (heap b1 a).price
                  (heap b1 a).remaining_qty
                  (entries (heap b1) hit))
                (match_loop clock fuel hits_asks a b1 ts))
        → Swept capacity hits_asks a far clock b trades
            (sweep hits_asks
              (heap b a).price
              (heap b a).remaining_qty
              (entries (heap b) ((k, p ∷ ps) ∷ s)))
            (match_loop clock (suc fuel) hits_asks a b trades)
    full_round fuel b trades k p ps s l m first mid head left near whole fits go =
        let h1 = Whole.new_heap hits_asks a p ps k s far k l m b capacity first mid whole in
        let b0 = Whole.retired hits_asks a p ps k s far k l m b capacity first mid whole in
        let m1 = Whole.new_levels hits_asks a p ps k s far k l m b capacity first mid whole in
        let b1 = set_hit_levels hits_asks m1 b0 in
        let heap_b1 : heap b1 ≡ h1 =
          heap-set_hit_levels hits_asks m1 b0
          ∙ Whole.stored hits_asks a p ps k s far k l m b capacity first mid whole in
        let f : Fill = record {
          passive_id = (heap b p).id;
          price = k;
          qty = (heap b p).remaining_qty;
        } in
        let t = trade_of (clock (length trades)) (heap b a).id f in
        let side = shape_after k ps s in
        let aggressive_is : heap b1 a ≡ record (heap b a) {
          remaining_qty = (heap b a).remaining_qty - (heap b p).remaining_qty;
        } =
          ap (λ (h : Heap). h a) heap_b1
          ∙ Whole.aggressive_now hits_asks a p ps k s far k l m b capacity first mid whole in
        let resting : entries (heap b1) side ≡ entries_at (heap b) k ps ++ entries (heap b) s =
          ap (λ h. entries h side) heap_b1
          ∙ Whole.entries-whole hits_asks a p ps k s far k l m b capacity first mid whole in
        let outcome : sweep hits_asks (heap b a).price (heap b a).remaining_qty
              (entries (heap b) ((k, p ∷ ps) ∷ s))
            ≡ prepend f (
                sweep hits_asks (heap b1 a).price (heap b1 a).remaining_qty
                  (entries (heap b1) side)) =
          sweep-whole clock hits_asks a capacity far b k p ps s left near whole
          ∙ ap₂
              (λ (x : Order) (es : List Entry).
                prepend f (sweep hits_asks x.price x.remaining_qty es))
              (sym aggressive_is) (sym resting) in
        rw
          (
            outcome,
            step clock hits_asks a fuel b trades k l m p left first near head
                ∙ ap (λ r. match_loop clock fuel hits_asks a (r.0) (trades ++ (r.1 ∷ [])))
                    (Whole.match_round-whole hits_asks a p ps k s far k l m b capacity first mid
                      whole (clock (length trades)) k),
          )
          (go_on clock hits_asks a capacity far b b1 trades t f
            ((heap b a).remaining_qty - (heap b p).remaining_qty) _ _ refl aggressive_is
            (ap (λ h. entries h far) heap_b1
              ∙ Whole.entries-far-whole hits_asks a p ps k s far k l m b capacity first mid whole)
            (go b1 (trades ++ (t ∷ [])) side
              (Whole.Mid-whole hits_asks a p ps k s far k l m b capacity first mid whole)
              (omega (arith, fits, ap length (slots_after k ps s)))))

    pub loop_lem :
        (fuel : ℕ) (b : OrderBook) (trades : List TradeEvent) (hit : Shape) (levels : Levels)
        → hit_levels hits_asks b ≡ levels
        → Mid capacity hits_asks a hit far b
        → length (slots hit) < fuel
        → Swept capacity hits_asks a far clock b trades
            (sweep hits_asks (heap b a).price (heap b a).remaining_qty (entries (heap b) hit))
            (match_loop clock fuel hits_asks a b trades)
    unfolding sweep
    loop_lem zero b trades hit levels e mid fits = absurd (omega (arith, fits))
    loop_lem (suc fuel) b trades [] [] e mid fits =
        elim (Bool-cases ((heap b a).remaining_qty == 0)) [
          | inl done ↦
              halt clock hits_asks a capacity far b trades [] _ _ mid
                (stop-filled clock hits_asks a (suc fuel) b trades (omega arith) done) refl
          | inr left ↦
              halt clock hits_asks a capacity far b trades [] _ _ mid
                (stop-empty clock hits_asks a fuel b trades left e) refl
        ]
    loop_lem (suc fuel) b trades [] (x ∷ levels) e mid fits = absurd (rw e at mid.hit_side)
    loop_lem (suc fuel) b trades (x ∷ hit) [] e mid fits = absurd (rw e at mid.hit_side)
    loop_lem (suc fuel) b trades ((k, []) ∷ s) ((key, l) ∷ m) e mid fits =
        let level : Represents (heap b) (not hits_asks) ((key, l) ∷ m) ((k, []) ∷ s) =
          rw e at mid.hit_side in
        absurd (omega (arith, level.0.filled_in))
    loop_lem (suc fuel) b trades ((k, p ∷ ps) ∷ s) ((key, l) ∷ m) e mid fits =
        let is = head_is clock hits_asks a capacity far b k p ps s key l m mid e in
        let first : hit_levels hits_asks b ≡ (k, l) ∷ m = e ∙ ap (λ x. (x, l) ∷ m) (is.0) in
        elim (Bool-cases ((heap b a).remaining_qty == 0)) [
          | inl done ↦
              halt clock hits_asks a capacity far b trades ((k, p ∷ ps) ∷ s) _ _ mid
                (stop-filled clock hits_asks a (suc fuel) b trades (omega arith) done)
                (rw done refl)
          | inr left ↦ elim (Bool-cases (out_of_reach hits_asks (heap b a).price k)) [
            | inl beyond ↦
                halt clock hits_asks a capacity far b trades ((k, p ∷ ps) ∷ s) _ _ mid
                  (stop-far clock hits_asks a fuel b trades k l m left first beyond)
                  (rw (left, beyond) refl)
            | inr near ↦ elim (Bool-cases (ltb (heap b a).remaining_qty (heap b p).remaining_qty)) [
              | inl part ↦
                  last_round fuel b trades k p ps s l m (omega (arith, fits)) first mid (is.1) left
                    near (ground (arith, part))
              | inr whole ↦
                  full_round fuel b trades k p ps s l m first mid (is.1) left near (ground arith)
                    fits
                    (λ b1 ts hit mid1 fits1.
                      loop_lem fuel b1 ts hit (hit_levels hits_asks b1) refl mid1 fits1)
            ]
          ]
        ]
