-- ===== src/Engine/Matching/Whole.antt =====
-- A trade that fills the passive order: it leaves the book and its slot is free again.
use Prim.Native.Nat.{min}
use low_latency_project.Prelude.{
  ℕ, ◌-◌, ◌≡◌, ◌≤◌, Bool-cases, inl, inr, ==_iff, refl, ap, ◌∙◌, Bool, true, false, not, none, some,
  List, [], ◌∷◌, ◌++◌, arith, ◌==◌, contains, contains-append, if◌then◌else◌, apart_of_contains,
  IsDistinct-apart,
}
use mathlib.Core.Path.{ap₂}
use mathlib.Core.List.{append_assoc}
use low_latency_project.Prelude.Map.{remove_key}
use low_latency_project.Core.Types.{Price, Timestamp, Quantity}
use low_latency_project.Core.Pool.{deallocate}
use low_latency_project.Core.Pool.Slots.{storage-deallocate}
use low_latency_project.Order.Record.{Order, Heap, part_fill, filled}
use low_latency_project.Order.Level.{PriceLevel, remove, is_empty}
use low_latency_project.Order.Level.Queue.{IsQueue, OnlyLinks}
use low_latency_project.Order.Level.Removal.{remove_lem}
use low_latency_project.Order.Book.{OrderBook, Levels, heap, set_heap}
use low_latency_project.Order.Shape.{
  Shape, order_of, slots, Represents, IsLevel, Rests, AllRest, entries, entries_at,
}
use low_latency_project.Order.Shape.Frame.{
  Agree, Agree-left, Agree-right, Represents-frame, AllRest-frame, entries-frame, entries_at-frame,
  AllRest-payload, entries_at-payload, shape_after, slots_after, entries_after, Represents-after,
  IsSorted-after,
}
use low_latency_project.Order.Accounts.{
  Accounts, Accounts-storage, Accounts-reorder, Accounts-release,
}
use low_latency_project.Order.Listed.{Listed-remove, lookup-removed}
use low_latency_project.Engine.Matching.{
  hit_levels, set_hit_levels, sub_u64, fill_orders, match_round, retire,
}
use low_latency_project.Engine.Matching.Mid.{Mid, Mid-set, hit_levels-set_pool}
use low_latency_project.Engine.Matching.Partial.{Around, around}
use low_latency_project.Engine.Matching.Fill

module _ (hits_asks : Bool) (a p : ℕ) (ps : List ℕ) (k : Price) (s far : Shape) (key : Price)
    (l : PriceLevel) (m : Levels) (b : OrderBook) (capacity : ℕ)
    (at_first : hit_levels hits_asks b ≡ (key, l) ∷ m)
    (mid : Mid capacity hits_asks a ((k, p ∷ ps) ∷ s) far b)
    (whole : (heap b p).remaining_qty ≤ (heap b a).remaining_qty) where
  abbrev qty : Quantity
  qty = (heap b p).remaining_qty

  abbrev pub filled_heap : Heap
  filled_heap = fill_orders a p qty (heap b)

  abbrev pub filled_level : PriceLevel
  filled_level = record l { total_qty = sub_u64 l.total_qty qty }

  abbrev pub new_heap : Heap
  new_heap = (remove p filled_heap filled_level).0

  abbrev pub new_level : PriceLevel
  new_level = (remove p filled_heap filled_level).1

  apart : Around a p ps (slots s) (slots far)
  apart = around a p ps (slots s) (slots far) mid.distinct

  level :
      IsLevel (heap b) (not hits_asks) key l k (p ∷ ps) × Represents (heap b) (not hits_asks) m s
  level = rw at_first at mid.hit_side

  first : Rests (heap b) (not hits_asks) k p
  first = level.0.resting.0

  agrees :
      (xs : List ℕ) → contains xs a ≡ false → contains xs p ≡ false → Agree xs (heap b) filled_heap
  agrees = Fill.agree (heap b) a p qty apart.differ

  aggressive_is :
      filled_heap a ≡ record (heap b a) { remaining_qty = (heap b a).remaining_qty - qty }
  aggressive_is =
      Fill.aggressive (heap b) a p qty apart.differ whole (omega arith) mid.small first.fits

  none_left : (qty - qty == 0) ≡ true
  none_left = ground arith

  passive_is : filled_heap p ≡ record (heap b p) { remaining_qty = qty - qty; state = filled }
  passive_is =
      Fill.passive (heap b) a p qty apart.differ whole (omega arith) mid.small first.fits
      ∙ ap
          (λ (t : Bool). record (heap b p) {
            remaining_qty = qty - qty;
            state = if t then filled else part_fill;
          })
          none_left

  removed :
      IsQueue new_heap new_level ps
      × OnlyLinks (p ∷ ps) filled_heap new_heap
      × ((new_heap p).prev ≡ none)
      × ((new_heap p).next ≡ none)
      × (new_level.price ≡ filled_level.price)
  removed = remove_lem filled_heap p [] ps filled_level (
      Fill.IsQueue-fill (heap b) a p qty apart.differ whole (omega arith) mid.small first.fits l ps
        (ground (arith, apart.differ, apart.a_ps)) level.0.queue)

  -- The orders of the first level are their own only: the rest of the side and the far side agree.
  rest_apart : (q : ℕ) → contains (slots s ++ slots far) q ≡ true → contains ps q ≡ false
  rest_apart q i = IsDistinct-apart ps (slots s ++ slots far) q (rw append_assoc at apart.rest) i

  agrees_beyond : Agree (slots s ++ slots far) (heap b) new_heap
  agrees_beyond q i =
      let not_a : contains (slots s ++ slots far) a ≡ false =
        ground (arith, contains-append (slots s) (slots far) a, apart.a_ss, apart.a_ts) in
      let not_p : contains (slots s ++ slots far) p ≡ false =
        ground (arith, contains-append (slots s) (slots far) p, apart.p_ss, apart.p_ts) in
      removed.1.outside q
        (rw ((apart_of_contains (slots s ++ slots far) p q not_p i).1) (rest_apart q i))
      ∙ agrees (slots s ++ slots far) not_a not_p q i

  agrees_a : new_heap a ≡ filled_heap a
  agrees_a = removed.1.outside a (ground (arith, apart.differ, apart.a_ps))

  pub aggressive_now :
      new_heap a ≡ record (heap b a) { remaining_qty = (heap b a).remaining_qty - qty }
  aggressive_now = agrees_a ∙ aggressive_is

  pub aggressive_after : (new_heap a).remaining_qty ≡ (heap b a).remaining_qty - qty
  aggressive_after = ap (λ (o : Order). o.remaining_qty) (agrees_a ∙ aggressive_is)

  orders_rest : AllRest new_heap (not hits_asks) k ps
  orders_rest = AllRest-payload filled_heap new_heap (not hits_asks) k ps removed.1.payloads (
      AllRest-frame (heap b) filled_heap (not hits_asks) k ps (agrees ps apart.a_ps apart.p_ps)
        level.0.resting.1)

  abbrev pub left_side : Shape
  left_side = shape_after k ps s

  -- What stays on the side that was hit.
  pub entries-whole : entries new_heap left_side ≡ entries_at (heap b) k ps ++ entries (heap b) s
  entries-whole =
      entries_after new_heap k ps s
      ∙ ap₂ ◌++◌
          (entries_at-payload filled_heap new_heap k ps removed.1.payloads
            ∙ entries_at-frame (heap b) filled_heap k ps (agrees ps apart.a_ps apart.p_ps))
          (entries-frame (heap b) new_heap s
            (Agree-left (slots s) (slots far) (heap b) new_heap agrees_beyond))

  pub entries-far-whole : entries new_heap far ≡ entries (heap b) far
  entries-far-whole =
      entries-frame (heap b) new_heap far
        (Agree-right (slots s) (slots far) (heap b) new_heap agrees_beyond)

  -- Every id outside the two written orders' fields stays.
  same_ids : (q : ℕ) → (new_heap q).id ≡ (heap b q).id
  same_ids q = ap (λ (o : Order). o.id) (removed.1.payloads q) ∙ elim (Bool-cases (q == a)) [
    | inl here ↦ let e : q ≡ a = (==_iff q a).0 here in rw (e, aggressive_is)
    | inr other ↦ elim (Bool-cases (q == p)) [
      | inl here ↦ let e : q ≡ p = (==_iff q p).0 here in rw (e, passive_is)
      | inr there ↦ rw (Fill.others (heap b) a p qty apart.differ q other there)
    ]
  ]

  -- The book that `retire` works on, and the one behind its pool and map updates.
  abbrev pub retired : OrderBook
  retired = record (set_heap b new_heap) {
    order_map = remove_key (heap b p).id b.order_map;
    pool = deallocate (some p) (record (b.pool) { storage = new_heap });
  }

  pub stored : heap retired ≡ new_heap
  stored = storage-deallocate p (record (b.pool) { storage = new_heap })

  abbrev pub new_levels : Levels
  new_levels = if is_empty new_level then m else (key, new_level) ∷ m

  Accounts-after : Accounts capacity retired.pool (a ∷ (slots left_side ++ slots far))
  Accounts-after = rw slots_after (
      Accounts-release p (a ∷ ((ps ++ slots s) ++ slots far))
        (ground (arith, apart.differ, mid.distinct.1.0))
        (Accounts-storage new_heap (
          Accounts-reorder (a ∷ p ∷ ((ps ++ slots s) ++ slots far))
            (p ∷ a ∷ ((ps ++ slots s) ++ slots far)) (λ q. ground arith) refl mid.accounts)))

  pub Mid-whole :
      Mid capacity hits_asks a left_side far (set_hit_levels hits_asks new_levels retired)
  Mid-whole =
      Mid-set capacity hits_asks a left_side far new_levels retired
        (rw stored (
          Represents-after new_heap (not hits_asks) key new_level m k ps s level.0.keyed
            (removed.4 ∙ level.0.priced) removed.0 orders_rest
            (Represents-frame (heap b) new_heap (not hits_asks) m s
              (Agree-left (slots s) (slots far) (heap b) new_heap agrees_beyond) level.1)))
        (rw (stored, hit_levels-set_pool (not hits_asks) retired.order_map retired.pool b)
          (Represents-frame (heap b) new_heap hits_asks (hit_levels (not hits_asks) b) far
            (Agree-right (slots s) (slots far) (heap b) new_heap agrees_beyond) mid.far_side))
        (IsSorted-after (order_of (not hits_asks)) k ps s mid.hit_sorted) mid.far_sorted
        (rw slots_after (ground (arith, mid.distinct.0), apart.rest)) Accounts-after
        (rw (stored, slots_after)
          (Listed-remove b.order_map (heap b) new_heap p ((ps ++ slots s) ++ slots far)
            mid.distinct.1 (λ q i. same_ids q) mid.listed))
        (rw stored (omega (arith, aggressive_after, mid.small)))
        (rw (stored, same_ids a)
          (lookup-removed b.order_map (heap b a).id (heap b p).id mid.listed.keys mid.fresh))

  -- The round's book and trade.
  pub match_round-whole :
      (now : Timestamp) (best_price : Price)
      → match_round now hits_asks a p best_price l b ≡ (
        set_hit_levels hits_asks new_levels retired,
        record {
          aggressive_id = (heap b a).id;
          passive_id = (heap b p).id;
          trade_price = best_price;
          trade_qty = qty;
          timestamp_ns = now;
        },
      )
  unfolding match_round retire
  match_round-whole now best_price =
      let smaller : min (heap b a).remaining_qty (heap b p).remaining_qty ≡ qty =
        omega (arith, whole) in
      rw (
        smaller,
        passive_is,
        none_left,
        same_ids p,
        hit_levels-set_pool hits_asks retired.order_map retired.pool b,
        at_first,
      )
