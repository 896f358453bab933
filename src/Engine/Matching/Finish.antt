-- ===== src/Engine/Matching/Finish.antt =====
-- What `match` does with the aggressive order behind its loop.
use low_latency_project.Prelude.{
  ℕ, ◌≡◌, ◌<◌, refl, ap, ◌∙◌, Bool, true, false, not, some, List, ◌++◌, arith, ◌==◌, if◌then◌else◌,
  contains, contains-append, ==_self, apart_of_contains,
}
use low_latency_project.Prelude.Map.{assign}
use low_latency_project.Core.Types.{Price, Side, is_buy}
use low_latency_project.Core.Pool.{deallocate}
use low_latency_project.Core.Pool.Slots.{storage-deallocate}
use low_latency_project.Order.Record.{Order, Heap, set_state, part_fill, filled}
use low_latency_project.Order.Book.{
  OrderBook, heap, set_heap, refresh_best, refresh_best_at, push_resting, insert_order, add_resting,
  is_closed,
}
use low_latency_project.Order.Shape.{Shape, slots, Rests, order_of, entries}
use low_latency_project.Order.Shape.Frame.{Agree, Represents-frame, entries-frame}
use low_latency_project.Order.Accounts.{Accounts-storage, Accounts-release}
use low_latency_project.Order.Listed.{Listed-frame}
use low_latency_project.Order.Insert.{insert_at}
use low_latency_project.Order.Insert.Place.{insert_entry, entry_of}
use low_latency_project.Engine.Matching.{hit_levels, set_hit_levels, finish}
use low_latency_project.Engine.Matching.Mid.{Mid, hit_levels-set_pool}
use low_latency_project.Engine.Matching.Rest
use low_latency_project.Engine.Matching.Turned.{Turned}

-- The best prices are set last, so that what `add_resting` makes of them does not matter.
refresh_best-twice :
    (side : Side) (price : Price) (b : OrderBook)
    → refresh_best (refresh_best_at side price b) ≡ refresh_best b
unfolding refresh_best refresh_best_at
refresh_best-twice side price b = ground arith

-- The side that an order rests on is the far one of the side that it hits.
pub push_resting-far :
    (hits_asks : Bool) (side : Side) (price : Price) (o : ℕ) (b : OrderBook)
    → is_buy side ≡ hits_asks
    → push_resting side price o b ≡ (
        let (g, m) =
          insert_order (order_of hits_asks) price o (heap b) (hit_levels (not hits_asks) b) in
        set_hit_levels (not hits_asks) m (set_heap b g))
unfolding push_resting
push_resting-far true side price o b e = rw e refl
push_resting-far false side price o b e = rw e refl

module _ (capacity : ℕ) (hits_asks : Bool) (a : ℕ) (hit far : Shape) (b : OrderBook)
    (mid : Mid capacity hits_asks a hit far b) where
  abbrev closing : Heap
  closing = set_state (heap b) a (if (heap b a).remaining_qty == 0 then filled else part_fill)

  -- Only the order itself is written.
  agrees : (xs : List ℕ) → contains xs a ≡ false → Agree xs (heap b) closing
  agrees xs out q i = rw ((apart_of_contains xs a q out i).1)

  out_hit : contains (slots hit) a ≡ false
  out_hit = ground (arith, contains-append (slots hit) (slots far) a, mid.distinct.0)

  out_far : contains (slots far) a ≡ false
  out_far = ground (arith, contains-append (slots hit) (slots far) a, mid.distinct.0)

  framed : (q : ℕ) → (q == a) ≡ false → closing q ≡ heap b q
  framed q apart = rw apart

  same_ids : (q : ℕ) → (closing q).id ≡ (heap b q).id
  same_ids q = ground arith

  still_left : ((closing a).remaining_qty == 0) ≡ ((heap b a).remaining_qty == 0)
  still_left = rw (==_self a) refl

  closing_is :
      closing a
      ≡ record (heap b a) { state = if (heap b a).remaining_qty == 0 then filled else part_fill }
  closing_is = rw (==_self a) refl

  abbrev pub freed : OrderBook
  freed = record (set_heap b closing) {
    pool = deallocate (some a) (record (b.pool) { storage = closing });
  }

  heap-freed : heap freed ≡ closing
  heap-freed = storage-deallocate a (record (b.pool) { storage = closing })

  -- A filled order goes back to the pool, and the rest is as the loop left it.
  pub finish-filled : ((heap b a).remaining_qty == 0) ≡ true → finish a b ≡ refresh_best freed
  unfolding finish
  finish-filled done =
      ap (λ t. refresh_best (if t then freed else add_resting a (set_heap b closing)))
        (still_left ∙ done)

  pub Turned-freed : Turned capacity hits_asks hit far freed
  Turned-freed = record {
    hit_side =
        rw (heap-freed, hit_levels-set_pool hits_asks b.order_map freed.pool b)
          (Represents-frame (heap b) closing (not hits_asks) (hit_levels hits_asks b) hit
            (agrees (slots hit) out_hit) mid.hit_side);
    far_side =
        rw (heap-freed, hit_levels-set_pool (not hits_asks) b.order_map freed.pool b)
          (Represents-frame (heap b) closing hits_asks (hit_levels (not hits_asks) b) far
            (agrees (slots far) out_far) mid.far_side);
    hit_sorted = mid.hit_sorted;
    far_sorted = mid.far_sorted;
    distinct = mid.distinct.1;
    accounts =
        Accounts-release a (slots hit ++ slots far) mid.distinct.0
          (Accounts-storage closing mid.accounts);
    listed = rw heap-freed (
        Listed-frame b.order_map (heap b) closing (slots hit ++ slots far) (λ q i. same_ids q)
          mid.listed);
  }

  pub entries-hit-freed : entries (heap freed) hit ≡ entries (heap b) hit
  entries-hit-freed =
      ap (λ h. entries h hit) heap-freed
      ∙ entries-frame (heap b) closing hit (agrees (slots hit) out_hit)

  pub entries-far-freed : entries (heap freed) far ≡ entries (heap b) far
  entries-far-freed =
      ap (λ h. entries h far) heap-freed
      ∙ entries-frame (heap b) closing far (agrees (slots far) out_far)

  module _ (remains : ((heap b a).remaining_qty == 0) ≡ false)
      (on_side : is_buy (heap b a).side ≡ hits_asks) where
    abbrev price : Price
    price = (heap b a).price

    new_rests : Rests closing hits_asks price a
    new_rests = record {
      at_price = ap (λ (o : Order). o.price) closing_is;
      on_side = ap (λ (o : Order). is_buy o.side) closing_is ∙ on_side;
      filling = omega (arith, ap (λ (o : Order). o.remaining_qty) closing_is, some_left);
      fits = omega (arith, ap (λ (o : Order). o.remaining_qty) closing_is, mid.small);
      alive = ap (λ (o : Order). is_closed o.state) closing_is ∙ rw remains refl;
    }
      where
        some_left : 0 < (heap b a).remaining_qty
        some_left = ground (arith, remains)

    abbrev pub rested : OrderBook
    rested = Rest.rested hits_asks a b closing price

    abbrev pub new_far : Shape
    new_far = insert_at hits_asks price a far

    -- What is left of the order rests.
    pub finish-rested : finish a b ≡ refresh_best rested
    unfolding finish add_resting
    finish-rested =
        ap (λ t. refresh_best (if t then freed else add_resting a (set_heap b closing)))
          (still_left ∙ remains)
        ∙ refresh_best-twice (closing a).side (closing a).price (
            push_resting (closing a).side (closing a).price a
              (record (set_heap b closing) { order_map = assign (closing a).id a b.order_map }))
        ∙ ap refresh_best (
            ap
              (λ (o : Order).
                push_resting o.side o.price a
                  (record (set_heap b closing) { order_map = assign o.id a b.order_map }))
              closing_is
            ∙ push_resting-far hits_asks (heap b a).side price a
                (record (set_heap b closing) { order_map = assign (heap b a).id a b.order_map })
                on_side
            ∙ refl)

    pub Turned-rested : Turned capacity hits_asks hit new_far rested
    Turned-rested =
        Rest.Turned-rested capacity hits_asks a hit far b mid closing framed (same_ids a) price
          new_rests

    pub entries-hit-rested : entries (heap rested) hit ≡ entries (heap b) hit
    entries-hit-rested =
        Rest.entries-hit-rested capacity hits_asks a hit far b mid closing framed (same_ids a) price
          new_rests

    pub entries-far-rested :
        entries (heap rested) new_far
        ≡ insert_entry hits_asks (entry_of (heap b) price a) (entries (heap b) far)
    entries-far-rested =
        Rest.entries-far-rested capacity hits_asks a hit far b mid closing framed (same_ids a) price
          new_rests
        ∙ ap
            (λ (o : Order).
              insert_entry hits_asks
                (record { id = o.id; price = price; remaining = o.remaining_qty })
                (entries (heap b) far))
            closing_is
