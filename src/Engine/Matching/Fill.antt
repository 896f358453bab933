-- ===== src/Engine/Matching/Fill.antt =====
-- One trade's writes to the two orders.
use low_latency_project.Prelude.{
  ℕ, ◌-◌, ◌^◌, ◌≤◌, ◌<◌, ◌≡◌, refl, ap, true, false, none, List, ◌∷◌, arith, ◌==◌, if◌then◌else◌,
  ==_self, ==_iff, contains, Bool-cases, inl, inr, apart_of_contains,
}
use low_latency_project.Core.Types.{Quantity}
use low_latency_project.Order.Record.{Order, Heap, part_fill, filled}
use low_latency_project.Order.Level.{PriceLevel}
use low_latency_project.Order.Level.Links.{Seg-frame}
use low_latency_project.Order.Level.Queue.{IsQueue}
use low_latency_project.Order.Shape.Frame.{Agree, sum_remaining-frame}
use low_latency_project.Engine.Matching.{fill_orders, sub_u64}

module _ (h : Heap) (a p : ℕ) (f : Quantity) (differ : (a == p) ≡ false) where
  abbrev pub after : Heap
  after = fill_orders a p f h

  pub others : (q : ℕ) → (q == a) ≡ false → (q == p) ≡ false → after q ≡ h q
  unfolding fill_orders
  others q na np = rw (np, na)

  pub agree : (xs : List ℕ) → contains xs a ≡ false → contains xs p ≡ false → Agree xs h after
  agree xs out_a out_p q i =
      others q (apart_of_contains xs a q out_a i).1 (apart_of_contains xs p q out_p i).1

  module _ (from_a : f ≤ (h a).remaining_qty) (from_p : f ≤ (h p).remaining_qty)
      (small_a : (h a).remaining_qty < 2 ^ 64) (small_p : (h p).remaining_qty < 2 ^ 64) where
    -- The aggressive order loses the quantity and nothing else.
    pub aggressive : after a ≡ record (h a) { remaining_qty = (h a).remaining_qty - f }
    unfolding fill_orders
    aggressive =
        let less_f : sub_u64 (h a).remaining_qty f ≡ (h a).remaining_qty - f = omega arith in
        rw (differ, ==_self a) (ap (λ n. record (h a) { remaining_qty = n }) less_f)

    -- So does the passive order, whose state then says whether it is filled.
    pub passive : after p ≡ record (h p) {
      remaining_qty = (h p).remaining_qty - f;
      state = if (h p).remaining_qty - f == 0 then filled else part_fill;
    }
    unfolding fill_orders
    passive =
        let apart : (p == a) ≡ false = ground arith in
        let less_f : sub_u64 (h p).remaining_qty f ≡ (h p).remaining_qty - f = omega arith in
        rw (==_self p, apart)
          (ap
            (λ n. record (h p) { remaining_qty = n; state = if n == 0 then filled else part_fill })
            less_f)

    -- The level that `p` heads, with its total reduced, is the same queue.
    pub IsQueue-fill :
        (l : PriceLevel) (ps : List ℕ)
        → contains (p ∷ ps) a ≡ false
        → IsQueue h l (p ∷ ps)
        → IsQueue after (record l { total_qty = sub_u64 l.total_qty f }) (p ∷ ps)
    IsQueue-fill l ps out queue = record {
      distinct = queue.distinct;
      links = Seg-frame h after (p ∷ ps) none l.head l.tail none same_links queue.links;
      total = omega (
        arith,
        queue.total,
        from_p,
        ap (λ (o : Order). o.remaining_qty) passive,
        sum_remaining-frame ps h after (agree ps (ground (arith, out)) queue.distinct.0),
      );
      count = queue.count;
    }
      where
        same_links :
            (q : ℕ)
            → contains (p ∷ ps) q ≡ true
            → ((after q).prev ≡ (h q).prev) × ((after q).next ≡ (h q).next)
        same_links q i = elim (Bool-cases (q == p)) [
          | inl here ↦ let e : q ≡ p = (==_iff q p).0 here in rw (e, passive) (refl, refl)
          | inr there ↦ rw (others q (apart_of_contains (p ∷ ps) a q out i).1 there) (refl, refl)
        ]
