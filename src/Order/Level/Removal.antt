-- ===== src/Order/Level/Removal.antt =====
-- `PriceLevel::remove` takes one order out of the middle of the queue.
use mathlib.Core.Path.{subst}
use low_latency_project.Prelude.{
  ℕ, ◌≡◌, refl, sym, ap, ◌∙◌, true, false, none, some, List, [], ◌∷◌, ◌++◌, arith, ◌==◌,
  length-append, contains, IsDistinct, IsDistinct-middle, IsDistinct-apart, apart_of_contains,
  ==_self, Bool-cases, inl, inr, contains-append,
}
use low_latency_project.Order.Record.{Order, Pointer, Heap, set_prev, set_next}
use low_latency_project.Order.Level.{PriceLevel, unlink_prev, unlink_next, remove}
use low_latency_project.Order.Level.Links.{
  Seg, Seg-frame, Seg-split, Seg-join, Seg-last, Seg-set_next, Seg-set_prev,
}
use low_latency_project.Order.Level.Queue.{
  IsQueue, OnlyLinks, payload, payload-set_prev, payload-set_next, sum_remaining-append,
  sum_remaining-payload, tail_inside,
}

-- Closing the gap in front of `o`.
unlink_prev-links :
    (h : Heap) (o : ℕ) (xs : List ℕ) (p : Pointer) (l : PriceLevel)
    → IsDistinct xs
    → Seg h none xs l.head p (some o)
    → let (g, l') = unlink_prev p o h l in Seg g none xs l'.head p (h o).next
unlink_prev-links h o [] none l d s = (refl, refl)
unlink_prev-links h o [] (some p) l d s = cc
unlink_prev-links h o (x ∷ xs) none l d s =
    let (t, e, i) = Seg-last h x xs none l.head none (some o) s in cc
unlink_prev-links h o (x ∷ xs) (some p) l d s =
    Seg-set_next h x xs none l.head (some o) (h o).next p d s

unlink_prev-outside :
    (h : Heap) (o : ℕ) (xs : List ℕ) (p stop : Pointer) (l : PriceLevel)
    → Seg h none xs l.head p stop
    → (q : ℕ) → contains xs q ≡ false
    → (unlink_prev p o h l).0 q ≡ h q
unlink_prev-outside h o xs none stop l s q out = refl
unlink_prev-outside h o xs (some p) stop l s q out =
    rw (apart_of_contains xs q p out (tail_inside h xs l.head p stop s)).0

-- Closing the gap behind `o`.
unlink_next-links :
    (h : Heap) (o : ℕ) (ys : List ℕ) (n : Pointer) (l : PriceLevel)
    → IsDistinct ys
    → Seg h (some o) ys n l.tail none
    → let (g, l') = unlink_next n o h l in Seg g (h o).prev ys n l'.tail none
unlink_next-links h o [] none l d s = (refl, refl)
unlink_next-links h o [] (some n) l d s = cc
unlink_next-links h o (y ∷ ys) none l d s = cc
unlink_next-links h o (y ∷ ys) (some n) l d s =
    let same : n ≡ y = cc in
    subst (λ k. Seg (set_prev h k (h o).prev) (h o).prev (y ∷ ys) (some k) l.tail none) (sym same)
      (Seg-set_prev h y ys (some o) (some y) l.tail none (h o).prev d (rw same at s))

unlink_next-outside :
    (h : Heap) (o : ℕ) (ys : List ℕ) (before n last stop : Pointer) (l : PriceLevel)
    → Seg h before ys n last none
    → (q : ℕ) → contains ys q ≡ false
    → (unlink_next n o h l).0 q ≡ h q
unlink_next-outside h o ys before none last stop l s q out = refl
unlink_next-outside h o [] before (some n) last stop l s q out = cc
unlink_next-outside h o (y ∷ ys) before (some n) last stop l s q out =
    let same : n ≡ y = cc in ground (arith, same, out)

unlink_prev-payload :
    (h : Heap) (o : ℕ) (p : Pointer) (l : PriceLevel) (q : ℕ)
    → payload ((unlink_prev p o h l).0 q) ≡ payload (h q)
unlink_prev-payload h o none l q = refl
unlink_prev-payload h o (some p) l q = payload-set_next h p (h o).next q

unlink_next-payload :
    (h : Heap) (o : ℕ) (p : Pointer) (l : PriceLevel) (q : ℕ)
    → payload ((unlink_next p o h l).0 q) ≡ payload (h q)
unlink_next-payload h o none l q = refl
unlink_next-payload h o (some p) l q = payload-set_prev h p (h o).prev q

-- The unlinking changes only the ends of the level.
unlink-keeps :
    (p n : Pointer) (o : ℕ) (h g : Heap) (l : PriceLevel)
    → let l1 = (unlink_prev p o h l).1 in
      let l2 = (unlink_next n o g l1).1 in
      (l1.tail ≡ l.tail)
      × (l2.head ≡ l1.head)
      × (l2.total_qty ≡ l.total_qty)
      × (l2.order_count ≡ l.order_count)
      × (l2.price ≡ l.price)
unlink-keeps none none o h g l = (refl, refl, refl, refl, refl)
unlink-keeps none (some n) o h g l = (refl, refl, refl, refl, refl)
unlink-keeps (some p) none o h g l = (refl, refl, refl, refl, refl)
unlink-keeps (some p) (some n) o h g l = (refl, refl, refl, refl, refl)

module _ (h : Heap) (o : ℕ) (xs ys : List ℕ) (l : PriceLevel)
    (queue : IsQueue h l (xs ++ (o ∷ ys))) where
  parts :
      IsDistinct (xs ++ ys)
      × (contains xs o ≡ false)
      × (contains ys o ≡ false)
      × IsDistinct xs
      × IsDistinct ys
  parts = IsDistinct-middle xs o ys queue.distinct

  abbrev h1 : Heap
  h1 = (unlink_prev (h o).prev o h l).0

  abbrev l1 : PriceLevel
  l1 = (unlink_prev (h o).prev o h l).1

  abbrev h2 : Heap
  h2 = (unlink_next (h1 o).next o h1 l1).0

  abbrev l2 : PriceLevel
  l2 = (unlink_next (h1 o).next o h1 l1).1

  abbrev h3 : Heap
  h3 = set_next (set_prev h2 o none) o none

  -- The segments in front of and behind `o`.
  before : Seg h none xs l.head (h o).prev (some o) × Seg h (some o) ys (h o).next l.tail none
  before =
      let (m, j, front, back) = Seg-split h xs (o ∷ ys) none l.head l.tail none queue.links in
      (rw (back.1, ← back.0) front, back.2)

  same_o : h1 o ≡ h o
  same_o = unlink_prev-outside h o xs (h o).prev (some o) l before.0 o parts.1

  front1 : Seg h1 none xs l1.head (h o).prev (h o).next
  front1 = unlink_prev-links h o xs (h o).prev l parts.3 before.0

  tail1 : l1.tail ≡ l.tail
  tail1 = (unlink-keeps (h o).prev (h1 o).next o h h1 l).0

  head2 : l2.head ≡ l1.head
  head2 = (unlink-keeps (h o).prev (h1 o).next o h h1 l).1

  -- No order stands both in front of `o` and behind it.
  front_only : (q : ℕ) → contains ys q ≡ true → contains xs q ≡ false
  front_only q i = IsDistinct-apart xs ys q parts.0 i

  back_only : (q : ℕ) → contains xs q ≡ true → contains ys q ≡ false
  back_only q i = elim (Bool-cases (contains ys q)) [
    | inl both ↦ let clash = front_only q both in cc
    | inr out ↦ out
  ]

  back1 : Seg h1 (some o) ys (h1 o).next l1.tail none
  back1 =
      rw (tail1, same_o)
        (Seg-frame h h1 ys (some o) (h o).next l.tail none
          (λ q i.
            let e = unlink_prev-outside h o xs (h o).prev (some o) l before.0 q (front_only q i) in
            rw e (refl, refl))
          before.1)

  outside2 : (q : ℕ) → contains ys q ≡ false → h2 q ≡ h1 q
  outside2 = unlink_next-outside h1 o ys (some o) (h1 o).next l1.tail none l1 back1

  outside3 : (q : ℕ) → (q == o) ≡ false → h3 q ≡ h2 q
  outside3 q ne = rw ne

  -- The two halves at the end.
  front3 : Seg h3 none xs l2.head (h o).prev (h o).next
  front3 = rw head2 (
      Seg-frame h1 h3 xs none l1.head (h o).prev (h o).next
        (λ q i.
          let e =
            outside3 q ((apart_of_contains xs o q parts.1 i).1) ∙ outside2 q (back_only q i) in
          rw e (refl, refl))
        front1)

  back3 : Seg h3 (h o).prev ys (h o).next l2.tail none
  back3 =
      let linked = unlink_next-links h1 o ys (h1 o).next l1 parts.4 back1 in
      let linked' = subst (λ r. Seg h2 r.prev ys r.next l2.tail none) same_o linked in
      Seg-frame h2 h3 ys (h o).prev (h o).next l2.tail none
        (λ q i. let e = outside3 q ((apart_of_contains ys o q parts.2 i).1) in rw e (refl, refl))
        linked'

  payloads : (q : ℕ) → payload (h3 q) ≡ payload (h q)
  payloads q =
      payload-set_next (set_prev h2 o none) o none q
      ∙ payload-set_prev h2 o none q
      ∙ unlink_next-payload h1 o (h1 o).next l1 q
      ∙ unlink_prev-payload h o (h o).prev l q

  outside : (q : ℕ) → contains (xs ++ (o ∷ ys)) q ≡ false → h3 q ≡ h q
  outside q out =
      let apart : (contains xs q ≡ false) × ((q == o) ≡ false) × (contains ys q ≡ false) =
        ground (arith, contains-append xs (o ∷ ys) q) in
      outside3 q apart.1
      ∙ outside2 q apart.2
      ∙ unlink_prev-outside h o xs (h o).prev (some o) l before.0 q apart.0

  -- `remove` of any order of the level takes it out and leaves the others in their order, keeps the
  -- totals of the rest, clears the links of the removed order, and writes nothing but links of the
  -- level's orders.
  pub remove_lem :
      let (g, l') = remove o h l in
      IsQueue g l' (xs ++ ys)
      × OnlyLinks (xs ++ (o ∷ ys)) h g
      × ((g o).prev ≡ none)
      × ((g o).next ≡ none)
      × (l'.price ≡ l.price)
  unfolding remove
  remove_lem =
      let keeps = unlink-keeps (h o).prev (h1 o).next o h h1 l in
      (
        record {
          distinct = parts.0;
          links = Seg-join h3 xs ys none l2.head (h o).prev (h o).next l2.tail none front3 back3;
          total = omega (
            arith,
            keeps.2,
            queue.total,
            sum_remaining-append h xs (o ∷ ys),
            sum_remaining-append h xs ys,
            sum_remaining-payload h h3 (xs ++ ys) payloads,
            ap (λ (r : Order). r.remaining_qty) (payloads o),
          );
          count =
              omega (arith, keeps.3, queue.count, length-append xs (o ∷ ys), length-append xs ys);
        },
        record { payloads = payloads; outside = outside },
        rw (==_self o),
        rw (==_self o),
        keeps.4,
      )
