-- ===== src/Order/Delete/Place.antt =====
-- The removal of an order from its level and its side, as `OrderBook::cancel` does it.
use low_latency_project.Prelude.{
  ℕ, ◌≡◌, refl, sym, ap, ◌∙◌, Bool, true, false, List, [], ◌∷◌, ◌++◌, contains, IsDistinct, arith,
  ◌==◌, contains-append, if◌then◌else◌, Option, none, some, Bool-cases, inl, inr, IsDistinct-middle,
  apart_of_contains,
}
use mathlib.Core.Path.{subst}
use mathlib.Core.List.{append_assoc}
use low_latency_project.Prelude.Map.{find, put, erase}
use low_latency_project.Core.Types.{Price}
use low_latency_project.Order.Record.{Heap, set_state, cancelled}
use low_latency_project.Order.Level.{PriceLevel, is_empty, remove}
use low_latency_project.Order.Level.Links.{Seg-frame}
use low_latency_project.Order.Level.Queue.{IsQueue, OnlyLinks, sum_remaining}
use low_latency_project.Order.Level.Removal.{remove_lem}
use low_latency_project.Order.Book.{Levels, remove_order}
use low_latency_project.Order.Shape.{
  Shape, slots, AllRest, Represents, AllBehind, IsSorted, order_of,
}
use low_latency_project.Order.Shape.Frame.{AllRest-frame, AllRest-payload, slots_after, shape_after}
use low_latency_project.Order.Delete.{
  without, delete, queue_of, split_at, find-level, remove-Represents, queue_of-inside,
}

queue_of-has : (p : ℕ) (s : Shape) → contains (slots s) p ≡ true → contains (queue_of p s) p ≡ true
queue_of-has p [] i = i
queue_of-has p ((k, ps) ∷ s) i = ground (arith, i, contains-append ps (slots s) p, queue_of-has p s)

-- The slots of the side in front of the order and behind it.
pub slots_split :
    (p : ℕ) (s : Shape)
    → contains (slots s) p ≡ true
    → (xs ys : List ℕ) × (slots s ≡ xs ++ (p ∷ ys)) × (slots (delete p s) ≡ xs ++ ys)
slots_split p [] i = absurd (ground arith)
slots_split p ((k, ps) ∷ s) i = elim (Bool-cases (contains ps p)) [
  | inl here ↦
      let (xs, ys, e, f) = split_at p ps here in
      (
        xs,
        ys ++ slots s,
        ap (λ zs. zs ++ slots s) e ∙ append_assoc xs (p ∷ ys) (slots s),
        rw here (
            slots_after k (without p ps) s
            ∙ ap (λ zs. zs ++ slots s) f
            ∙ append_assoc xs ys (slots s)),
      )
  | inr there ↦
      let (xs, ys, e, f) =
        slots_split p s (ground (arith, i, there, contains-append ps (slots s) p)) in
      (
        ps ++ xs,
        ys,
        ap (λ zs. ps ++ zs) e ∙ sym (append_assoc ps xs (p ∷ ys)),
        rw there (ap (λ zs. ps ++ zs) f ∙ sym (append_assoc ps xs ys)),
      )
]

pub delete-missing : (p : ℕ) (s : Shape) → contains (slots s) p ≡ false → delete p s ≡ s
delete-missing p [] out = refl
delete-missing p ((k, ps) ∷ s) out =
    let here : contains ps p ≡ false = ground (arith, out, contains-append ps (slots s) p) in
    rw here (
      ap (λ t. (k, ps) ∷ t)
        (delete-missing p s (ground (arith, out, contains-append ps (slots s) p))))

AllBehind-after :
    (before : Price → Price → Bool) (j k : Price) (ps : List ℕ) (s : Shape)
    → before j k ≡ true
    → AllBehind before j s
    → AllBehind before j (shape_after k ps s)
AllBehind-after before j k [] s first behind = behind
AllBehind-after before j k (q ∷ qs) s first behind = (first, behind)

AllBehind-delete :
    (before : Price → Price → Bool) (j : Price) (p : ℕ) (s : Shape)
    → AllBehind before j s
    → AllBehind before j (delete p s)
AllBehind-delete before j p [] behind = tt
AllBehind-delete before j p ((k, ps) ∷ s) behind = elim (Bool-cases (contains ps p)) [
  | inl here ↦ rw here (AllBehind-after before j k (without p ps) s behind.0 behind.1)
  | inr there ↦ rw there (behind.0, AllBehind-delete before j p s behind.1)
]

IsSorted-shape_after :
    (before : Price → Price → Bool) (k : Price) (ps : List ℕ) (s : Shape)
    → AllBehind before k s
    → IsSorted before s
    → IsSorted before (shape_after k ps s)
IsSorted-shape_after before k [] s behind sorted = sorted
IsSorted-shape_after before k (q ∷ qs) s behind sorted = (behind, sorted)

pub IsSorted-delete :
    (before : Price → Price → Bool) (p : ℕ) (s : Shape)
    → IsSorted before s
    → IsSorted before (delete p s)
IsSorted-delete before p [] sorted = tt
IsSorted-delete before p ((k, ps) ∷ s) sorted = elim (Bool-cases (contains ps p)) [
  | inl here ↦ rw here (IsSorted-shape_after before k (without p ps) s sorted.0 sorted.1)
  | inr there ↦
      rw there (AllBehind-delete before k p s sorted.0, IsSorted-delete before p s sorted.1)
]

AllRest-split :
    (h : Heap) (bid : Bool) (k : Price) (xs : List ℕ) (p : ℕ) (ys : List ℕ)
    → AllRest h bid k (xs ++ (p ∷ ys))
    → AllRest h bid k (xs ++ ys)
AllRest-split h bid k [] p ys r = r.1
AllRest-split h bid k (x ∷ xs) p ys r = (r.0, AllRest-split h bid k xs p ys r.1)

sum_remaining-state :
    (h : Heap) (p : ℕ) (ps : List ℕ)
    → sum_remaining (set_state h p cancelled) ps ≡ sum_remaining h ps
sum_remaining-state h p [] = refl
sum_remaining-state h p (q ∷ qs) =
    let same : (set_state h p cancelled q).remaining_qty ≡ (h q).remaining_qty = ground arith in
    omega (arith, same, sum_remaining-state h p qs)

-- A state is nothing to the queue.
IsQueue-state :
    (h : Heap) (p : ℕ) (l : PriceLevel) (ps : List ℕ)
    → IsQueue h l ps
    → IsQueue (set_state h p cancelled) l ps
IsQueue-state h p l ps queue = record {
  distinct = queue.distinct;
  links =
      Seg-frame h (set_state h p cancelled) ps none l.head l.tail none
        (λ q i. (ground arith, ground arith)) queue.links;
  total = rw (sum_remaining-state h p ps) queue.total;
  count = queue.count;
}

remove_order-found :
    (before : Price → Price → Bool) (k : Price) (p : ℕ) (h : Heap) (m : Levels) (l : PriceLevel)
    → find before k m ≡ some l
    → remove_order before k p h m ≡ (
        let (g, l') = remove p h l in
        (g, if is_empty l' then erase before k m else put before k l' m))
unfolding remove_order
remove_order-found before k p h m l found =
    ap
      (λ (o : Option PriceLevel). elim o [
        | none ↦ (h, m)
        | some w ↦
            (let (g, l') = remove p h w in
              (g, if is_empty l' then erase before k m else put before k l' m))
      ])
      found

module _ (bid : Bool) (k : Price) (p : ℕ) (h : Heap) (m : Levels) (s : Shape)
    (r : Represents h bid m s) (sorted : IsSorted (order_of bid) s) (d : IsDistinct (slots s))
    (inside : contains (slots s) p ≡ true) (priced : (h p).price ≡ k) where
  abbrev closed : Heap
  closed = set_state h p cancelled

  others : (q : ℕ) → (q == p) ≡ false → closed q ≡ h q
  others q apart = rw apart

  -- The order leaves its level, and the level its side if it was the last; only links are written.
  pub remove_order_lem :
      let (g, m') = remove_order (order_of bid) k p closed m in
      Represents g bid m' (delete p s) × OnlyLinks (slots s) closed g
  remove_order_lem =
      let (l, found, queue, price_is, resting) = find-level bid k p h m s r sorted inside priced in
      let has = queue_of-has p s inside in
      let (xs, ys, e, f) = split_at p (queue_of p s) has in
      let same_queue = IsQueue-state h p l (queue_of p s) queue in
      let queue' : IsQueue closed l (xs ++ (p ∷ ys)) = rw e at same_queue in
      let parts = IsDistinct-middle xs p ys queue'.distinct in
      let g = (remove p closed l).0 in
      let gone = remove_lem closed p xs ys l queue' in
      let out : contains (xs ++ ys) p ≡ false =
        ground (arith, contains-append xs ys p, parts.1, parts.2) in
      subst
        (λ (x : Heap × Levels).
          Represents (x.0) bid (x.1) (delete p s) × OnlyLinks (slots s) closed (x.0))
        (sym (remove_order-found (order_of bid) k p closed m l found))
        (
          remove-Represents bid k p h g (remove p closed l).1 m s r sorted d inside priced (record {
            queue = rw f (gone.0);
            priced = gone.4 ∙ price_is;
            rest = rw f (
                AllRest-payload closed g bid k (xs ++ ys) gone.1.payloads (
                  AllRest-frame h closed bid k (xs ++ ys)
                    (λ q i. others q (apart_of_contains (xs ++ ys) p q out i).1)
                    (AllRest-split h bid k xs p ys (rw e at resting))));
            outside = λ q i.
                gone.1.outside q (rw (sym e) i)
                ∙ others q (ground (arith, apart_of_contains (queue_of p s) q p i has));
          }),
          record {
            payloads = gone.1.payloads;
            outside =
                λ q i. gone.1.outside q (rw (sym e) (ground (arith, queue_of-inside p s q, i)));
          },
        )
