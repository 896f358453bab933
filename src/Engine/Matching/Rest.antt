-- ===== src/Engine/Matching/Rest.antt =====
-- An order that stands in the pool and in no level is put on its own side.
use low_latency_project.Prelude.{
  ℕ, suc, ◌≡◌, ap, ◌∙◌, Bool, false, not, List, ◌∷◌, ◌++◌, arith, ◌==◌, length, length-append,
  contains, contains-append, IsDistinct-insert, IsDistinct-right, IsDistinct-apart-left,
  apart_of_contains, sym, ==_iff, Bool-cases, inl, inr,
}
use mathlib.Core.Path.{subst}
use low_latency_project.Prelude.Map.{assign}
use low_latency_project.Core.Types.{Price}
use low_latency_project.Order.Record.{Order, Heap}
use low_latency_project.Order.Level.Queue.{OnlyLinks}
use low_latency_project.Order.Book.{OrderBook, Levels, heap, set_heap, insert_order}
use low_latency_project.Order.Shape.{Shape, slots, Represents, Rests, order_of, entries}
use low_latency_project.Order.Shape.Frame.{Agree, Represents-frame, entries-frame}
use low_latency_project.Order.Accounts.{Accounts-storage, Accounts-reorder}
use low_latency_project.Order.Listed.{Listed, Listed-assign, Listed-reorder}
use low_latency_project.Order.Insert.{
  insert_at, insert_at-contains, insert_at-length, IsSorted-insert,
}
use low_latency_project.Order.Insert.Place.{
  entries-payload, insert_entry, entry_of, insert_order_lem, entries-insert_at,
  IsDistinct-insert_at,
}
use low_latency_project.Engine.Matching.{hit_levels, set_hit_levels}
use low_latency_project.Engine.Matching.Mid.{Mid, hit_levels-set_map, heap-set_hit_levels}
use low_latency_project.Engine.Matching.Turned.{Turned, Turned-set_far}

-- The side on which the order `a` is put at a price, and the book with it, when `stored` is the heap.
abbrev pub put_in : Bool → ℕ → OrderBook → Heap → Price → Heap × Levels
put_in hits_asks a b stored price =
    insert_order (order_of hits_asks) price a stored (hit_levels (not hits_asks) b)

abbrev pub rested : Bool → ℕ → OrderBook → Heap → Price → OrderBook
rested hits_asks a b stored price =
    let (g, m) = put_in hits_asks a b stored price in
    set_hit_levels (not hits_asks) m
      (record (set_heap b g) { order_map = assign (heap b a).id a b.order_map })

module _ (capacity : ℕ) (hits_asks : Bool) (a : ℕ) (hit far : Shape) (b : OrderBook)
    (mid : Mid capacity hits_asks a hit far b) (stored : Heap)
    (framed : (q : ℕ) → (q == a) ≡ false → stored q ≡ heap b q)
    (same_id : (stored a).id ≡ (heap b a).id) (price : Price)
    (new_rests : Rests stored hits_asks price a) where
  out_hit : contains (slots hit) a ≡ false
  out_hit = ground (arith, contains-append (slots hit) (slots far) a, mid.distinct.0)

  out_far : contains (slots far) a ≡ false
  out_far = ground (arith, contains-append (slots hit) (slots far) a, mid.distinct.0)

  agrees : (xs : List ℕ) → contains xs a ≡ false → Agree xs (heap b) stored
  agrees xs out q i = framed q ((apart_of_contains xs a q out i).1)

  agrees_far : Agree (slots far) (heap b) stored
  agrees_far = agrees (slots far) out_far

  same_ids : (q : ℕ) → (stored q).id ≡ (heap b q).id
  same_ids q = elim (Bool-cases (q == a)) [
    | inl here ↦ subst (λ n. (stored n).id ≡ (heap b n).id) (sym ((==_iff q a).0 here)) same_id
    | inr there ↦ ap (λ (o : Order). o.id) (framed q there)
  ]

  abbrev put : Heap × Levels
  put = put_in hits_asks a b stored price

  abbrev after : OrderBook
  after = rested hits_asks a b stored price

  abbrev pub new_far : Shape
  new_far = insert_at hits_asks price a far

  placed : Represents (put.0) hits_asks (put.1) new_far × OnlyLinks (a ∷ slots far) stored (put.0)
  placed =
      insert_order_lem hits_asks price stored a (hit_levels (not hits_asks) b) far
        (Represents-frame (heap b) stored hits_asks (hit_levels (not hits_asks) b) far agrees_far
          mid.far_side)
        mid.far_sorted (IsDistinct-right (slots hit) (slots far) mid.distinct.1) new_rests out_far

  agrees_hit : Agree (slots hit) (heap b) (put.0)
  agrees_hit q i =
      placed.1.outside q (
        ground (
          arith,
          IsDistinct-apart-left (slots hit) (slots far) q mid.distinct.1 i,
          apart_of_contains (slots hit) a q out_hit i,
        ))
      ∙ agrees (slots hit) out_hit q i

  ids_rested : (q : ℕ) → (put.0 q).id ≡ (heap b q).id
  ids_rested q = ap (λ (o : Order). o.id) (placed.1.payloads q) ∙ same_ids q

  heap-rested : heap after ≡ put.0
  heap-rested =
      heap-set_hit_levels (not hits_asks) (put.1)
        (record (set_heap b (put.0)) { order_map = assign (heap b a).id a b.order_map })

  same_slots :
      (q : ℕ) → contains (slots hit ++ slots new_far) q ≡ contains (a ∷ (slots hit ++ slots far)) q
  same_slots q = ground (
    arith,
    contains-append (slots hit) (slots new_far) q,
    contains-append (slots hit) (slots far) q,
    insert_at-contains hits_asks price a far q,
  )

  same_length : length (slots hit ++ slots new_far) ≡ suc (length (slots hit ++ slots far))
  same_length = omega (
    arith,
    length-append (slots hit) (slots new_far),
    length-append (slots hit) (slots far),
    insert_at-length hits_asks price a far,
  )

  pub Turned-rested : Turned capacity hits_asks hit new_far after
  Turned-rested =
      Turned-set_far capacity hits_asks hit new_far (put.1)
        (record (set_heap b (put.0)) { order_map = assign (heap b a).id a b.order_map })
        (rw (hit_levels-set_map hits_asks (assign (heap b a).id a b.order_map) (put.0) b) (
          Represents-frame (heap b) (put.0) (not hits_asks) (hit_levels hits_asks b) hit agrees_hit
            mid.hit_side))
        placed.0 mid.hit_sorted (IsSorted-insert hits_asks price a far mid.far_sorted)
        (IsDistinct-insert a (slots hit) (slots far) (slots new_far) mid.distinct.0 mid.distinct.1
          (insert_at-contains hits_asks price a far)
          (IsDistinct-insert_at hits_asks price a far out_far
            (IsDistinct-right (slots hit) (slots far) mid.distinct.1)))
        (Accounts-reorder (a ∷ (slots hit ++ slots far)) (slots hit ++ slots new_far) same_slots
          same_length (Accounts-storage (put.0) mid.accounts))
        (Listed-reorder (assign (heap b a).id a b.order_map) (put.0) (a ∷ (slots hit ++ slots far))
          (slots hit ++ slots new_far) same_slots same_length
          (subst (λ n. Listed (assign n a b.order_map) (put.0) (a ∷ (slots hit ++ slots far)))
            (ids_rested a)
            (Listed-assign b.order_map (heap b) (put.0) a (slots hit ++ slots far) mid.distinct.0
              (λ q i. ids_rested q) (rw (ids_rested a) mid.fresh) mid.listed)))

  pub entries-hit-rested : entries (heap after) hit ≡ entries (heap b) hit
  entries-hit-rested =
      ap (λ h. entries h hit) heap-rested ∙ entries-frame (heap b) (put.0) hit agrees_hit

  pub entries-far-rested :
      entries (heap after) new_far
      ≡ insert_entry hits_asks (entry_of stored price a) (entries (heap b) far)
  entries-far-rested =
      ap (λ h. entries h new_far) heap-rested
      ∙ entries-payload stored (put.0) new_far placed.1.payloads
      ∙ entries-insert_at hits_asks price stored (hit_levels (not hits_asks) b) a far
          (Represents-frame (heap b) stored hits_asks (hit_levels (not hits_asks) b) far agrees_far
            mid.far_side)
          mid.far_sorted
      ∙ ap (insert_entry hits_asks (entry_of stored price a))
          (entries-frame (heap b) stored far agrees_far)
