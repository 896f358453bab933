-- ===== src/Order/Insert.antt =====
-- Where a new order goes on its side: behind the orders of its price, in front of the worse ones.
pub mod Place
use low_latency_project.Prelude.{
  ℕ, suc, ◌+◌, ◌^◌, ◌<◌, ◌≡◌, refl, sym, ap, ◌∙◌, Bool, true, false, not, ◌&&◌, ◌||◌, List, [], ◌∷◌,
  ◌++◌, length, contains, IsDistinct, arith, ◌==◌, contains-append, length-append, if◌then◌else◌,
  ==_self, Option, none, some, Bool-cases, inl, inr, IsDistinct-apart, IsDistinct-right,
  apart_of_contains, IsDistinct-snoc,
}
use low_latency_project.Prelude.Int.{ℤ, ltb_ℤ, pos_part, neg_part, eq_of_parts}
use low_latency_project.Prelude.Map.{find, put, equivalent}
use low_latency_project.Core.Types.{Price}
use low_latency_project.Order.Record.{Order, Heap}
use low_latency_project.Order.Level.{PriceLevel, empty_level}
use low_latency_project.Order.Level.Queue.{IsQueue, OnlyLinks, payload}
use low_latency_project.Order.Book.{Levels, level_or_empty}
use low_latency_project.Order.Shape.{
  Shape, slots, Rests, AllRest, IsLevel, Represents, AllBehind, IsSorted, order_of,
}
use low_latency_project.Order.Shape.Frame.{Agree, Represents-frame}

pub order_trans :
    (bid : Bool) (a b c : Price)
    → order_of bid a b ≡ true
    → order_of bid b c ≡ true
    → order_of bid a c ≡ true
order_trans true a b c p q = ground (arith, p, q)
order_trans false a b c p q = ground (arith, p, q)

pub order_eq :
    (bid : Bool) (a b : Price) → order_of bid a b ≡ false → order_of bid b a ≡ false → a ≡ b
order_eq true a b p q = eq_of_parts a b (ground (arith, p, q))
order_eq false a b p q = eq_of_parts a b (ground (arith, p, q))

pub order_asym : (bid : Bool) (a b : Price) → order_of bid a b ≡ true → order_of bid b a ≡ false
order_asym true a b p = ground (arith, p)
order_asym false a b p = ground (arith, p)

-- The queue at a price, and the side with an order behind it.
abbrev pub queue_at : Bool → Price → Shape → List ℕ
queue_at bid k [] = []
queue_at bid k ((j, ps) ∷ s) =
    if order_of bid k j then [] else if order_of bid j k then queue_at bid k s else ps

abbrev pub insert_at : Bool → Price → ℕ → Shape → Shape
insert_at bid k o [] = (k, o ∷ []) ∷ []
insert_at bid k o ((j, ps) ∷ s) =
    if order_of bid k j
    then (k, o ∷ []) ∷ (j, ps) ∷ s
    else if order_of bid j k
    then (j, ps) ∷ insert_at bid k o s
    else (j, ps ++ (o ∷ [])) ∷ s

module _ (bid : Bool) (k : Price) where
  -- No level stands at a price in front of all.
  find-behind :
      (h : Heap) (m : Levels) (s : Shape)
      → AllBehind (order_of bid) k s
      → Represents h bid m s
      → find (order_of bid) k m ≡ none
  unfolding find
  find-behind h [] [] behind r = refl
  find-behind h [] (e ∷ s) behind r = absurd r
  find-behind h (e ∷ m) [] behind r = absurd r
  find-behind h ((key, l) ∷ m) ((j, ps) ∷ s) behind r =
      let first : order_of bid k key ≡ true = rw (r.0.keyed) (behind.0) in
      rw first (find-behind h m s behind.1 r.1)

  pub AllBehind-trans :
      (j : Price) (s : Shape)
      → order_of bid k j ≡ true
      → AllBehind (order_of bid) j s
      → AllBehind (order_of bid) k s
  AllBehind-trans j [] first behind = tt
  AllBehind-trans j ((i, ps) ∷ s) first behind =
      (order_trans bid k j i first behind.0, AllBehind-trans j s first behind.1)

  -- What `levels[price]` finds or makes is the queue at that price.
  pub level_at :
      (h : Heap) (m : Levels) (s : Shape)
      → Represents h bid m s
      → IsSorted (order_of bid) s
      → IsQueue h
          (record (level_or_empty (find (order_of bid) k m)) { price = k })
          (queue_at bid k s)
  unfolding find
  level_at h [] [] r sorted = record {
    distinct = tt;
    links = (refl, refl);
    total = refl;
    count = refl;
  }
  level_at h [] (e ∷ s) r sorted = absurd r
  level_at h (e ∷ m) [] r sorted = absurd r
  level_at h ((key, l) ∷ m) ((j, ps) ∷ s) r sorted = elim (Bool-cases (order_of bid k j)) [
    | inl first ↦
        let first_key : order_of bid k key ≡ true = rw (r.0.keyed) first in
        rw (first_key, first, find-behind h m s (AllBehind-trans j s first sorted.0) r.1)
          (record { distinct = tt; links = (refl, refl); total = refl; count = refl })
    | inr not_first ↦
        let not_first_key : order_of bid k key ≡ false = rw (r.0.keyed) not_first in
        elim (Bool-cases (order_of bid j k)) [
          | inl later ↦
              let later_key : order_of bid key k ≡ true = rw (r.0.keyed) later in
              rw (not_first_key, later_key, not_first, later) (level_at h m s r.1 sorted.1)
          | inr here ↦
              let here_key : order_of bid key k ≡ false = rw (r.0.keyed) here in
              let queue = r.0.queue in
              rw (not_first_key, here_key, not_first, here)
                (record {
                  distinct = queue.distinct;
                  links = queue.links;
                  total = queue.total;
                  count = queue.count;
                })
        ]
  ]

  -- The slots of the queue at a price are some of the side's.
  pub queue_at-inside :
      (s : Shape) (q : ℕ) → contains (queue_at bid k s) q ≡ true → contains (slots s) q ≡ true
  queue_at-inside [] q i = i
  queue_at-inside ((j, ps) ∷ s) q i =
      ground (arith, contains-append ps (slots s) q, queue_at-inside s q)

  -- The order joins the slots.
  pub insert_at-contains :
      (o : ℕ) (s : Shape) (q : ℕ)
      → contains (slots (insert_at bid k o s)) q ≡ contains (o ∷ slots s) q
  insert_at-contains o [] q = refl
  insert_at-contains o ((j, ps) ∷ s) q = ground (
    arith,
    contains-append ps (slots s) q,
    contains-append (ps ++ (o ∷ [])) (slots s) q,
    contains-append ps (o ∷ []) q,
    contains-append ps (slots (insert_at bid k o s)) q,
    insert_at-contains o s q,
  )

  pub insert_at-length :
      (o : ℕ) (s : Shape) → length (slots (insert_at bid k o s)) ≡ suc (length (slots s))
  insert_at-length o [] = refl
  insert_at-length o ((j, ps) ∷ s) = ground (
    arith,
    length-append ps (slots s),
    length-append (ps ++ (o ∷ [])) (slots s),
    length-append ps (o ∷ []),
    length-append ps (slots (insert_at bid k o s)),
    insert_at-length o s,
  )

  AllBehind-insert :
      (j : Price) (o : ℕ) (s : Shape)
      → order_of bid j k ≡ true
      → AllBehind (order_of bid) j s
      → AllBehind (order_of bid) j (insert_at bid k o s)
  AllBehind-insert j o [] later behind = (later, tt)
  AllBehind-insert j o ((i, ps) ∷ s) later behind = elim (Bool-cases (order_of bid k i)) [
    | inl first ↦ rw first (later, behind)
    | inr not_first ↦ elim (Bool-cases (order_of bid i k)) [
      | inl after ↦ rw (not_first, after) (behind.0, AllBehind-insert j o s later behind.1)
      | inr here ↦ rw (not_first, here) behind
    ]
  ]

  pub IsSorted-insert :
      (o : ℕ) (s : Shape)
      → IsSorted (order_of bid) s
      → IsSorted (order_of bid) (insert_at bid k o s)
  IsSorted-insert o [] sorted = (tt, tt)
  IsSorted-insert o ((j, ps) ∷ s) sorted = elim (Bool-cases (order_of bid k j)) [
    | inl first ↦ rw first ((first, AllBehind-trans j s first sorted.0), sorted)
    | inr not_first ↦ elim (Bool-cases (order_of bid j k)) [
      | inl later ↦
          rw (not_first, later)
            (AllBehind-insert j o s later sorted.0, IsSorted-insert o s sorted.1)
      | inr here ↦ rw (not_first, here) sorted
    ]
  ]

  -- The level `l` with the new order behind the queue `qs`, all else as in the heap `h`.
  pub record Joined (h g : Heap) (o : ℕ) (l : PriceLevel) (qs : List ℕ) : Type 0 where
    pub queue : IsQueue g l (qs ++ (o ∷ []))
    pub priced : l.price ≡ k
    pub rest : AllRest g bid k (qs ++ (o ∷ []))
    pub outside : (q : ℕ) → contains (qs ++ (o ∷ [])) q ≡ false → g q ≡ h q

  -- Putting that level into the map gives the side with the order.
  pub put-Represents :
      (h g : Heap) (o : ℕ) (l : PriceLevel) (m : Levels) (s : Shape)
      → Represents h bid m s
      → IsDistinct (slots s)
      → Joined h g o l (queue_at bid k s)
      → contains (slots s) o ≡ false
      → Represents g bid (put (order_of bid) k l m) (insert_at bid k o s)
  unfolding put
  put-Represents h g o l [] [] r d joined out = (
    record {
      keyed = refl;
      priced = joined.priced;
      queue = joined.queue;
      filled_in = omega arith;
      resting = joined.rest;
    },
    tt,
  )
  put-Represents h g o l [] (e ∷ s) r d joined out = absurd r
  put-Represents h g o l (e ∷ m) [] r d joined out = absurd r
  put-Represents h g o l ((key, w) ∷ m) ((j, ps) ∷ s) r d joined out =
      let in_ps : (q : ℕ) → contains ps q ≡ true → contains (ps ++ slots s) q ≡ true =
        λ q i. ground (arith, contains-append ps (slots s) q, i) in
      elim (Bool-cases (order_of bid k j)) [
        | inl first ↦
            let first_key : order_of bid k key ≡ true = rw (r.0.keyed) first in
            let now : Joined h g o l [] = rw first at joined in
            rw (first_key, first)
              (
                record {
                  keyed = refl;
                  priced = now.priced;
                  queue = now.queue;
                  filled_in = omega arith;
                  resting = now.rest;
                },
                Represents-frame h g bid ((key, w) ∷ m) ((j, ps) ∷ s)
                    (λ q i.
                      now.outside q (ground (arith, apart_of_contains (ps ++ slots s) o q out i)))
                    r,
              )
        | inr not_first ↦
            let not_first_key : order_of bid k key ≡ false = rw (r.0.keyed) not_first in
            elim (Bool-cases (order_of bid j k)) [
              | inl later ↦
                  let later_key : order_of bid key k ≡ true = rw (r.0.keyed) later in
                  let now : Joined h g o l (queue_at bid k s) = rw (not_first, later) at joined in
                  let head =
                    Represents-frame h g bid ((key, w) ∷ []) ((j, ps) ∷ [])
                      (λ q i.
                        let inside : contains ps q ≡ true =
                          ground (arith, contains-append ps [] q, i) in
                        now.outside q (
                          ground (
                            arith,
                            contains-append (queue_at bid k s) (o ∷ []) q,
                            queue_at-inside s q,
                            apart_of_contains (ps ++ slots s) o q out (in_ps q inside),
                            IsDistinct-apart ps (slots s) q d,
                            inside,
                          )))
                      (r.0, tt) in
                  rw (not_first_key, later_key, not_first, later)
                    (
                      head.0,
                      put-Represents h g o l m s r.1 (IsDistinct-right ps (slots s) d) now
                          (ground (arith, contains-append ps (slots s) o, out)),
                    )
              | inr here ↦
                  let here_key : order_of bid key k ≡ false = rw (r.0.keyed) here in
                  let now : Joined h g o l ps = rw (not_first, here) at joined in
                  let same : k ≡ j = order_eq bid k j not_first here in
                  rw (not_first_key, here_key, not_first, here)
                    (
                      record {
                        keyed = r.0.keyed;
                        priced = now.priced ∙ same;
                        queue = now.queue;
                        filled_in = omega (arith, length-append ps (o ∷ []));
                        resting = rw same at now.rest;
                      },
                      Represents-frame h g bid m s
                          (λ q i.
                            let inside : contains (ps ++ slots s) q ≡ true =
                              ground (arith, contains-append ps (slots s) q, i) in
                            now.outside q (
                              ground (
                                arith,
                                contains-append ps (o ∷ []) q,
                                apart_of_contains (ps ++ slots s) o q out inside,
                                IsDistinct-apart ps (slots s) q d i,
                              )))
                          r.1,
                    )
            ]
      ]
