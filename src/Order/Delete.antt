-- ===== src/Order/Delete.antt =====
-- A side without one of its orders.
pub mod Place
use low_latency_project.Prelude.{
  ℕ, suc, ◌+◌, ◌^◌, ◌<◌, ◌≡◌, refl, sym, ap, ◌∙◌, Bool, true, false, not, ◌&&◌, ◌||◌, List, [], ◌∷◌,
  ◌++◌, length, contains, IsDistinct, arith, ◌==◌, contains-append, length-append, if◌then◌else◌,
  ==_self, ==_iff, Option, none, some, Bool-cases, inl, inr, IsDistinct-apart, IsDistinct-right,
  IsDistinct-left, IsDistinct-insert, IsDistinct-apart-left, apart_of_contains,
}
use low_latency_project.Prelude.Map.{find, put, erase, equivalent}
use low_latency_project.Core.Types.{Price}
use low_latency_project.Order.Record.{Order, Heap}
use low_latency_project.Order.Level.{PriceLevel, is_empty}
use low_latency_project.Order.Level.Queue.{IsQueue}
use low_latency_project.Order.Book.{Levels}
use low_latency_project.Order.Shape.{
  Shape, slots, Rests, AllRest, IsLevel, Represents, AllBehind, IsSorted, order_of,
}
use low_latency_project.Order.Shape.Frame.{
  Represents-frame, Represents-after, shape_after, slots_after,
}
use low_latency_project.Order.Insert.{order_asym}

abbrev pub without : ℕ → List ℕ → List ℕ
without p [] = []
without p (q ∷ qs) = if q == p then qs else q ∷ without p qs

abbrev pub delete : ℕ → Shape → Shape
delete p [] = []
delete p ((k, ps) ∷ s) =
    if contains ps p then shape_after k (without p ps) s else (k, ps) ∷ delete p s

-- The queue in which the order stands.
abbrev pub queue_of : ℕ → Shape → List ℕ
queue_of p [] = []
queue_of p ((k, ps) ∷ s) = if contains ps p then ps else queue_of p s

-- The queue in front of the order and behind it.
pub split_at :
    (p : ℕ) (ps : List ℕ)
    → contains ps p ≡ true
    → (xs ys : List ℕ) × (ps ≡ xs ++ (p ∷ ys)) × (without p ps ≡ xs ++ ys)
split_at p [] i = absurd (ground arith)
split_at p (q ∷ qs) i = elim (Bool-cases (q == p)) [
  | inl here ↦ let e : q ≡ p = (==_iff q p).0 here in ([], qs, ap (λ x. x ∷ qs) e, rw here refl)
  | inr there ↦
      let (xs, ys, e, f) = split_at p qs (ground (arith, i, there)) in
      (q ∷ xs, ys, ap (λ zs. q ∷ zs) e, rw there (ap (λ zs. q ∷ zs) f))
]

pub rests_at :
    (h : Heap) (bid : Bool) (k : Price) (ps : List ℕ) (p : ℕ)
    → AllRest h bid k ps
    → contains ps p ≡ true
    → Rests h bid k p
rests_at h bid k [] p r i = absurd (ground arith)
rests_at h bid k (q ∷ qs) p r i = elim (Bool-cases (p == q)) [
  | inl here ↦ let e : p ≡ q = (==_iff p q).0 here in rw e (r.0)
  | inr there ↦ rests_at h bid k qs p r.1 (ground (arith, i, there))
]

-- The order rests at its own price on its side.
pub rests_in :
    (h : Heap) (bid : Bool) (m : Levels) (s : Shape) (p : ℕ)
    → Represents h bid m s
    → contains (slots s) p ≡ true
    → Rests h bid (h p).price p
rests_in h bid m [] p r i = absurd (ground arith)
rests_in h bid [] (e ∷ s) p r i = absurd r
rests_in h bid ((key, l) ∷ m) ((k, ps) ∷ s) p r i = elim (Bool-cases (contains ps p)) [
  | inl here ↦
      let rests = rests_at h bid k ps p r.0.resting here in
      record {
        at_price = refl;
        on_side = rests.on_side;
        filling = rests.filling;
        fits = rests.fits;
        alive = rests.alive;
      }
  | inr there ↦ rests_in h bid m s p r.1 (ground (arith, i, there, contains-append ps (slots s) p))
]

price_behind :
    (h : Heap) (bid : Bool) (m : Levels) (s : Shape) (p : ℕ) (j : Price)
    → Represents h bid m s
    → AllBehind (order_of bid) j s
    → contains (slots s) p ≡ true
    → order_of bid j (h p).price ≡ true
price_behind h bid m [] p j r behind i = absurd (ground arith)
price_behind h bid [] (e ∷ s) p j r behind i = absurd r
price_behind h bid ((key, l) ∷ m) ((k, ps) ∷ s) p j r behind i = elim (Bool-cases (contains ps p)) [
  | inl here ↦ rw (rests_at h bid k ps p r.0.resting here).at_price (behind.0)
  | inr there ↦
      price_behind h bid m s p j r.1 behind.1
        (ground (arith, i, there, contains-append ps (slots s) p))
]

-- The queue's orders are some of the side's.
pub queue_of-inside :
    (p : ℕ) (s : Shape) (q : ℕ) → contains (queue_of p s) q ≡ true → contains (slots s) q ≡ true
queue_of-inside p [] q i = i
queue_of-inside p ((k, ps) ∷ s) q i =
    ground (arith, contains-append ps (slots s) q, queue_of-inside p s q)

order_irrefl : (bid : Bool) (k : Price) → order_of bid k k ≡ false
order_irrefl true k = ground arith
order_irrefl false k = ground arith

module _ (bid : Bool) (k : Price) (p : ℕ) where
  -- `find` finds the level of the order.
  pub find-level :
      (h : Heap) (m : Levels) (s : Shape)
      → Represents h bid m s
      → IsSorted (order_of bid) s
      → contains (slots s) p ≡ true
      → (h p).price ≡ k
      → (l : PriceLevel) × (find (order_of bid) k m ≡ some l)
        × IsQueue h l (queue_of p s)
        × (l.price ≡ k)
        × AllRest h bid k (queue_of p s)
  unfolding find
  find-level h m [] r sorted i at = absurd (ground arith)
  find-level h [] (e ∷ s) r sorted i at = absurd r
  find-level h ((key, l) ∷ m) ((j, ps) ∷ s) r sorted i at = elim (Bool-cases (contains ps p)) [
    | inl here ↦
        let same : j ≡ k = sym (rests_at h bid j ps p r.0.resting here).at_price ∙ at in
        let same_key : key ≡ k = r.0.keyed ∙ same in
        (
          l,
          rw (same_key, order_irrefl bid k) refl,
          rw here r.0.queue,
          r.0.priced ∙ same,
          rw here (rw same at r.0.resting),
        )
    | inr there ↦
        let rest : contains (slots s) p ≡ true =
          ground (arith, i, there, contains-append ps (slots s) p) in
        let later : order_of bid key k ≡ true =
          rw (r.0.keyed, ← at) (price_behind h bid m s p j r.1 sorted.0 rest) in
        let (w, e, queue, priced, resting) = find-level h m s r.1 sorted.1 rest at in
        (w, rw (order_asym bid key k later, later) e, rw there queue, priced, rw there resting)
  ]

  -- The level `l` without the order of the queue `qs`, all else as in the heap `h`.
  pub record Removed (h g : Heap) (l : PriceLevel) (qs : List ℕ) : Type 0 where
    pub queue : IsQueue g l (without p qs)
    pub priced : l.price ≡ k
    pub rest : AllRest g bid k (without p qs)
    pub outside : (q : ℕ) → contains qs q ≡ false → g q ≡ h q

  -- Writing that level back, or erasing it if it is empty, gives the side without the order.
  pub remove-Represents :
      (h g : Heap) (l : PriceLevel) (m : Levels) (s : Shape)
      → Represents h bid m s
      → IsSorted (order_of bid) s
      → IsDistinct (slots s)
      → contains (slots s) p ≡ true
      → (h p).price ≡ k
      → Removed h g l (queue_of p s)
      → Represents g bid
          (if is_empty l then erase (order_of bid) k m else put (order_of bid) k l m)
          (delete p s)
  unfolding erase put
  remove-Represents h g l m [] r sorted d i at removed = absurd (ground arith)
  remove-Represents h g l [] (e ∷ s) r sorted d i at removed = absurd r
  remove-Represents h g l ((key, w) ∷ m) ((j, ps) ∷ s) r sorted d i at removed =
      elim (Bool-cases (contains ps p)) [
        | inl here ↦
            let same : j ≡ k = sym (rests_at h bid j ps p r.0.resting here).at_price ∙ at in
            let same_key : key ≡ k = r.0.keyed ∙ same in
            let now : Removed h g l ps = rw here at removed in
            rw (here, same_key, same, order_irrefl bid k)
              (Represents-after g bid k l m k (without p ps) s refl now.priced now.queue now.rest (
                Represents-frame h g bid m s
                  (λ q i. now.outside q (IsDistinct-apart ps (slots s) q d i)) r.1))
        | inr there ↦
            let rest : contains (slots s) p ≡ true =
              ground (arith, i, there, contains-append ps (slots s) p) in
            let later : order_of bid key k ≡ true =
              rw (r.0.keyed, ← at) (price_behind h bid m s p j r.1 sorted.0 rest) in
            let now : Removed h g l (queue_of p s) = rw there at removed in
            let below =
              remove-Represents h g l m s r.1 sorted.1 (IsDistinct-right ps (slots s) d) rest at
                now in
            let head =
              Represents-frame h g bid ((key, w) ∷ []) ((j, ps) ∷ [])
                (λ q inside.
                  let in_ps : contains ps q ≡ true =
                    ground (arith, contains-append ps [] q, inside) in
                  now.outside q (
                    ground
                      (arith, queue_of-inside p s q, IsDistinct-apart-left ps (slots s) q d in_ps)))
                (r.0, tt) in
            elim (Bool-cases (is_empty l)) [
              | inl empty ↦
                  rw (empty, order_asym bid key k later, later, there) (head.0, rw empty at below)
              | inr kept ↦
                  rw (kept, order_asym bid key k later, later, there) (head.0, rw kept at below)
            ]
      ]
