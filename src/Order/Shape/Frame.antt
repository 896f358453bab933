-- ===== src/Order/Shape/Frame.antt =====
-- Writes to other orders change nothing of a side.
use low_latency_project.Prelude.{
  ℕ, ◌+◌, ◌≡◌, refl, ap, ◌∙◌, Bool, true, false, List, [], ◌∷◌, ◌++◌, contains, arith,
  contains-append, if◌then◌else◌, ==_self, none,
}
use mathlib.Core.Path.{ap₂}
use low_latency_project.Core.Types.{Price, is_buy}
use low_latency_project.Order.Record.{Order, Heap}
use low_latency_project.Order.Level.{PriceLevel, is_empty}
use low_latency_project.Order.Level.Links.{Seg-frame}
use low_latency_project.Order.Level.Queue.{IsQueue, sum_remaining, payload}
use low_latency_project.Order.Book.{Levels, is_closed}
use low_latency_project.Order.Shape.{
  Shape, slots, Rests, AllRest, Represents, AllBehind, IsSorted, Entry, entries, entries_at,
}

-- The heaps agree at the orders of `ps`.
abbrev pub Agree : List ℕ → Heap → Heap → Type 0
Agree ps h g = (q : ℕ) → contains ps q ≡ true → g q ≡ h q

pub Agree-tail : (p : ℕ) (ps : List ℕ) (h g : Heap) → Agree (p ∷ ps) h g → Agree ps h g
Agree-tail p ps h g same q i = same q (ground (arith, i))

pub Agree-left : (xs ys : List ℕ) (h g : Heap) → Agree (xs ++ ys) h g → Agree xs h g
Agree-left xs ys h g same q i = same q (ground (arith, contains-append xs ys q, i))

pub Agree-right : (xs ys : List ℕ) (h g : Heap) → Agree (xs ++ ys) h g → Agree ys h g
Agree-right xs ys h g same q i = same q (ground (arith, contains-append xs ys q, i))

pub sum_remaining-frame :
    (ps : List ℕ) (h g : Heap) → Agree ps h g → sum_remaining g ps ≡ sum_remaining h ps
sum_remaining-frame [] h g same = refl
sum_remaining-frame (p ∷ ps) h g same =
    ap₂ ◌+◌ (ap (λ (o : Order). o.remaining_qty) (same p (rw (==_self p))))
      (sum_remaining-frame ps h g (Agree-tail p ps h g same))

pub IsQueue-frame :
    (h g : Heap) (l : PriceLevel) (ps : List ℕ) → Agree ps h g → IsQueue h l ps → IsQueue g l ps
IsQueue-frame h g l ps same queue = record {
  distinct = queue.distinct;
  links =
      Seg-frame h g ps none l.head l.tail none
        (λ q i. (ap (λ (o : Order). o.prev) (same q i), ap (λ (o : Order). o.next) (same q i)))
        queue.links;
  total = rw (sum_remaining-frame ps h g same) queue.total;
  count = queue.count;
}

pub Rests-frame :
    (h g : Heap) (bid : Bool) (k : Price) (p : ℕ) → g p ≡ h p → Rests h bid k p → Rests g bid k p
Rests-frame h g bid k p same r = record {
  at_price = rw same r.at_price;
  on_side = rw same r.on_side;
  filling = rw same r.filling;
  fits = rw same r.fits;
  alive = rw same r.alive;
}

pub AllRest-frame :
    (h g : Heap) (bid : Bool) (k : Price) (ps : List ℕ)
    → Agree ps h g
    → AllRest h bid k ps
    → AllRest g bid k ps
AllRest-frame h g bid k [] same r = tt
AllRest-frame h g bid k (p ∷ ps) same r = (
  Rests-frame h g bid k p (same p (rw (==_self p))) r.0,
  AllRest-frame h g bid k ps (Agree-tail p ps h g same) r.1,
)

pub Represents-frame :
    (h g : Heap) (bid : Bool) (m : Levels) (s : Shape)
    → Agree (slots s) h g
    → Represents h bid m s
    → Represents g bid m s
Represents-frame h g bid [] [] same r = tt
Represents-frame h g bid [] (e ∷ s) same r = r
Represents-frame h g bid (e ∷ m) [] same r = r
Represents-frame h g bid ((key, l) ∷ m) ((k, ps) ∷ s) same r =
    let here = Agree-left ps (slots s) h g same in
    (
      record {
        keyed = r.0.keyed;
        priced = r.0.priced;
        queue = IsQueue-frame h g l ps here r.0.queue;
        filled_in = r.0.filled_in;
        resting = AllRest-frame h g bid k ps here r.0.resting;
      },
      Represents-frame h g bid m s (Agree-right ps (slots s) h g same) r.1,
    )

pub entries_at-frame :
    (h g : Heap) (k : Price) (ps : List ℕ) → Agree ps h g → entries_at g k ps ≡ entries_at h k ps
entries_at-frame h g k [] same = refl
entries_at-frame h g k (p ∷ ps) same =
    ap₂ ◌∷◌
      (ap
        (λ (o : Order).
          let e : Entry = record { id = o.id; price = k; remaining = o.remaining_qty } in e)
        (same p (rw (==_self p))))
      (entries_at-frame h g k ps (Agree-tail p ps h g same))

pub entries-frame : (h g : Heap) (s : Shape) → Agree (slots s) h g → entries g s ≡ entries h s
entries-frame h g [] same = refl
entries-frame h g ((k, ps) ∷ s) same =
    ap₂ ◌++◌ (entries_at-frame h g k ps (Agree-left ps (slots s) h g same))
      (entries-frame h g s (Agree-right ps (slots s) h g same))

-- Writes of links change nothing that the outside sees of the orders.
pub AllRest-payload :
    (h g : Heap) (bid : Bool) (k : Price) (ps : List ℕ)
    → ((q : ℕ) → payload (g q) ≡ payload (h q))
    → AllRest h bid k ps
    → AllRest g bid k ps
AllRest-payload h g bid k [] same r = tt
AllRest-payload h g bid k (p ∷ ps) same r =
    let e = same p in
    (
      record {
        at_price = ap (λ (o : Order). o.price) e ∙ r.0.at_price;
        on_side = ap (λ (o : Order). is_buy o.side) e ∙ r.0.on_side;
        filling = rw (ap (λ (o : Order). o.remaining_qty) e) r.0.filling;
        fits = rw (ap (λ (o : Order). o.remaining_qty) e) r.0.fits;
        alive = ap (λ (o : Order). is_closed o.state) e ∙ r.0.alive;
      },
      AllRest-payload h g bid k ps same r.1,
    )

pub entries_at-payload :
    (h g : Heap) (k : Price) (ps : List ℕ)
    → ((q : ℕ) → payload (g q) ≡ payload (h q))
    → entries_at g k ps ≡ entries_at h k ps
entries_at-payload h g k [] same = refl
entries_at-payload h g k (p ∷ ps) same =
    ap₂ ◌∷◌
      (ap
        (λ (o : Order).
          let e : Entry = record { id = o.id; price = k; remaining = o.remaining_qty } in e)
        (same p))
      (entries_at-payload h g k ps same)

-- The side when the first order of its first level is gone.
abbrev pub shape_after : Price → List ℕ → Shape → Shape
shape_after k [] s = s
shape_after k (q ∷ qs) s = (k, q ∷ qs) ∷ s

pub slots_after : (k : Price) (ps : List ℕ) (s : Shape) → slots (shape_after k ps s) ≡ ps ++ slots s
slots_after k [] s = refl
slots_after k (q ∷ qs) s = refl

pub entries_after :
    (h : Heap) (k : Price) (ps : List ℕ) (s : Shape)
    → entries h (shape_after k ps s) ≡ entries_at h k ps ++ entries h s
entries_after h k [] s = refl
entries_after h k (q ∷ qs) s = refl

pub Represents-after :
    (h : Heap) (bid : Bool) (key : Price) (l : PriceLevel) (m : Levels) (k : Price) (ps : List ℕ)
    (s : Shape)
    → key ≡ k
    → l.price ≡ k
    → IsQueue h l ps
    → AllRest h bid k ps
    → Represents h bid m s
    → Represents h bid (if is_empty l then m else (key, l) ∷ m) (shape_after k ps s)
unfolding is_empty
Represents-after h bid key l m k [] s keyed priced queue resting r = rw (queue.links.0) r
Represents-after h bid key l m k (q ∷ qs) s keyed priced queue resting r =
    let empty : is_empty l ≡ false = ground (arith, queue.links.0) in
    rw empty (
      record {
        keyed = keyed;
        priced = priced;
        queue = queue;
        filled_in = omega arith;
        resting = resting;
      },
      r,
    )

pub IsSorted-after :
    (before : Price → Price → Bool) (k : Price) (ps : List ℕ) (s : Shape)
    → AllBehind before k s × IsSorted before s
    → IsSorted before (shape_after k ps s)
IsSorted-after before k [] s h = h.1
IsSorted-after before k (q ∷ qs) s h = h
