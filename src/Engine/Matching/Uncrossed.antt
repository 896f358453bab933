-- ===== src/Engine/Matching/Uncrossed.antt =====
-- The best bid stays below the best ask.
use low_latency_project.Prelude.{
  ℕ, ◌-◌, ◌^◌, ◌≡◌, ◌<◌, refl, sym, ◌∙◌, Bool, true, false, not, Option, none, some, List, [], ◌∷◌,
  ◌++◌, arith, ◌==◌, ltb, Bool-cases, inl, inr, ◌⊎◌,
}
use mathlib.Core.Path.{subst}
use low_latency_project.Prelude.Int.{ltb_ℤ}
use low_latency_project.Prelude.Map.{lookup}
use low_latency_project.Core.Types.{OrderId, Price, Quantity, Timestamp, Side, is_buy}
use low_latency_project.Core.Pool.{used}
use low_latency_project.Order.Record.{Heap, TradeEvent}
use low_latency_project.Order.Book.{OrderBook, Levels, heap}
use low_latency_project.Order.Shape.{
  Shape, Represents, IsSorted, AllBehind, order_of, Entry, entries, entries_at,
}
use low_latency_project.Order.Insert.{order_trans}
use low_latency_project.Order.Insert.Place.{insert_entry}
use low_latency_project.Order.Invariant.{IsBook}
use low_latency_project.Engine.Matching.{out_of_reach, process_new_order}
use low_latency_project.Engine.Matching.Turned.{choose}
use low_latency_project.Engine.Matching.Priority.{sweep}
use low_latency_project.Engine.Matching.Priority.Laws.{Exhausted, sweep-Exhausted}
use low_latency_project.Engine.Matching.Refine.{Matched, rest_of, process_new_order_lem}

abbrev pub HasPrice : Price → List Entry → Type 0
HasPrice x [] = ⊥
HasPrice x (e ∷ es) = (e.price ≡ x) ⊎ HasPrice x es

-- Every bid is below every ask.
abbrev pub IsUncrossed : List Entry → List Entry → Type 0
IsUncrossed bids asks = (x y : Price) → HasPrice x bids → HasPrice y asks → ltb_ℤ x y ≡ true

HasPrice-sweep :
    (s : Bool) (price : Price) (y : Price) (qty : Quantity) (es : List Entry)
    → HasPrice y (sweep s price qty es).rest
    → HasPrice y es
unfolding sweep
HasPrice-sweep s price y qty [] has = has
HasPrice-sweep s price y qty (e ∷ es) has = elim (Bool-cases (qty == 0)) [
  | inl z ↦ rw z at has
  | inr nz ↦ elim (Bool-cases (out_of_reach s price e.price)) [
    | inl out ↦ rw (nz, out) at has
    | inr within ↦ elim (Bool-cases (ltb qty e.remaining)) [
      | inl part ↦ rw (nz, within, part) at has
      | inr whole ↦
          inr (HasPrice-sweep s price y (qty - e.remaining) es (rw (nz, within, whole) at has))
    ]
  ]
]

HasPrice-insert :
    (bid : Bool) (e : Entry) (x : Price) (es : List Entry)
    → HasPrice x (insert_entry bid e es)
    → (e.price ≡ x) ⊎ HasPrice x es
unfolding insert_entry
HasPrice-insert bid e x [] has = has
HasPrice-insert bid e x (f ∷ es) has = elim (Bool-cases (order_of bid e.price f.price)) [
  | inl first ↦ rw first at has
  | inr later ↦
      let now : (f.price ≡ x) ⊎ HasPrice x (insert_entry bid e es) = rw later at has in
      elim now [
        | inl here ↦ inr (inl here)
        | inr there ↦ elim (HasPrice-insert bid e x es there) [
          | inl new ↦ inl new
          | inr old ↦ inr (inr old)
        ]
      ]
]

HasPrice-level :
    (h : Heap) (k y : Price) (ps : List ℕ) (es : List Entry)
    → HasPrice y (entries_at h k ps ++ es)
    → (k ≡ y) ⊎ HasPrice y es
HasPrice-level h k y [] es has = inr has
HasPrice-level h k y (p ∷ ps) es has = elim has [
  | inl here ↦ inl here
  | inr there ↦ HasPrice-level h k y ps es there
]

behind_all :
    (bid : Bool) (h : Heap) (k y : Price) (t : Shape)
    → AllBehind (order_of bid) k t
    → HasPrice y (entries h t)
    → order_of bid k y ≡ true
behind_all bid h k y [] behind has = absurd has
behind_all bid h k y ((j, ps) ∷ t) behind has = elim (HasPrice-level h j y ps (entries h t) has) [
  | inl here ↦ rw (sym here) (behind.0)
  | inr there ↦ behind_all bid h k y t behind.1 there
]

reach_order : (s : Bool) (price k : Price) → out_of_reach s price k ≡ order_of (not s) price k
reach_order true price k = refl
reach_order false price k = refl

-- With a quantity left and nothing to take, every price of the side is out of reach.
all_out :
    (s : Bool) (h : Heap) (m : Levels) (t : Shape) (price y : Price) (left : Quantity)
    → Represents h (not s) m t
    → IsSorted (order_of (not s)) t
    → Exhausted s price left (entries h t)
    → (left == 0) ≡ false
    → HasPrice y (entries h t)
    → order_of (not s) price y ≡ true
all_out s h m [] price y left r sorted stuck some_left has = absurd has
all_out s h [] (e ∷ t) price y left r sorted stuck some_left has = absurd r
all_out s h ((key, l) ∷ m) ((k, []) ∷ t) price y left r sorted stuck some_left has =
    absurd (omega (arith, r.0.filled_in))
all_out s h ((key, l) ∷ m) ((k, p ∷ ps) ∷ t) price y left r sorted stuck some_left has =
    let first : order_of (not s) price k ≡ true = elim stuck [
      | inl done ↦ absurd (ground (arith, done, some_left))
      | inr out ↦ sym (reach_order s price k) ∙ out
    ] in
    elim (HasPrice-level h k y (p ∷ ps) (entries h t) has) [
      | inl here ↦ rw (sym here) first
      | inr there ↦ order_trans (not s) price k y first (behind_all (not s) h k y t sorted.0 there)
    ]

-- The side where the remainder rests has the old prices and, with a quantity left, the new one.
HasPrice-rest :
    (s : Bool) (id : OrderId) (price x : Price) (left : Quantity) (es : List Entry)
    → HasPrice x (rest_of s id price left es)
    → (((left == 0) ≡ false) × (price ≡ x)) ⊎ HasPrice x es
HasPrice-rest s id price x left es has = elim (Bool-cases (left == 0)) [
  | inl done ↦ inr (rw done at has)
  | inr some_left ↦
      elim (HasPrice-insert s (record { id = id; price = price; remaining = left }) x es
        (rw some_left at has)) [ inl new ↦ inl (some_left, new) | inr old ↦ inr old ]
]

pub Matched-IsUncrossed :
    (capacity : ℕ) (s : Bool) (id : OrderId) (price : Price) (qty : Quantity)
    (clock : ℕ → Timestamp) (h : Heap) (bids asks : Shape)
    (r : Option (OrderBook × List TradeEvent))
    (m : Matched capacity s id price clock
      (entries h (choose s asks bids))
      (sweep s price qty (entries h (choose s bids asks)))
      r)
    → IsUncrossed (entries h bids) (entries h asks)
    → IsUncrossed (entries (heap m.after) m.bids) (entries (heap m.after) m.asks)
Matched-IsUncrossed capacity true id price qty clock h bids asks r m un x y has_x has_y =
    let old_y =
      HasPrice-sweep true price y qty (entries h asks) (subst (HasPrice y) m.hit_rest has_y) in
    elim (HasPrice-rest true id price x (sweep true price qty (entries h asks)).left
      (entries h bids) (subst (HasPrice x) m.far_rest has_x)) [
        | inl new ↦ rw (sym (new.1)) (
            all_out true (heap m.after) m.after.asks m.asks price y
              (sweep true price qty (entries h asks)).left m.book.asks_side m.book.asks_sorted
              (rw m.hit_rest (sweep-Exhausted true price qty (entries h asks))) (new.0) has_y)
        | inr old_x ↦ un x y old_x old_y
      ]
Matched-IsUncrossed capacity false id price qty clock h bids asks r m un x y has_x has_y =
    let old_x =
      HasPrice-sweep false price x qty (entries h bids) (subst (HasPrice x) m.hit_rest has_x) in
    elim (HasPrice-rest false id price y (sweep false price qty (entries h bids)).left
      (entries h asks) (subst (HasPrice y) m.far_rest has_y)) [
        | inl new ↦ rw (sym (new.1)) (
            all_out false (heap m.after) m.after.bids m.bids price x
              (sweep false price qty (entries h bids)).left m.book.bids_side m.book.bids_sorted
              (rw m.hit_rest (sweep-Exhausted false price qty (entries h bids))) (new.0) has_x)
        | inr old_y ↦ un x y old_x old_y
      ]

-- On a book at rest in which every bid is below every ask, for an id that is not listed, a quantity
-- below 2 ^ 64 and a pool with a free slot, `process_new_order` returns a book at rest in which every
-- bid is below every ask.
pub process_new_order-IsUncrossed :
    (capacity : ℕ) (now : Timestamp) (clock : ℕ → Timestamp) (id : OrderId) (side : Side)
    (price : Price) (qty : Quantity) (b : OrderBook) (bids asks : Shape)
    → IsBook capacity b bids asks
    → lookup id b.order_map ≡ none
    → qty < 2 ^ 64
    → used b.pool < capacity
    → IsUncrossed (entries (heap b) bids) (entries (heap b) asks)
    → (after : OrderBook) × (bids' asks' : Shape) × (trades : List TradeEvent) × (process_new_order
          capacity now clock id side price qty b
        ≡ some (after, trades))
      × IsBook capacity after bids' asks'
      × IsUncrossed (entries (heap after) bids') (entries (heap after) asks')
process_new_order-IsUncrossed capacity now clock id side price qty b bids asks ok fresh small room
      un =
    let m =
      process_new_order_lem capacity now clock id side price qty b bids asks ok fresh small room in
    (
      m.after,
      m.bids,
      m.asks,
      _,
      m.returns,
      m.book,
      Matched-IsUncrossed capacity (is_buy side) id price qty clock (heap b) bids asks
          (process_new_order capacity now clock id side price qty b) m un,
    )
