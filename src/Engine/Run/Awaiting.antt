-- ===== src/Engine/Run/Awaiting.antt =====
-- The orders that are to come to the engine, and how they pass through its inbound ring.
use mathlib.Core.Path.{subst}
use mathlib.Core.Bool.{or_assoc, or-true}
use mathlib.Core.List.{append_assoc}
use low_latency_project.Prelude.{
  ℕ, ◌^◌, ◌≡◌, ◌<◌, refl, sym, Bool, true, false, ◌||◌, List, [], ◌∷◌, ◌++◌, ◌==◌, ltb, arith,
  length, Bool-cases, inl, inr, ==_self, ==_iff,
}
use low_latency_project.Core.Types.{OrderId}
use low_latency_project.Core.Ring.{push}
use low_latency_project.Core.Ring.Queue
use low_latency_project.Core.Ring.Window.{Holds}
use low_latency_project.Core.Ring.Refine.{push_refines}
use low_latency_project.Order.Record.{Order}
use low_latency_project.Order.Shape.{Entry}
use low_latency_project.Engine.Run.{EngineState, Tick, arrive, ring_capacity}
use low_latency_project.Engine.Run.Ids.{has_id}

unfoldable pub has_order : OrderId → List Order → Bool
has_order i [] = false
has_order i (o ∷ os) = (i == o.id) || has_order i os

abbrev pub IsSmall : Order → Type 0
IsSmall o = o.remaining_qty < 2 ^ 64

-- Orders to come: each has an id that neither rests nor comes again, and is fine.
abbrev pub Awaiting : (Order → Type 0) → List Entry → List Order → Type 0
Awaiting Fine es [] = Unit {0}
Awaiting Fine es (o ∷ os) =
    ((has_id o.id es ≡ false) × (has_order o.id os ≡ false) × Fine o) × Awaiting Fine es os

abbrev pub orders_of : List Tick → List Order
orders_of [] = []
orders_of (t ∷ ticks) = t.arrived ++ orders_of ticks

has_order-append :
    (i : OrderId) (xs ys : List Order) → has_order i (xs ++ ys) ≡ (has_order i xs || has_order i ys)
unfolding has_order
has_order-append i [] ys = refl
has_order-append i (x ∷ xs) ys = rw (has_order-append i xs ys, or_assoc)

Awaiting-drop :
    (Fine : Order → Type 0) (es : List Entry) (xs : List Order) (o : Order) (ys : List Order)
    → Awaiting Fine es (xs ++ (o ∷ ys))
    → Awaiting Fine es (xs ++ ys)
unfolding has_order
Awaiting-drop Fine es [] o ys w = w.1
Awaiting-drop Fine es (x ∷ xs) o ys w = (
  (
    w.0.0,
    ground (arith, w.0.1, has_order-append x.id xs (o ∷ ys), has_order-append x.id xs ys),
    w.0.2,
  ),
  Awaiting-drop Fine es xs o ys w.1,
)

-- The entries may change by what does not concern the orders to come.
pub Awaiting-mono :
    (Fine : Order → Type 0) (before after : List Entry) (os : List Order)
    → ((i : OrderId) → has_order i os ≡ true → has_id i before ≡ false → has_id i after ≡ false)
    → Awaiting Fine before os
    → Awaiting Fine after os
unfolding has_order
Awaiting-mono Fine before after [] keep w = tt
Awaiting-mono Fine before after (o ∷ os) keep w = (
  (keep o.id (rw (==_self o.id) refl) w.0.0, w.0.1, w.0.2),
  Awaiting-mono Fine before after os (λ i inside. keep i (rw (inside, or-true) refl)) w.1,
)

pub apart_of_has_order :
    (i id : OrderId) (os : List Order)
    → has_order i os ≡ true
    → has_order id os ≡ false
    → (i == id) ≡ false
apart_of_has_order i id os inside out = elim (Bool-cases (i == id)) [
  | inl same ↦
      let e : i ≡ id = (==_iff i id).0 same in
      let clash : has_order id os ≡ true = rw e at inside in cc
  | inr apart ↦ apart
]

pub book-arrive : (os : List Order) (e : EngineState) → (arrive os e).book ≡ e.book
unfolding arrive
book-arrive [] e = refl
book-arrive (o ∷ os) e = book-arrive os (record e { inbound = (push ring_capacity o e.inbound).1 })

pub risk_state-arrive :
    (os : List Order) (e : EngineState) → (arrive os e).risk_state ≡ e.risk_state
unfolding arrive
risk_state-arrive [] e = refl
risk_state-arrive (o ∷ os) e =
    risk_state-arrive os (record e { inbound = (push ring_capacity o e.inbound).1 })

-- The ring holds what was in it and what arrived while there was room.
pub arrive-Holds :
    (Fine : Order → Type 0) (os : List Order) (es : List Entry) (q future : List Order) (start : ℕ)
    (e : EngineState)
    → Holds 12 e.inbound start q
    → Awaiting Fine es (q ++ (os ++ future))
    → (q' : List Order) × Holds 12 (arrive os e).inbound start q' × Awaiting Fine es (q' ++ future)
unfolding arrive
arrive-Holds Fine [] es q future start e h w = (q, h, w)
arrive-Holds Fine (o ∷ os) es q future start e h w =
    let e1 = record e { inbound = (push ring_capacity o e.inbound).1 } in
    let held =
      subst (Holds 12 e1.inbound start) (Queue.push_leaves 4096 o q) (push_refines o h).1 in
    elim (Bool-cases (ltb (length q) 4096)) [
      | inl room ↦
          arrive-Holds Fine os es (q ++ (o ∷ [])) future start e1 (rw room at held)
            (subst (Awaiting Fine es) (sym (append_assoc q (o ∷ []) (os ++ future))) w)
      | inr full ↦
          arrive-Holds Fine os es q future start e1 (rw full at held)
            (Awaiting-drop Fine es q o (os ++ future) w)
    ]
