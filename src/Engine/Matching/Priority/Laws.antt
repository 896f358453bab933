-- ===== src/Engine/Matching/Priority/Laws.antt =====
-- What a sweep guarantees.
use low_latency_project.Prelude.{
  ℕ, ◌+◌, ◌-◌, ◌≡◌, ◌<◌, refl, Bool, true, false, List, [], ◌∷◌, ◌==◌, ltb, arith, ◌⊎◌, inl, inr,
  Bool-cases,
}
use low_latency_project.Core.Types.{Price, Quantity}
use low_latency_project.Order.Shape.{Entry}
use low_latency_project.Engine.Matching.{out_of_reach}
use low_latency_project.Engine.Matching.Priority.{Fill, fill_of, sweep}

abbrev pub total_filled : List Fill → ℕ
total_filled [] = 0
total_filled (f ∷ fs) = f.qty + total_filled fs

abbrev pub total_resting : List Entry → ℕ
total_resting [] = 0
total_resting (e ∷ es) = e.remaining + total_resting es

abbrev pub AllPositive : List Entry → Type 0
AllPositive [] = Unit {0}
AllPositive (e ∷ es) = (0 < e.remaining) × AllPositive es

-- No fill is at a price worse than the limit, and each moves a positive quantity.
abbrev pub AllWithin : Bool → Price → List Fill → Type 0
AllWithin hits_asks price [] = Unit {0}
AllWithin hits_asks price (f ∷ fs) =
    (out_of_reach hits_asks price f.price ≡ false) × (0 < f.qty) × AllWithin hits_asks price fs

-- Nothing can be filled any more: the order is done, or nothing is within reach.
abbrev pub Exhausted : Bool → Price → Quantity → List Entry → Type 0
Exhausted hits_asks price left [] = Unit {0}
Exhausted hits_asks price left (e ∷ es) = (left ≡ 0) ⊎ (out_of_reach hits_asks price e.price ≡ true)

-- The fills take whole entries from the front of the list, in its order, but for the last, which may
-- take a part of the next entry; `rest` is what then remains.
abbrev pub InPriority : List Entry → List Fill → List Entry → Type 0
InPriority es [] rest = rest ≡ es
InPriority [] (f ∷ fs) rest = ⊥
InPriority (e ∷ es) (f ∷ fs) rest =
    ((f ≡ fill_of e e.remaining) × InPriority es fs rest)
    ⊎ ((fs ≡ [])
        × (f.qty < e.remaining)
        × (f ≡ fill_of e f.qty)
        × (rest ≡ record e { remaining = e.remaining - f.qty } ∷ es))

module _ (hits_asks : Bool) (price : Price) where
  -- What is filled and what is left add up to the order's quantity, and the other side loses what is
  -- filled.
  pub sweep-conserves :
      (qty : Quantity) (es : List Entry)
      → let o = sweep hits_asks price qty es in
        (total_filled o.fills + o.left ≡ qty)
        × (total_resting o.rest + total_filled o.fills ≡ total_resting es)
  unfolding sweep
  sweep-conserves qty [] = (omega arith, omega arith)
  sweep-conserves qty (e ∷ es) = ground (arith, sweep-conserves (qty - e.remaining) es)

  pub sweep-AllWithin :
      (qty : Quantity) (es : List Entry)
      → AllPositive es
      → AllWithin hits_asks price (sweep hits_asks price qty es).fills
  unfolding sweep
  sweep-AllWithin qty [] p = tt
  sweep-AllWithin qty (e ∷ es) p =
      let ih = sweep-AllWithin (qty - e.remaining) es p.1 in
      elim (Bool-cases (qty == 0)) [
        | inl z ↦ rw z tt
        | inr nz ↦ elim (Bool-cases (out_of_reach hits_asks price e.price)) [
          | inl out ↦ rw (nz, out) tt
          | inr within ↦ elim (Bool-cases (ltb qty e.remaining)) [
            | inl part ↦ rw (nz, within, part) (within, ground arith, tt)
            | inr whole ↦ rw (nz, within, whole) (within, p.0, ih)
          ]
        ]
      ]

  pub sweep-Exhausted :
      (qty : Quantity) (es : List Entry)
      → let o = sweep hits_asks price qty es in Exhausted hits_asks price o.left o.rest
  unfolding sweep
  sweep-Exhausted qty [] = tt
  sweep-Exhausted qty (e ∷ es) =
      let ih = sweep-Exhausted (qty - e.remaining) es in
      elim (Bool-cases (qty == 0)) [
        | inl z ↦ rw z (inl (ground arith))
        | inr nz ↦ elim (Bool-cases (out_of_reach hits_asks price e.price)) [
          | inl out ↦ rw (nz, out) (inr out)
          | inr within ↦ elim (Bool-cases (ltb qty e.remaining)) [
            | inl part ↦ rw (nz, within, part) (inl refl)
            | inr whole ↦ rw (nz, within, whole) ih
          ]
        ]
      ]

  pub sweep-InPriority :
      (qty : Quantity) (es : List Entry)
      → let o = sweep hits_asks price qty es in InPriority es o.fills o.rest
  unfolding sweep
  sweep-InPriority qty [] = refl
  sweep-InPriority qty (e ∷ es) =
      let ih = sweep-InPriority (qty - e.remaining) es in
      elim (Bool-cases (qty == 0)) [
        | inl z ↦ rw z refl
        | inr nz ↦ elim (Bool-cases (out_of_reach hits_asks price e.price)) [
          | inl out ↦ rw (nz, out) refl
          | inr within ↦ elim (Bool-cases (ltb qty e.remaining)) [
            | inl part ↦ rw (nz, within, part) (inr (refl, ground arith, refl, refl))
            | inr whole ↦ rw (nz, within, whole) (inl (refl, ih))
          ]
        ]
      ]
