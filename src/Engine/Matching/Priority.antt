-- ===== src/Engine/Matching/Priority.antt =====
-- The specification of matching: an incoming order sweeps a list of resting entries, which stands in
-- the order of priority, and takes from each as much as it can until it is filled or out of reach.
pub mod Laws
use low_latency_project.Prelude.{
  ℕ, ◌+◌, ◌-◌, Bool, true, false, List, [], ◌∷◌, ◌++◌, ◌==◌, ltb, if◌then◌else◌, ◌≡◌,
}
use low_latency_project.Prelude.Int.{ℤ}
use low_latency_project.Core.Types.{OrderId, Price, Quantity}
use low_latency_project.Order.Shape.{Entry}
use low_latency_project.Engine.Matching.{out_of_reach}

pub record Fill : Type 0 where
  pub passive_id : OrderId
  pub price : Price
  pub qty : Quantity

-- The fills in their order, the quantity left, and the entries that rest afterwards.
pub record Outcome : Type 0 where
  pub fills : List Fill
  pub left : Quantity
  pub rest : List Entry

abbrev pub fill_of : Entry → Quantity → Fill
fill_of e q = record { passive_id = e.id; price = e.price; qty = q }

abbrev pub prepend : Fill → Outcome → Outcome
prepend f o = record o { fills = f ∷ o.fills }

unfoldable pub sweep : Bool → Price → Quantity → List Entry → Outcome
sweep hits_asks price qty [] = record { fills = []; left = qty; rest = [] }
sweep hits_asks price qty (e ∷ es) =
    if qty == 0
    then record { fills = []; left = qty; rest = e ∷ es }
    else if out_of_reach hits_asks price e.price
    then record { fills = []; left = qty; rest = e ∷ es }
    else if ltb qty e.remaining
    then record {
      fills = fill_of e qty ∷ [];
      left = 0;
      rest = record e { remaining = e.remaining - qty } ∷ es;
    }
    else prepend (fill_of e e.remaining) (sweep hits_asks price (qty - e.remaining) es)
