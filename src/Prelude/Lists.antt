-- ===== src/Prelude/Lists.antt =====
-- Lists measured and indexed by native numbers, and membership as a Boolean.
use Prim.Native.Nat.{ℕ, zero, suc, ◌+◌, ◌-◌}
use mathlib.Core.Path.{◌≡◌, refl, ap}
use mathlib.Core.Logic.{inl, inr}
use mathlib.Core.Bool.{Bool, true, false, ◌||◌, or_assoc}
use mathlib.Core.List.{List, [], ◌∷◌, ◌++◌}
use mathlib.Core.Option.{Option, none, some}
use native.Mathlib.Omega.{arith}
use low_latency_project.Prelude.Tests.{◌==◌, ==_iff, Bool-cases, if◌then◌else◌}

module _ {ℓ} {A : Type ℓ} where
  abbrev pub length : List A → ℕ
  length [] = 0
  length (x ∷ xs) = suc (length xs)

  abbrev pub get_elem? : List A → ℕ → Option A
  get_elem? [] i = none
  get_elem? (x ∷ xs) zero = some x
  get_elem? (x ∷ xs) (suc i) = get_elem? xs i

  -- A write out of bounds changes nothing.
  abbrev pub set : List A → ℕ → A → List A
  set [] i v = []
  set (x ∷ xs) zero v = v ∷ xs
  set (x ∷ xs) (suc i) v = x ∷ set xs i v

  abbrev pub drop : ℕ → List A → List A
  drop zero xs = xs
  drop (suc n) [] = []
  drop (suc n) (x ∷ xs) = drop n xs

  abbrev pub take : ℕ → List A → List A
  take zero xs = []
  take (suc n) [] = []
  take (suc n) (x ∷ xs) = x ∷ take n xs

  -- An array: an index names a cell, and a write changes one cell.
  abbrev pub update : (ℕ → A) → ℕ → A → ℕ → A
  update f i v j = if j == i then v else f j

  pub length-append : (xs ys : List A) → length (xs ++ ys) ≡ length xs + length ys
  length-append [] ys = omega arith
  length-append (x ∷ xs) ys = omega (arith, length-append xs ys)

  pub length-set : (xs : List A) (i : ℕ) (v : A) → length (set xs i v) ≡ length xs
  length-set [] i v = refl
  length-set (x ∷ xs) zero v = refl
  length-set (x ∷ xs) (suc i) v = ap suc (length-set xs i v)

  pub length-drop : (n : ℕ) (xs : List A) → length (drop n xs) ≡ length xs - n
  length-drop zero xs = omega arith
  length-drop (suc n) [] = omega arith
  length-drop (suc n) (x ∷ xs) = omega (arith, length-drop n xs)

abbrev pub contains : List ℕ → ℕ → Bool
contains [] a = false
contains (x ∷ xs) a = (a == x) || contains xs a

-- No element stands twice in the list.
abbrev pub IsDistinct : List ℕ → Type 0
IsDistinct [] = Unit {0}
IsDistinct (x ∷ xs) = (contains xs x ≡ false) × IsDistinct xs

pub contains-append :
    (xs ys : List ℕ) (a : ℕ) → contains (xs ++ ys) a ≡ (contains xs a || contains ys a)
contains-append [] ys a = refl
contains-append (x ∷ xs) ys a = rw (contains-append xs ys a, or_assoc)

pub IsDistinct-snoc :
    (xs : List ℕ) (a : ℕ) → IsDistinct xs → contains xs a ≡ false → IsDistinct (xs ++ (a ∷ []))
IsDistinct-snoc [] a d n = (refl, tt)
IsDistinct-snoc (x ∷ xs) a d n =
    (ground (arith, contains-append xs (a ∷ []) x), IsDistinct-snoc xs a d.1 (ground arith))

-- The parts of a distinct list around one element.
pub IsDistinct-middle :
    (xs : List ℕ) (o : ℕ) (ys : List ℕ)
    → IsDistinct (xs ++ (o ∷ ys))
    → IsDistinct (xs ++ ys)
      × (contains xs o ≡ false)
      × (contains ys o ≡ false)
      × IsDistinct xs
      × IsDistinct ys
IsDistinct-middle [] o ys d = (d.1, refl, d.0, tt, d.1)
IsDistinct-middle (x ∷ xs) o ys d =
    let (rest, before, after, front, back) = IsDistinct-middle xs o ys d.1 in
    (
      (ground (arith, contains-append xs (o ∷ ys) x, contains-append xs ys x), rest),
      ground (arith, contains-append xs (o ∷ ys) x),
      after,
      (ground (arith, contains-append xs (o ∷ ys) x), front),
      back,
    )

-- An element of the list is not one that is missing.
pub apart_of_contains :
    (xs : List ℕ) (x p : ℕ)
    → contains xs x ≡ false
    → contains xs p ≡ true
    → ((x == p) ≡ false) × ((p == x) ≡ false)
apart_of_contains xs x p out inside = elim (Bool-cases (x == p)) [
  | inl same ↦
      let e : x ≡ p = (==_iff x p).0 same in let clash : contains xs p ≡ false = rw e at out in cc
  | inr apart ↦ (apart, ground arith)
]

-- The two halves of a distinct list share nothing.
pub IsDistinct-apart :
    (xs ys : List ℕ) (q : ℕ) → IsDistinct (xs ++ ys) → contains ys q ≡ true → contains xs q ≡ false
IsDistinct-apart [] ys q d i = refl
IsDistinct-apart (x ∷ xs) ys q d i =
    let out : contains ys x ≡ false = ground (arith, contains-append xs ys x, d.0) in
    rw ((apart_of_contains ys x q out i).1) (IsDistinct-apart xs ys q d.1 i)

pub IsDistinct-right : (xs ys : List ℕ) → IsDistinct (xs ++ ys) → IsDistinct ys
IsDistinct-right [] ys d = d
IsDistinct-right (x ∷ xs) ys d = IsDistinct-right xs ys d.1

pub IsDistinct-left : (xs ys : List ℕ) → IsDistinct (xs ++ ys) → IsDistinct xs
IsDistinct-left [] ys d = tt
IsDistinct-left (x ∷ xs) ys d =
    (ground (arith, contains-append xs ys x, d.0), IsDistinct-left xs ys d.1)

-- The back of a distinct list may take an element that is nowhere in it.
pub IsDistinct-insert :
    (o : ℕ) (xs ys zs : List ℕ)
    → contains (xs ++ ys) o ≡ false
    → IsDistinct (xs ++ ys)
    → ((q : ℕ) → contains zs q ≡ contains (o ∷ ys) q)
    → IsDistinct zs
    → IsDistinct (xs ++ zs)
IsDistinct-insert o [] ys zs out d same dz = dz
IsDistinct-insert o (x ∷ xs) ys zs out d same dz = (
  ground (arith, contains-append xs zs x, contains-append xs ys x, same x, out, d.0),
  IsDistinct-insert o xs ys zs (ground (arith, out)) d.1 same dz,
)

pub IsDistinct-apart-left :
    (xs ys : List ℕ) (q : ℕ) → IsDistinct (xs ++ ys) → contains xs q ≡ true → contains ys q ≡ false
IsDistinct-apart-left xs ys q d i = elim (Bool-cases (contains ys q)) [
  | inl inside ↦ let clash = IsDistinct-apart xs ys q d inside in cc
  | inr outside ↦ outside
]
