-- ===== src/Prelude/Text.antt =====
-- Text as the list of its bytes.
use Prim.Native.Nat.{ℕ, zero, suc, ◌+◌, ◌-◌, ◌*◌, ◌/◌, ◌%◌, ◌<◌}
use Prim.Native.Char.{code}
use Prim.Native.String.{String}
use mathlib.Core.Bool.{Bool, true, false, ◌&&◌}
use mathlib.Core.Option.{Option, none, some}
use mathlib.Core.Path.{◌≡◌, refl, ◌∙◌}
use mathlib.Core.Logic.{inl, inr}
use mathlib.Core.List.{List, [], ◌∷◌, ◌++◌}
use native.Mathlib.Omega.{arith}
use low_latency_project.Prelude.Tests.{◌==◌, ltb, if◌then◌else◌, Bool-cases}
use low_latency_project.Prelude.Lists.{length, drop}

-- The code points of an ASCII text. `String` has its own `[]` and `∷`.
abbrev pub codes : String → List ℕ
codes String.[] = []
codes (String.◌∷◌ c s) = code c ∷ codes s

abbrev pub starts_with : List ℕ → List ℕ → Bool
starts_with [] bs = true
starts_with (c ∷ cs) [] = false
starts_with (c ∷ cs) (b ∷ bs) = (b == c) && starts_with cs bs

-- `find`: what stands behind the first occurrence of a text.
unfoldable pub after_text : List ℕ → List ℕ → Option (List ℕ)
after_text needle [] = if starts_with needle [] then some [] else none
after_text needle (b ∷ bs) =
    if starts_with needle (b ∷ bs)
    then some (drop (length needle) (b ∷ bs))
    else after_text needle bs

-- The decimal digits, on more fuel than the number.
pub to_digits : ℕ → ℕ → List ℕ
to_digits zero n = []
to_digits (suc fuel) n =
    let front = to_digits fuel (n / 10) in
    if ltb n 10 then (48 + n) ∷ [] else front ++ ((48 + n % 10) ∷ [])

-- `std::to_string` of an unsigned number.
unfoldable pub to_string : ℕ → List ℕ
unfolding to_digits
to_string n = to_digits (suc n) n

unfoldable pub read_number : ℕ → List ℕ → ℕ
read_number n [] = n
read_number n (b ∷ bs) = read_number (n * 10 + (b - 48)) bs

read_number-append :
    (n : ℕ) (xs ys : List ℕ) → read_number n (xs ++ ys) ≡ read_number (read_number n xs) ys
unfolding read_number
read_number-append n [] ys = refl
read_number-append n (x ∷ xs) ys = read_number-append (n * 10 + (x - 48)) xs ys

read_number-to_digits : (fuel n : ℕ) → n < fuel → read_number 0 (to_digits fuel n) ≡ n
unfolding to_digits read_number
read_number-to_digits zero n h = absurd (omega arith)
read_number-to_digits (suc fuel) n h = elim (Bool-cases (ltb n 10)) [
  | inl small ↦ rw small (omega arith)
  | inr large ↦
      let front : read_number 0 (to_digits fuel (n / 10)) ≡ n / 10 =
        read_number-to_digits fuel (n / 10) (ground (arith, large)) in
      rw large
        (read_number-append 0 (to_digits fuel (n / 10)) ((48 + n % 10) ∷ []) ∙ omega (arith, front))
]

pub read_number-to_string : (n : ℕ) → read_number 0 (to_string n) ≡ n
unfolding to_string
read_number-to_string n = read_number-to_digits (suc n) n (omega arith)

-- Bytes that are digits.
abbrev pub AreDigits : List ℕ → Type 0
AreDigits [] = Unit {0}
AreDigits (b ∷ bs) = ((47 < b) × (b < 58)) × AreDigits bs

AreDigits-snoc : (xs : List ℕ) (b : ℕ) → AreDigits xs → 47 < b → b < 58 → AreDigits (xs ++ (b ∷ []))
AreDigits-snoc [] b d p q = ((p, q), tt)
AreDigits-snoc (x ∷ xs) b d p q = (d.0, AreDigits-snoc xs b d.1 p q)

to_digits-AreDigits : (fuel n : ℕ) → AreDigits (to_digits fuel n)
unfolding to_digits
to_digits-AreDigits zero n = tt
to_digits-AreDigits (suc fuel) n = elim (Bool-cases (ltb n 10)) [
  | inl small ↦ rw small ((omega arith, ground (arith, small)), tt)
  | inr large ↦ rw large (
      AreDigits-snoc (to_digits fuel (n / 10)) (48 + n % 10) (to_digits-AreDigits fuel (n / 10))
        (omega arith) (omega arith))
]

pub to_string-AreDigits : (n : ℕ) → AreDigits (to_string n)
unfolding to_string
to_string-AreDigits n = to_digits-AreDigits (suc n) n
