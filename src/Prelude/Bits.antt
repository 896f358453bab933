-- ===== src/Prelude/Bits.antt =====
-- `a & (2 ^ k - 1)` as a remainder, for every width `k`.
use Prim.Native.Nat.{
  ℕ, zero, suc, ◌+◌, ◌-◌, ◌*◌, ◌/◌, ◌%◌, ◌^◌, ◌≤◌, ◌<◌, min, bit_and, digits, bit_and-bitwise,
}
use mathlib.Core.Path.{◌≡◌, refl, ap, ◌∙◌}
use native.Mathlib.Nat.{
  pow-suc, one-le-pow, mod-lt, mod-eq_of_lt, div-add-mod, add-mul-mod_self_left,
}
use native.Mathlib.Omega.{arith}

-- The digit recursion that `bit_and` stands for, on fuel.
abbrev and_on_fuel : ℕ → ℕ → ℕ → ℕ
and_on_fuel fuel a b = digits (λ _. zero) min fuel a b

and_on_fuel-eq : (f g a b : ℕ) → a ≤ f → a ≤ g → and_on_fuel f a b ≡ and_on_fuel g a b
and_on_fuel-eq zero zero a b p q = refl
and_on_fuel-eq (suc f) zero zero b p q = refl
and_on_fuel-eq (suc f) zero (suc a) b p q = absurd (omega arith)
and_on_fuel-eq zero (suc g) zero b p q = refl
and_on_fuel-eq zero (suc g) (suc a) b p q = absurd (omega arith)
and_on_fuel-eq (suc f) (suc g) zero b p q = refl
and_on_fuel-eq (suc f) (suc g) (suc a) b p q =
    omega (arith, and_on_fuel-eq f g (suc a / 2) (b / 2) (omega arith) (omega arith))

-- The lowest binary digit, and the rest.
bit_and_digit : (a b : ℕ) → bit_and a b ≡ min (a % 2) (b % 2) + 2 * bit_and (a / 2) (b / 2)
bit_and_digit zero b = omega (arith, bit_and-bitwise 0 b, bit_and-bitwise 0 (b / 2))
bit_and_digit (suc a) b = omega (
  arith,
  bit_and-bitwise (suc a) b,
  bit_and-bitwise (suc a / 2) (b / 2),
  and_on_fuel-eq a (suc a / 2) (suc a / 2) (b / 2) (omega arith) (omega arith),
)

no_bits : (f a : ℕ) → a ≤ f → bit_and a 0 ≡ 0
no_bits f zero h = refl
no_bits zero (suc a) h = absurd (omega arith)
no_bits (suc f) (suc a) h =
    omega (arith, bit_and_digit (suc a) 0, no_bits f (suc a / 2) (omega arith))

double-mod-pow : (k a : ℕ) → a % 2 ^ suc k ≡ a % 2 + 2 * (a / 2 % 2 ^ k)
double-mod-pow k a =
    let q = a / 2 / 2 ^ k in
    let r = a / 2 % 2 ^ k in
    let split : a ≡ a % 2 + 2 * r + 2 ^ suc k * q =
      omega (arith, div-add-mod (a / 2) (2 ^ k), ap (λ (t : ℕ). t * q) (pow-suc 2 k)) in
    let small : a % 2 + 2 * r < 2 ^ suc k =
      omega (arith, mod-lt (a / 2) {m = 2 ^ k} (one-le-pow k 2 (omega arith)), pow-suc 2 k) in
    ap (λ t. t % 2 ^ suc k) split
    ∙ add-mul-mod_self_left (a % 2 + 2 * r) (2 ^ suc k) q
    ∙ mod-eq_of_lt small

pub bit_and_low_mask : (k a : ℕ) → bit_and a (2 ^ k - 1) ≡ a % 2 ^ k
bit_and_low_mask zero a = omega (arith, no_bits a a)
bit_and_low_mask (suc k) a =
    let pos : 1 ≤ 2 ^ k = one-le-pow k 2 (omega arith) in
    let halved : (2 ^ suc k - 1) / 2 ≡ 2 ^ k - 1 = omega (arith, pow-suc 2 k) in
    omega (
      arith,
      bit_and_digit a (2 ^ suc k - 1),
      pow-suc 2 k,
      ap (λ (t : ℕ). bit_and (a / 2) t) halved,
      bit_and_low_mask k (a / 2),
      double-mod-pow k a,
    )
