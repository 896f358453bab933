-- ===== src/Net/Wire.antt =====
-- Little-endian numbers in bytes, as the packed structs of include/net/codec.hpp lay them out.
use Prim.Native.Nat.{◌/◌}
use low_latency_project.Prelude.{ℕ, zero, suc, ◌+◌, ◌*◌, ◌%◌, ◌^◌, ◌≡◌, ◌<◌, List, [], ◌∷◌, arith}

-- A number in `w` bytes.
abbrev pub le_bytes : ℕ → ℕ → List ℕ
le_bytes zero n = []
le_bytes (suc w) n = n % 256 ∷ le_bytes w (n / 256)

abbrev pub read_le : List ℕ → ℕ
read_le [] = 0
read_le (b ∷ bs) = b + 256 * read_le bs

pub read_le-le_bytes : (w n : ℕ) → n < 256 ^ w → read_le (le_bytes w n) ≡ n
read_le-le_bytes zero n h = omega (arith, h)
read_le-le_bytes (suc w) n h =
    let below : n < 256 * 256 ^ w = rw pow_suc at h in
    let rest : read_le (le_bytes w (n / 256)) ≡ n / 256 =
      read_le-le_bytes w (n / 256) (omega (arith, below)) in
    omega (arith, rest)
  where
    pow_suc : 256 ^ suc w ≡ 256 * 256 ^ w
    pow_suc = omega arith
