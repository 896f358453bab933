-- ===== src/Metrics/Http/Json.antt =====
-- A client's reading of the metrics: an object of names and numbers.
use low_latency_project.Prelude.{
  ℕ, ◌+◌, ◌-◌, ◌*◌, ◌≡◌, refl, ap, ◌∙◌, Bool, Option, none, some, List, [], ◌∷◌, ◌++◌, ◌==◌, ltb,
  ◌&&◌, if◌then◌else◌, arith,
}
use low_latency_project.Prelude.Text.{
  codes, to_string, read_number, read_number-to_string, AreDigits, to_string-AreDigits,
}
use low_latency_project.Metrics.Latency.{Doubles, get_p50, get_p99, get_p999}
use low_latency_project.Metrics.Http.{json}

pub record Member : Type 0 where
  pub name : List ℕ
  pub number : ℕ

-- Where the reading stands: in front of a name, in a name, behind it, and in its number.
pub data Place : Type 0 where
  at_name : Place
  in_name : List ℕ → Place
  behind_name : List ℕ → Place
  in_number : List ℕ → ℕ → Place

abbrev is_digit : ℕ → Bool
is_digit b = ltb 47 b && ltb b 58

abbrev with_member : List ℕ → ℕ → Option (List Member) → Option (List Member)
with_member name n none = none
with_member name n (some ms) = some (record { name = name; number = n } ∷ ms)

-- The members of an object from this place on; the text ends with the object.
unfoldable pub read_members : Place → List ℕ → Option (List Member)
read_members place [] = none
read_members at_name (b ∷ bs) =
    let rest = read_members (in_name []) bs in if b == 34 then rest else none
read_members (in_name name) (b ∷ bs) =
    let ended = read_members (behind_name name) bs in
    let more = read_members (in_name (name ++ (b ∷ []))) bs in if b == 34 then ended else more
read_members (behind_name name) (b ∷ bs) =
    let rest = read_members (in_number name 0) bs in if b == 58 then rest else none
read_members (in_number name n) (b ∷ []) = if b == 125 then with_member name n (some []) else none
read_members (in_number name n) (b ∷ (c ∷ bs)) =
    let more = read_members (in_number name (n * 10 + (b - 48))) (c ∷ bs) in
    let next = read_members at_name (c ∷ bs) in
    if b == 44 then with_member name n next else if is_digit b then more else none

unfoldable pub read_object : List ℕ → Option (List Member)
read_object [] = none
read_object (b ∷ bs) = if b == 123 then read_members at_name bs else none

-- The digits of a number are read as it.
read_members-digits :
    (ds : List ℕ) (name : List ℕ) (n c : ℕ) (rest : List ℕ)
    → AreDigits ds
    → read_members (in_number name n) (ds ++ (c ∷ rest))
      ≡ read_members (in_number name (read_number n ds)) (c ∷ rest)
unfolding read_members read_number
read_members-digits [] name n c rest d = refl
read_members-digits (b ∷ []) name n c rest d = ground (arith, d.0)
read_members-digits (b ∷ (b2 ∷ ds)) name n c rest d =
    let later = read_members-digits (b2 ∷ ds) name (n * 10 + (b - 48)) c rest d.1 in
    ground (arith, d.0, later)

read_members-number :
    (name : List ℕ) (n c : ℕ) (rest : List ℕ)
    → read_members (in_number name 0) (to_string n ++ (c ∷ rest))
      ≡ read_members (in_number name n) (c ∷ rest)
read_members-number name n c rest =
    read_members-digits (to_string n) name 0 c rest (to_string-AreDigits n)
    ∙ ap (λ k. read_members (in_number name k) (c ∷ rest)) (read_number-to_string n)

-- A number and the members behind it.
read_members-then :
    (name : List ℕ) (n : ℕ) (rest : List ℕ) (ms : List Member)
    → read_members at_name (34 ∷ rest) ≡ some ms
    → read_members (in_number name 0) (to_string n ++ (44 ∷ (34 ∷ rest)))
      ≡ some (record { name = name; number = n } ∷ ms)
unfolding read_members
read_members-then name n rest ms later =
    read_members-number name n 44 (34 ∷ rest) ∙ ap (with_member name n) later

-- The last number.
read_members-last :
    (name : List ℕ) (n : ℕ)
    → read_members (in_number name 0) (to_string n ++ (125 ∷ []))
      ≡ some (record { name = name; number = n } ∷ [])
unfolding read_members
read_members-last name n = read_members-number name n 125 []

-- What the metrics say.
abbrev pub members : Doubles → List ℕ → ℕ → ℕ → List Member
members d buckets order_count uptime_sec =
    record { name = codes "p50_ns"; number = get_p50 d buckets }
    ∷ record { name = codes "p99_ns"; number = get_p99 d buckets }
    ∷ record { name = codes "p999_ns"; number = get_p999 d buckets }
    ∷ record { name = codes "orders_per_sec"; number = order_count }
    ∷ record { name = codes "uptime_seconds"; number = uptime_sec }
    ∷ []

-- The object of the metrics is read as its members.
pub read_object-json :
    (d : Doubles) (buckets : List ℕ) (order_count uptime_sec : ℕ)
    → read_object (json d buckets order_count uptime_sec)
      ≡ some (members d buckets order_count uptime_sec)
unfolding read_object read_members
read_object-json d buckets order_count uptime_sec =
    read_members-then (codes "p50_ns") (get_p50 d buckets) _ _ (
      read_members-then (codes "p99_ns") (get_p99 d buckets) _ _ (
        read_members-then (codes "p999_ns") (get_p999 d buckets) _ _ (
          read_members-then (codes "orders_per_sec") order_count _ _
            (read_members-last (codes "uptime_seconds") uptime_sec))))
