-- ===== src/Core/Ring/Queue.antt =====
-- What a ring of a given capacity promises: a first-in first-out queue that refuses when full.
use low_latency_project.Prelude.{
  ℕ, Bool, true, false, Option, none, some, List, [], ◌∷◌, ◌++◌, ltb, if◌then◌else◌, length, ◌≡◌,
  arith,
}

module _ {T : Type 0} where
  unfoldable pub push : ℕ → T → List T → Bool × List T
  push capacity x q = if ltb (length q) capacity then (true, q ++ (x ∷ [])) else (false, q)

  unfoldable pub pop : List T → Option T × List T
  pop [] = (none, [])
  pop (x ∷ q) = (some x, q)

  -- The queue after a push, whether there was room or not.
  pub push_leaves :
      (capacity : ℕ) (x : T) (q : List T)
      → (push capacity x q).1 ≡ (if ltb (length q) capacity then q ++ (x ∷ []) else q)
  unfolding push
  push_leaves capacity x q = ground arith
