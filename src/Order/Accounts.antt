-- ===== src/Order/Accounts.antt =====
-- Which slots of the pool are in use, with none leaked.
use low_latency_project.Prelude.{
  ℕ, ◌≡◌, ◌<◌, sym, ◌∙◌, true, false, some, List, ◌∷◌, arith, ◌==◌, length, contains, Bool-cases,
  inl, inr, ==_iff, ==_self, apart_of_contains,
}
use low_latency_project.Core.Pool.{ObjectPool, deallocate, used}
use low_latency_project.Core.Pool.Slots.{IsValid, is_free, Allocated, deallocate_lem}
use low_latency_project.Order.Record.{Order, Heap}

-- The slots of the list are all taken, and there are no other taken ones: their number is that of the
-- slots in use.
pub record Accounts (capacity : ℕ) (pool : ObjectPool Order) (ps : List ℕ) : Type 0 where
  pub valid : IsValid capacity pool
  pub inside : (q : ℕ) → contains ps q ≡ true → q < capacity
  pub taken : (q : ℕ) → contains ps q ≡ true → is_free pool q ≡ false
  pub counted : used pool ≡ length ps

module _ {capacity : ℕ} {pool : ObjectPool Order} where
  -- The orders themselves do not matter.
  pub Accounts-storage :
      {ps : List ℕ} (h : Heap)
      → Accounts capacity pool ps
      → Accounts capacity (record pool { storage = h }) ps
  unfolding used
  Accounts-storage h acc = record {
    valid = record {
      sized = acc.valid.sized;
      within = acc.valid.within;
      distinct = acc.valid.distinct;
      in_pool = acc.valid.in_pool;
    };
    inside = acc.inside;
    taken = acc.taken;
    counted = acc.counted;
  }

  pub Accounts-reorder :
      (ps qs : List ℕ)
      → ((q : ℕ) → contains qs q ≡ contains ps q)
      → length qs ≡ length ps
      → Accounts capacity pool ps
      → Accounts capacity pool qs
  Accounts-reorder ps qs same sized acc = record {
    valid = acc.valid;
    inside = λ q i. acc.inside q (sym (same q) ∙ i);
    taken = λ q i. acc.taken q (sym (same q) ∙ i);
    counted = acc.counted ∙ sym sized;
  }

  -- Giving back the first slot leaves the others in use.
  pub Accounts-release :
      (p : ℕ) (ps : List ℕ)
      → contains ps p ≡ false
      → Accounts capacity pool (p ∷ ps)
      → Accounts capacity (deallocate (some p) pool) ps
  Accounts-release p ps out acc =
      let here : contains (p ∷ ps) p ≡ true = rw (==_self p) in
      let r =
        deallocate_lem capacity pool p acc.valid (omega (arith, acc.counted)) (acc.inside p here)
          (acc.taken p here) in
      record {
        valid = r.valid;
        inside = λ q i. acc.inside q (ground (arith, i));
        taken =
            λ q i. r.others q (apart_of_contains ps p q out i).1 ∙ acc.taken q (ground (arith, i));
        counted = omega (arith, r.counted, acc.counted);
      }

  -- A slot from the pool is none of those in use, and joins them.
  pub Accounts-take :
      {v : Order} {q : ObjectPool Order} (p : ℕ) (ps : List ℕ)
      → Accounts capacity pool ps
      → Allocated capacity v pool p q
      → (contains ps p ≡ false) × Accounts capacity q (p ∷ ps)
  Accounts-take p ps acc a =
      let out : contains ps p ≡ false = elim (Bool-cases (contains ps p)) [
        | inl i ↦ let clash = acc.taken p i in let free = a.was_free in cc
        | inr o ↦ o
      ] in
      (
        out,
        record {
          valid = a.valid;
          inside = λ q i. elim (Bool-cases (q == p)) [
            | inl here ↦ let e : q ≡ p = (==_iff q p).0 here in rw e a.in_pool
            | inr there ↦ acc.inside q (ground (arith, i, there))
          ];
          taken = λ q i. elim (Bool-cases (q == p)) [
            | inl here ↦ let e : q ≡ p = (==_iff q p).0 here in rw e a.now_taken
            | inr there ↦ a.others q there ∙ acc.taken q (ground (arith, i, there))
          ];
          counted = omega (arith, a.counted, acc.counted);
        },
      )
