-- ===== src/Order/Listed.antt =====
-- The map from order ids to slots (`order_map_`) lists exactly the resting orders.
use low_latency_project.Prelude.{
  ℕ, suc, ◌≡◌, refl, sym, ◌∙◌, true, false, none, some, List, [], ◌∷◌, arith, ◌==◌, if◌then◌else◌,
  length, contains, IsDistinct, Bool-cases, inl, inr, ==_iff, ==_self, apart_of_contains,
}
use low_latency_project.Prelude.Map.{Entries, lookup, assign, remove_key}
use low_latency_project.Core.Types.{OrderId}
use low_latency_project.Order.Record.{Heap}

-- A key stands once in the map.
abbrev pub UniqueKeys : Entries ℕ ℕ → Type 0
UniqueKeys [] = Unit {0}
UniqueKeys ((k, v) ∷ m) = (lookup k m ≡ none) × UniqueKeys m

pub record Listed (m : Entries OrderId ℕ) (h : Heap) (ps : List ℕ) : Type 0 where
  pub keys : UniqueKeys m
  pub finds : (p : ℕ) → contains ps p ≡ true → lookup (h p).id m ≡ some p
  pub sound : (id p : ℕ) → lookup id m ≡ some p → (contains ps p ≡ true) × ((h p).id ≡ id)
  pub sized : length m ≡ length ps

lookup-remove_key :
    (m : Entries OrderId ℕ) (k j : OrderId)
    → UniqueKeys m
    → lookup j (remove_key k m) ≡ (if j == k then none else lookup j m)
unfolding lookup remove_key
lookup-remove_key [] k j u = ground arith
lookup-remove_key ((i, v) ∷ m) k j u = ground (arith, u.0, lookup-remove_key m k j u.1)

-- A key that is missing is still missing when another is removed.
pub lookup-removed :
    (m : Entries OrderId ℕ) (j k : OrderId)
    → UniqueKeys m
    → lookup j m ≡ none
    → lookup j (remove_key k m) ≡ none
lookup-removed m j k u missing = ground (arith, lookup-remove_key m k j u)

-- The removed key is missing.
pub lookup-gone :
    (m : Entries OrderId ℕ) (k : OrderId) → UniqueKeys m → lookup k (remove_key k m) ≡ none
lookup-gone m k u = lookup-remove_key m k k u ∙ rw (==_self k) refl

lookup-assign :
    (m : Entries OrderId ℕ) (k p j : ℕ)
    → lookup j (assign k p m) ≡ (if j == k then some p else lookup j m)
unfolding lookup assign
lookup-assign [] k p j = ground arith
lookup-assign ((i, v) ∷ m) k p j = ground (arith, lookup-assign m k p j)

UniqueKeys-remove_key :
    (m : Entries OrderId ℕ) (k : OrderId) → UniqueKeys m → UniqueKeys (remove_key k m)
unfolding remove_key
UniqueKeys-remove_key [] k u = tt
UniqueKeys-remove_key ((i, v) ∷ m) k u = elim (Bool-cases (k == i)) [
  | inl here ↦ rw here u.1
  | inr there ↦
      rw there (ground (arith, lookup-remove_key m k i u.1, u.0), UniqueKeys-remove_key m k u.1)
]

UniqueKeys-assign : (m : Entries OrderId ℕ) (k p : ℕ) → UniqueKeys m → UniqueKeys (assign k p m)
unfolding assign lookup
UniqueKeys-assign [] k p u = (refl, tt)
UniqueKeys-assign ((i, v) ∷ m) k p u = elim (Bool-cases (k == i)) [
  | inl here ↦ rw here u
  | inr there ↦ rw there (ground (arith, lookup-assign m k p i, u.0), UniqueKeys-assign m k p u.1)
]

length-remove_key :
    (m : Entries OrderId ℕ) (k p : ℕ)
    → lookup k m ≡ some p
    → suc (length (remove_key k m)) ≡ length m
unfolding lookup remove_key
length-remove_key [] k p h = cc
length-remove_key ((i, v) ∷ m) k p h = ground (arith, length-remove_key m k p)

length-assign :
    (m : Entries OrderId ℕ) (k p : ℕ) → lookup k m ≡ none → length (assign k p m) ≡ suc (length m)
unfolding lookup assign
length-assign [] k p h = refl
length-assign ((i, v) ∷ m) k p h = ground (arith, length-assign m k p)

-- Erasing the id of the first order leaves the map of the others.
pub Listed-remove :
    (m : Entries OrderId ℕ) (h g : Heap) (p : ℕ) (ps : List ℕ)
    → IsDistinct (p ∷ ps)
    → ((q : ℕ) → contains ps q ≡ true → (g q).id ≡ (h q).id)
    → Listed m h (p ∷ ps)
    → Listed (remove_key (h p).id m) g ps
Listed-remove m h g p ps d same l = record {
  keys = UniqueKeys-remove_key m (h p).id l.keys;
  finds = λ q i.
      let at_q : lookup (h q).id m ≡ some q = l.finds q (ground (arith, i)) in
      let at_p : lookup (h p).id m ≡ some p = l.finds p (rw (==_self p)) in
      let apart = (apart_of_contains ps p q d.0 i).1 in
      rw (same q i)
        (ground (arith, at_q, at_p, apart, lookup-remove_key m (h p).id (h q).id l.keys));
  sound = λ id q e.
      let by_key = lookup-remove_key m (h p).id id l.keys in
      let kept : lookup id m ≡ some q = ground (arith, by_key, e) in
      let (inside, named) = l.sound id q kept in
      let other : (id == (h p).id) ≡ false = ground (arith, by_key, e) in
      let stays : contains ps q ≡ true = ground (arith, inside, named, other) in
      (stays, same q stays ∙ named);
  sized = omega (arith, length-remove_key m (h p).id p (l.finds p (rw (==_self p))), l.sized);
}

-- A new id is listed with its order.
pub Listed-assign :
    (m : Entries OrderId ℕ) (h g : Heap) (p : ℕ) (ps : List ℕ)
    → contains ps p ≡ false
    → ((q : ℕ) → contains ps q ≡ true → (g q).id ≡ (h q).id)
    → lookup (g p).id m ≡ none
    → Listed m h ps
    → Listed (assign (g p).id p m) g (p ∷ ps)
Listed-assign m h g p ps out same fresh l = record {
  keys = UniqueKeys-assign m (g p).id p l.keys;
  finds = λ q i. elim (Bool-cases (q == p)) [
    | inl here ↦
        let e : q ≡ p = (==_iff q p).0 here in
        rw (e, lookup-assign m (g p).id p (g p).id, ==_self (g p).id)
    | inr there ↦
        let inside : contains ps q ≡ true = ground (arith, i, there) in
        let at_q = l.finds q inside in
        rw (same q inside) (ground (arith, at_q, fresh, lookup-assign m (g p).id p (h q).id))
  ];
  sound = λ id q e. elim (Bool-cases (id == (g p).id)) [
    | inl here ↦
        let now : p ≡ q = ground (arith, e, here, lookup-assign m (g p).id p id) in
        (ground (arith, now), ground (arith, now, here))
    | inr there ↦
        let kept : lookup id m ≡ some q = ground (arith, e, there, lookup-assign m (g p).id p id) in
        let (inside, named) = l.sound id q kept in (ground (arith, inside), same q inside ∙ named)
  ];
  sized = omega (arith, length-assign m (g p).id p fresh, l.sized);
}

-- The list of slots counts only by what it contains and how long it is.
pub Listed-reorder :
    (m : Entries OrderId ℕ) (h : Heap) (ps qs : List ℕ)
    → ((q : ℕ) → contains qs q ≡ contains ps q)
    → length qs ≡ length ps
    → Listed m h ps
    → Listed m h qs
Listed-reorder m h ps qs same sized l = record {
  keys = l.keys;
  finds = λ q i. l.finds q (sym (same q) ∙ i);
  sound = λ id q e. let (inside, named) = l.sound id q e in (same q ∙ inside, named);
  sized = l.sized ∙ sym sized;
}

-- The ids of the listed orders are all it reads.
pub Listed-frame :
    (m : Entries OrderId ℕ) (h g : Heap) (ps : List ℕ)
    → ((q : ℕ) → contains ps q ≡ true → (g q).id ≡ (h q).id)
    → Listed m h ps
    → Listed m g ps
Listed-frame m h g ps same l = record {
  keys = l.keys;
  finds = λ q i. rw (same q i) (l.finds q i);
  sound = λ id q e. let (inside, named) = l.sound id q e in (inside, same q inside ∙ named);
  sized = l.sized;
}
