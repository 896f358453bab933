-- ===== src/Core/Pool/Slots.antt =====
-- Which slots of an `ObjectPool` are free, and what the pool's operations do to them.
use low_latency_project.Prelude.{
  ℕ, zero, suc, ◌+◌, ◌-◌, ◌≤◌, ◌<◌, ◌≡◌, refl, ap, ◌∙◌, Bool, true, false, none, some, List, [],
  ◌∷◌, arith, ◌==◌, length, get_elem?, set, update, drop, contains, IsDistinct, length-set,
  Bool-cases, inl, inr, ◌⊎◌, leb, lt→ltb, leb→le, ==_self,
}
use low_latency_project.Core.Pool.{ObjectPool, slots_from, new_pool, allocate, deallocate, used}

abbrev pub AllBelow : ℕ → List ℕ → Type 0
AllBelow n [] = Unit {0}
AllBelow n (x ∷ xs) = (x < n) × AllBelow n xs

module _ {T : Type 0} where
  abbrev pub free_slots : ObjectPool T → List ℕ
  free_slots p = drop p.free_index p.free_list

  abbrev pub is_free : ObjectPool T → ℕ → Bool
  is_free p s = contains (free_slots p) s

module _ {T : Type 0} (capacity : ℕ) where
  pub record IsValid (p : ObjectPool T) : Type 0 where
    pub sized : length p.free_list ≡ capacity
    pub within : p.free_index ≤ capacity
    pub distinct : IsDistinct (free_slots p)
    pub in_pool : AllBelow capacity (free_slots p)

-- The free part behind a taken slot.
drop-get_elem? : (xs : List ℕ) (i s : ℕ) → get_elem? xs i ≡ some s → drop i xs ≡ s ∷ drop (suc i) xs
drop-get_elem? [] i s h = cc
drop-get_elem? (x ∷ xs) zero s h = cc
drop-get_elem? (x ∷ xs) (suc i) s h = drop-get_elem? xs i s h

get_elem?-some : (xs : List ℕ) (i : ℕ) → i < length xs → (s : ℕ) × (get_elem? xs i ≡ some s)
get_elem?-some [] i h = absurd (omega arith)
get_elem?-some (x ∷ xs) zero h = (x, refl)
get_elem?-some (x ∷ xs) (suc i) h = get_elem?-some xs i (omega arith)

drop-set_above : (xs : List ℕ) (i s : ℕ) → i < length xs → drop i (set xs i s) ≡ s ∷ drop (suc i) xs
drop-set_above [] i s h = absurd (omega arith)
drop-set_above (x ∷ xs) zero s h = refl
drop-set_above (x ∷ xs) (suc i) s h = drop-set_above xs i s (omega arith)

contains-slots_from : (n f s : ℕ) → s < f → contains (slots_from n f) s ≡ false
contains-slots_from zero f s h = refl
contains-slots_from (suc n) f s h = ground (arith, contains-slots_from n (suc f) s)

IsDistinct-slots_from : (n f : ℕ) → IsDistinct (slots_from n f)
IsDistinct-slots_from zero f = tt
IsDistinct-slots_from (suc n) f =
    (contains-slots_from n (suc f) f (omega arith), IsDistinct-slots_from n (suc f))

AllBelow-slots_from : (m n f : ℕ) → f + n ≤ m → AllBelow m (slots_from n f)
AllBelow-slots_from m zero f h = tt
AllBelow-slots_from m (suc n) f h = (omega arith, AllBelow-slots_from m n (suc f) (omega arith))

length-slots_from : (n f : ℕ) → length (slots_from n f) ≡ n
length-slots_from zero f = refl
length-slots_from (suc n) f = ap suc (length-slots_from n (suc f))

module _ {T : Type 0} (capacity : ℕ) where
  -- The constructor leaves a valid pool with every slot free.
  pub new_pool-IsValid : (bytes : ℕ → T) → IsValid capacity (new_pool capacity bytes)
  new_pool-IsValid bytes = record {
    sized = length-slots_from capacity 0;
    within = omega arith;
    distinct = IsDistinct-slots_from capacity 0;
    in_pool = AllBelow-slots_from capacity capacity 0 (omega arith);
  }

  -- What a successful `allocate` does.
  pub record Allocated (v : T) (p : ObjectPool T) (s : ℕ) (q : ObjectPool T) : Type 0 where
    pub was_free : is_free p s ≡ true
    pub now_taken : is_free q s ≡ false
    pub others : (j : ℕ) → (j == s) ≡ false → is_free q j ≡ is_free p j
    pub in_pool : s < capacity
    pub holds : q.storage s ≡ v
    pub frame : (j : ℕ) → (j == s) ≡ false → q.storage j ≡ p.storage j
    pub counted : used q ≡ used p + 1
    pub valid : IsValid capacity q

  module _ (v : T) (p : ObjectPool T) (ok : IsValid capacity p) where
    taken :
        (s : ℕ)
        → get_elem? p.free_list p.free_index ≡ some s
        → used p < capacity
        → (q : ObjectPool T) × (allocate capacity v p ≡ (some s, q)) × Allocated v p s q
    unfolding allocate used
    taken s e h =
        let parts = drop-get_elem? p.free_list p.free_index s e in
        let d : IsDistinct (s ∷ drop (suc p.free_index) p.free_list) = rw parts at ok.distinct in
        let b : AllBelow capacity (s ∷ drop (suc p.free_index) p.free_list) =
          rw parts at ok.in_pool in
        let next : p.free_index + 1 ≡ suc p.free_index = omega arith in
        (
          record p { storage = update p.storage s v; free_index = p.free_index + 1 },
          ground arith,
          record {
            was_free = rw (parts, ==_self s);
            now_taken = rw next d.0;
            others = λ j ne. rw (next, parts, ne);
            in_pool = b.0;
            holds = rw (==_self s);
            frame = λ j ne. rw ne;
            counted = refl;
            valid = record {
              sized = ok.sized;
              within = h';
              distinct = rw next d.1;
              in_pool = rw next b.1;
            };
          },
        )
      where
        h' : p.free_index + 1 ≤ capacity
        h' = omega arith

    -- From a valid pool, `allocate` returns `nullptr` and changes nothing exactly when every slot
    -- is taken; otherwise it takes one free slot inside the pool, constructs the object there, and
    -- leaves every other slot as it was.
    pub allocate_lem :
        ((capacity ≤ used p) × (allocate capacity v p ≡ (none, p)))
        ⊎ ((used p < capacity)
            × ((s : ℕ) × (q : ObjectPool T) × (allocate capacity v p ≡ (some s, q))
                × Allocated v p s q))
    unfolding used allocate
    allocate_lem = elim (Bool-cases (leb capacity p.free_index)) [
      | inl full ↦ inl (leb→le capacity p.free_index full, rw full)
      | inr free ↦
          let h : p.free_index < capacity = ground arith in
          let (s, e) = get_elem?-some p.free_list p.free_index (rw ok.sized h) in
          let (q, r, a) = taken s e h in inr (h, (s, q, r, a))
    ]

module _ {T : Type 0} (capacity : ℕ) where
  -- What `deallocate` does to a taken slot.
  pub record Released (p : ObjectPool T) (s : ℕ) : Type 0 where
    pub now_free : is_free (deallocate (some s) p) s ≡ true
    pub others : (j : ℕ) → (j == s) ≡ false → is_free (deallocate (some s) p) j ≡ is_free p j
    pub frame : (deallocate (some s) p).storage ≡ p.storage
    pub counted : used (deallocate (some s) p) + 1 ≡ used p
    pub valid : IsValid capacity (deallocate (some s) p)

  -- A valid pool that gets back a slot which it had handed out, and that was not returned since, is
  -- valid again, has that slot free and no other slot's status changed.
  pub deallocate_lem :
      (p : ObjectPool T) (s : ℕ)
      → IsValid capacity p
      → 0 < used p
      → s < capacity
      → is_free p s ≡ false
      → Released p s
  unfolding deallocate used
  deallocate_lem p s ok some_used inside taken_before =
      let guard = lt→ltb 0 p.free_index some_used in
      let next : suc (p.free_index - 1) ≡ p.free_index = omega arith in
      let parts : drop (p.free_index - 1) (set p.free_list (p.free_index - 1) s)
          ≡ s ∷ free_slots p =
        drop-set_above p.free_list (p.free_index - 1) s (omega (arith, ok.sized, ok.within))
        ∙ ap (λ n. s ∷ drop n p.free_list) next in
      record {
        now_free = rw (guard, parts, ==_self s);
        others = λ j ne. rw (guard, parts, ne);
        frame = rw guard;
        counted = rw guard (omega arith);
        valid = rw guard (record {
          sized = length-set p.free_list (p.free_index - 1) s ∙ ok.sized;
          within = omega (arith, ok.within);
          distinct = rw parts (taken_before, ok.distinct);
          in_pool = rw parts (inside, ok.in_pool);
        });
      }

set-get_elem? : (xs : List ℕ) (i s : ℕ) → get_elem? xs i ≡ some s → set xs i s ≡ xs
set-get_elem? [] i s h = refl
set-get_elem? (x ∷ xs) zero s h = cc
set-get_elem? (x ∷ xs) (suc i) s h = ap (λ t. x ∷ t) (set-get_elem? xs i s h)

set-missing : (xs : List ℕ) (i s : ℕ) → get_elem? xs i ≡ none → set xs i s ≡ xs
set-missing [] i s h = refl
set-missing (x ∷ xs) zero s h = cc
set-missing (x ∷ xs) (suc i) s h = ap (λ t. x ∷ t) (set-missing xs i s h)

-- Giving a slot back right after it was taken restores the free list and the count.
pub deallocate-allocate :
    {T : Type 0} (capacity : ℕ) (v : T) (p q : ObjectPool T) (s : ℕ)
    → allocate capacity v p ≡ (some s, q)
    → ((deallocate (some s) q).free_list ≡ p.free_list) × (used (deallocate (some s) q) ≡ used p)
unfolding allocate deallocate used
deallocate-allocate capacity v p q s h =
    ground (arith, set-get_elem? p.free_list p.free_index s, set-missing p.free_list p.free_index s)

-- A returned slot keeps its bytes.
pub storage-deallocate :
    {T : Type 0} (s : ℕ) (p : ObjectPool T) → (deallocate (some s) p).storage ≡ p.storage
unfolding deallocate
storage-deallocate s p = ground arith
