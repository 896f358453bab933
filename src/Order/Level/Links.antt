-- ===== src/Order/Level/Links.antt =====
-- List segments through the `prev` and `next` pointers of orders, and how writes change them.
use low_latency_project.Prelude.{
  ℕ, ◌≡◌, refl, ◌∙◌, true, some, List, [], ◌∷◌, ◌++◌, arith, contains, apart_of_contains,
  IsDistinct, ==_self,
}
use low_latency_project.Order.Record.{Pointer, Heap, set_prev, set_next}

-- From `head` the `next` pointers lead through the orders `ps` to `stop`, and their `prev` pointers
-- lead back to `before`; `last` is the last of them, or `before` if there is none.
abbrev pub Seg : Heap → (before : Pointer) → List ℕ → (head last stop : Pointer) → Type 0
Seg h before [] head last stop = (head ≡ stop) × (last ≡ before)
Seg h before (p ∷ ps) head last stop =
    (head ≡ some p) × ((h p).prev ≡ before) × Seg h (some p) ps (h p).next last stop

-- The two heaps have the same links at the orders of `ps`.
abbrev pub SameLinks : List ℕ → Heap → Heap → Type 0
SameLinks ps h g =
    (q : ℕ) → contains ps q ≡ true → ((g q).prev ≡ (h q).prev) × ((g q).next ≡ (h q).next)

pub Seg-frame :
    (h g : Heap) (ps : List ℕ) (before head last stop : Pointer)
    → SameLinks ps h g
    → Seg h before ps head last stop
    → Seg g before ps head last stop
Seg-frame h g [] before head last stop same s = s
Seg-frame h g (p ∷ ps) before head last stop same s =
    let here = same p (rw (==_self p)) in
    (
      s.0,
      here.0 ∙ s.1,
      rw (here.1)
          (Seg-frame h g ps (some p) (h p).next last stop (λ q i. same q (ground (arith, i))) s.2),
    )

-- A segment splits where its list does.
pub Seg-split :
    (h : Heap) (xs ys : List ℕ) (before head last stop : Pointer)
    → Seg h before (xs ++ ys) head last stop
    → (middle joint : Pointer) × Seg h before xs head joint middle × Seg h joint ys middle last stop
Seg-split h [] ys before head last stop s = (head, before, (refl, refl), s)
Seg-split h (x ∷ xs) ys before head last stop s =
    let (m, j, front, back) = Seg-split h xs ys (some x) (h x).next last stop s.2 in
    (m, j, (s.0, s.1, front), back)

pub Seg-join :
    (h : Heap) (xs ys : List ℕ) (before head joint middle last stop : Pointer)
    → Seg h before xs head joint middle
    → Seg h joint ys middle last stop
    → Seg h before (xs ++ ys) head last stop
Seg-join h [] ys before head joint middle last stop s t = rw (s.0, ← s.1) t
Seg-join h (x ∷ xs) ys before head joint middle last stop s t =
    (s.0, s.1, Seg-join h xs ys (some x) (h x).next joint middle last stop s.2 t)

pub Seg-last :
    (h : Heap) (x : ℕ) (xs : List ℕ) (before head last stop : Pointer)
    → Seg h before (x ∷ xs) head last stop
    → (t : ℕ) × (last ≡ some t) × (contains (x ∷ xs) t ≡ true)
Seg-last h x [] before head last stop s = (x, s.2.1, rw (==_self x))
Seg-last h x (y ∷ ys) before head last stop s =
    let (t, e, i) = Seg-last h y ys (some x) (h x).next last stop s.2 in (t, e, ground (arith, i))

-- Writing the `next` pointer of the last order changes where the segment stops.
pub Seg-set_next :
    (h : Heap) (x : ℕ) (xs : List ℕ) (before head stop new : Pointer) (p : ℕ)
    → IsDistinct (x ∷ xs)
    → Seg h before (x ∷ xs) head (some p) stop
    → Seg (set_next h p new) before (x ∷ xs) head (some p) new
Seg-set_next h x [] before head stop new p d s = ground arith
Seg-set_next h x (y ∷ ys) before head stop new p d s =
    let rest = Seg-set_next h y ys (some x) (h x).next stop new p d.1 s.2 in
    let (t, e, i) = Seg-last h y ys (some x) (h x).next (some p) stop s.2 in
    let inside : contains (y ∷ ys) p ≡ true = ground (arith, i) in
    let apart = (apart_of_contains (y ∷ ys) x p d.0 inside).0 in (s.0, rw apart s.1, rw apart rest)

-- Writing the `prev` pointer of the first order changes what stands before the segment.
pub Seg-set_prev :
    (h : Heap) (y : ℕ) (ys : List ℕ) (before head last stop new : Pointer)
    → IsDistinct (y ∷ ys)
    → Seg h before (y ∷ ys) head last stop
    → Seg (set_prev h y new) new (y ∷ ys) head last stop
Seg-set_prev h y ys before head last stop new d s = (
  s.0,
  rw (==_self y),
  rw (==_self y) (
      Seg-frame h (set_prev h y new) ys (some y) (h y).next last stop
        (λ q i. rw (apart_of_contains ys y q d.0 i).1 (refl, refl)) s.2),
)
