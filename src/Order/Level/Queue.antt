-- ===== src/Order/Level/Queue.antt =====
-- A price level as the queue of its orders, oldest first.
use low_latency_project.Prelude.{
  ℕ, ◌+◌, ◌%◌, ◌^◌, ◌≡◌, refl, ap, ◌∙◌, true, false, none, some, List, [], ◌∷◌, ◌++◌, arith, ◌==◌,
  length, length-append, contains, IsDistinct, IsDistinct-snoc, apart_of_contains, ==_self,
  contains-append,
}
use low_latency_project.Order.Record.{Order, Pointer, Heap, set_prev, set_next}
use low_latency_project.Order.Level.{PriceLevel, link_behind, push_back}
use low_latency_project.Order.Level.Links.{
  Seg, SameLinks, Seg-frame, Seg-join, Seg-last, Seg-set_next,
}

abbrev pub sum_remaining : Heap → List ℕ → ℕ
sum_remaining h [] = 0
sum_remaining h (p ∷ ps) = (h p).remaining_qty + sum_remaining h ps

-- The level is the queue of the orders `ps`, and its totals are theirs, in their machine widths.
pub record IsQueue (h : Heap) (l : PriceLevel) (ps : List ℕ) : Type 0 where
  pub distinct : IsDistinct ps
  pub links : Seg h none ps l.head l.tail none
  pub total : l.total_qty ≡ sum_remaining h ps % 2 ^ 64
  pub count : l.order_count ≡ length ps % 2 ^ 32

-- An order without its links.
abbrev pub payload : Order → Order
payload o = record o { prev = none; next = none }

-- Only links differ between the two heaps, and only at the orders of `ps`.
pub record OnlyLinks (ps : List ℕ) (h g : Heap) : Type 0 where
  pub payloads : (q : ℕ) → payload (g q) ≡ payload (h q)
  pub outside : (q : ℕ) → contains ps q ≡ false → g q ≡ h q

pub sum_remaining-payload :
    (h g : Heap) (ps : List ℕ)
    → ((q : ℕ) → payload (g q) ≡ payload (h q))
    → sum_remaining g ps ≡ sum_remaining h ps
sum_remaining-payload h g [] same = refl
sum_remaining-payload h g (p ∷ ps) same =
    omega (arith, ap (λ (o : Order). o.remaining_qty) (same p), sum_remaining-payload h g ps same)

pub sum_remaining-append :
    (h : Heap) (xs ys : List ℕ)
    → sum_remaining h (xs ++ ys) ≡ sum_remaining h xs + sum_remaining h ys
sum_remaining-append h [] ys = omega arith
sum_remaining-append h (x ∷ xs) ys = omega (arith, sum_remaining-append h xs ys)

pub payload-set_prev :
    (h : Heap) (o : ℕ) (p : Pointer) (q : ℕ) → payload (set_prev h o p q) ≡ payload (h q)
payload-set_prev h o p q = ground arith

pub payload-set_next :
    (h : Heap) (o : ℕ) (p : Pointer) (q : ℕ) → payload (set_next h o p q) ≡ payload (h q)
payload-set_next h o p q = ground arith

-- The heap of `push_back` before it looks at the old tail.
abbrev cleared : Heap → ℕ → Pointer → Heap
cleared h o tail = set_next (set_prev h o tail) o none

SameLinks-cleared :
    (h : Heap) (o : ℕ) (tail : Pointer) (ps : List ℕ)
    → contains ps o ≡ false
    → SameLinks ps h (cleared h o tail)
SameLinks-cleared h o tail ps out q i = rw (apart_of_contains ps o q out i).1 (refl, refl)

-- `push_back` links the order behind the old tail.
push_back-links :
    (h : Heap) (o : ℕ) (ps : List ℕ) (tail : Pointer) (l : PriceLevel)
    → IsDistinct ps
    → contains ps o ≡ false
    → Seg h none ps l.head tail none
    → let (g, l') = link_behind tail o (cleared h o tail) l in
      Seg g none (ps ++ (o ∷ [])) l'.head (some o) none
push_back-links h o [] none l d out s = ground arith
push_back-links h o [] (some t) l d out s = cc
push_back-links h o (x ∷ xs) none l d out s =
    let (t, e, i) = Seg-last h x xs none l.head none none s in cc
push_back-links h o (x ∷ xs) (some t) l d out s =
    let c = cleared h o (some t) in
    let (u, e, i) = Seg-last h x xs none l.head (some t) none s in
    let inside : contains (x ∷ xs) t ≡ true = ground (arith, i) in
    let apart = (apart_of_contains (x ∷ xs) o t out inside).0 in
    let front = Seg-set_next c x xs none l.head none (some o) t d (
      Seg-frame h c (x ∷ xs) none l.head (some t) none (SameLinks-cleared h o (some t) (x ∷ xs) out)
        s) in
    Seg-join (set_next c t (some o)) (x ∷ xs) (o ∷ []) none l.head (some t) (some o) (some o) none
      front (refl, rw (apart, ==_self o), (rw (apart, ==_self o), refl))

pub tail_inside :
    (h : Heap) (ps : List ℕ) (head : Pointer) (t : ℕ) (stop : Pointer)
    → Seg h none ps head (some t) stop
    → contains ps t ≡ true
tail_inside h [] head t stop s = cc
tail_inside h (x ∷ xs) head t stop s =
    let (u, e, i) = Seg-last h x xs none head (some t) stop s in ground (arith, i)

link_behind-keeps :
    (tail : Pointer) (o : ℕ) (h : Heap) (l : PriceLevel)
    → let l' = (link_behind tail o h l).1 in
      (l'.total_qty ≡ l.total_qty) × (l'.order_count ≡ l.order_count) × (l'.price ≡ l.price)
link_behind-keeps none o h l = (refl, refl, refl)
link_behind-keeps (some t) o h l = (refl, refl, refl)

-- The writes of `push_back` are writes of links, at the new order and the old tail.
push_back-OnlyLinks :
    (h : Heap) (o : ℕ) (ps : List ℕ) (tail : Pointer) (l : PriceLevel)
    → Seg h none ps l.head tail none
    → OnlyLinks (ps ++ (o ∷ [])) h (link_behind tail o (cleared h o tail) l).0
push_back-OnlyLinks h o ps none l s = record {
  payloads = λ q. payload-set_next (set_prev h o none) o none q ∙ payload-set_prev h o none q;
  outside = λ q out. ground (arith, contains-append ps (o ∷ []) q);
}
push_back-OnlyLinks h o ps (some t) l s = record {
  payloads = λ q.
      payload-set_next (cleared h o (some t)) t (some o) q
      ∙ payload-set_next (set_prev h o (some t)) o none q
      ∙ payload-set_prev h o (some t) q;
  outside = λ q out.
      let both : (contains ps q ≡ false) × ((q == o) ≡ false) =
        ground (arith, contains-append ps (o ∷ []) q) in
      let apart = (apart_of_contains ps q t both.0 (tail_inside h ps l.head t none s)).0 in
      rw (apart, both.1);
}

-- `push_back` of an order that is not in the level puts it at the back of the queue, keeps the
-- totals, and writes nothing but links of the level's orders and the new one.
pub push_back_lem :
    (h : Heap) (o : ℕ) (ps : List ℕ) (l : PriceLevel)
    → IsQueue h l ps
    → contains ps o ≡ false
    → let (g, l') = push_back o h l in
      IsQueue g l' (ps ++ (o ∷ [])) × OnlyLinks (ps ++ (o ∷ [])) h g × (l'.price ≡ l.price)
unfolding push_back
push_back_lem h o ps l queue out =
    let writes = push_back-OnlyLinks h o ps l.tail l queue.links in
    let keeps = link_behind-keeps l.tail o (cleared h o l.tail) l in
    let g = (link_behind l.tail o (cleared h o l.tail) l).0 in
    (
      record {
        distinct = IsDistinct-snoc ps o queue.distinct out;
        links = push_back-links h o ps l.tail l queue.distinct out queue.links;
        total = omega (
          arith,
          keeps.0,
          queue.total,
          sum_remaining-payload h g (ps ++ (o ∷ [])) writes.payloads,
          sum_remaining-append h ps (o ∷ []),
          ap (λ (r : Order). r.remaining_qty) (writes.payloads o),
        );
        count = omega (arith, keeps.1, queue.count, length-append ps (o ∷ []));
      },
      writes,
      keeps.2,
    )
