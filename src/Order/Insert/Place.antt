-- ===== src/Order/Insert/Place.antt =====
-- `bids_[price].push_back(o)`: the new order takes its place, by price and then by time.
use low_latency_project.Prelude.{
  ℕ, ◌≡◌, refl, sym, ap, ◌∙◌, Bool, false, List, [], ◌∷◌, ◌++◌, contains, IsDistinct, arith,
  contains-append, if◌then◌else◌, Bool-cases, inl, inr, IsDistinct-right, IsDistinct-insert,
}
use mathlib.Core.Path.{ap₂}
use mathlib.Core.List.{append_assoc}
use low_latency_project.Prelude.Map.{find}
use low_latency_project.Core.Types.{Price}
use low_latency_project.Order.Record.{Heap}
use low_latency_project.Order.Level.{PriceLevel, push_back}
use low_latency_project.Order.Level.Queue.{OnlyLinks, payload, push_back_lem}
use low_latency_project.Order.Book.{Levels, level_or_empty, insert_order}
use low_latency_project.Order.Shape.{
  Shape, slots, Rests, AllRest, Represents, AllBehind, IsSorted, order_of, Entry, entries,
  entries_at,
}
use low_latency_project.Order.Shape.Frame.{AllRest-payload, entries_at-payload}
use low_latency_project.Order.Insert.{
  AllBehind-trans, order_eq, queue_at, insert_at, level_at, queue_at-inside, insert_at-contains,
  IsSorted-insert, put-Represents,
}

-- Behind the entries of a better or the same price, in front of those of a worse one.
unfoldable pub insert_entry : Bool → Entry → List Entry → List Entry
insert_entry bid e [] = e ∷ []
insert_entry bid e (x ∷ xs) =
    if order_of bid e.price x.price then e ∷ x ∷ xs else x ∷ insert_entry bid e xs

abbrev pub entry_of : Heap → Price → ℕ → Entry
entry_of h k p = record { id = (h p).id; price = k; remaining = (h p).remaining_qty }

-- Links do not show.
pub entries-payload :
    (h g : Heap) (s : Shape) → ((q : ℕ) → payload (g q) ≡ payload (h q)) → entries g s ≡ entries h s
entries-payload h g [] same = refl
entries-payload h g ((k, ps) ∷ s) same =
    ap₂ ◌++◌ (entries_at-payload h g k ps same) (entries-payload h g s same)

module _ (bid : Bool) (k : Price) where
  AllRest-append :
      (h : Heap) (ps : List ℕ) (o : ℕ)
      → AllRest h bid k ps
      → Rests h bid k o
      → AllRest h bid k (ps ++ (o ∷ []))
  AllRest-append h [] o r new = (new, tt)
  AllRest-append h (p ∷ ps) o r new = (r.0, AllRest-append h ps o r.1 new)

  AllRest-queue_at :
      (h : Heap) (m : Levels) (s : Shape)
      → Represents h bid m s
      → AllRest h bid k (queue_at bid k s)
  AllRest-queue_at h [] [] r = tt
  AllRest-queue_at h [] (e ∷ s) r = absurd r
  AllRest-queue_at h (e ∷ m) [] r = absurd r
  AllRest-queue_at h ((key, l) ∷ m) ((j, ps) ∷ s) r = elim (Bool-cases (order_of bid k j)) [
    | inl first ↦ rw first tt
    | inr not_first ↦ elim (Bool-cases (order_of bid j k)) [
      | inl later ↦ rw (not_first, later) (AllRest-queue_at h m s r.1)
      | inr here ↦ rw (not_first, here) (rw (sym (order_eq bid k j not_first here)) at r.0.resting)
    ]
  ]

  pub IsDistinct-insert_at :
      (o : ℕ) (s : Shape)
      → contains (slots s) o ≡ false
      → IsDistinct (slots s)
      → IsDistinct (slots (insert_at bid k o s))
  IsDistinct-insert_at o [] out d = (refl, tt)
  IsDistinct-insert_at o ((j, ps) ∷ s) out d = elim (Bool-cases (order_of bid k j)) [
    | inl first ↦ rw first (out, d)
    | inr not_first ↦ elim (Bool-cases (order_of bid j k)) [
      | inl later ↦
          rw (not_first, later)
            (IsDistinct-insert o ps (slots s) (slots (insert_at bid k o s)) out d
              (insert_at-contains bid k o s)
              (IsDistinct-insert_at o s (ground (arith, contains-append ps (slots s) o, out))
                (IsDistinct-right ps (slots s) d)))
      | inr here ↦
          rw (not_first, here, append_assoc)
            (IsDistinct-insert o ps (slots s) (o ∷ slots s) out d (λ q. refl)
              (
                ground (arith, contains-append ps (slots s) o, out),
                IsDistinct-right ps (slots s) d,
              ))
    ]
  ]

  pub insert_order_lem :
      (h : Heap) (o : ℕ) (m : Levels) (s : Shape)
      → Represents h bid m s
      → IsSorted (order_of bid) s
      → IsDistinct (slots s)
      → Rests h bid k o
      → contains (slots s) o ≡ false
      → let (g, m') = insert_order (order_of bid) k o h m in
        Represents g bid m' (insert_at bid k o s) × OnlyLinks (o ∷ slots s) h g
  unfolding insert_order
  insert_order_lem h o m s r sorted d new out =
      let level : PriceLevel = record (level_or_empty (find (order_of bid) k m)) { price = k } in
      let g = (push_back o h level).0 in
      let no_o : contains (queue_at bid k s) o ≡ false =
        ground (arith, queue_at-inside bid k s o, out) in
      let pushed =
        push_back_lem h o (queue_at bid k s) level (level_at bid k h m s r sorted) no_o in
      (
        put-Represents bid k h g o (push_back o h level).1 m s r d
            (record {
              queue = pushed.0;
              priced = pushed.2;
              rest =
                  AllRest-payload h g bid k (queue_at bid k s ++ (o ∷ [])) pushed.1.payloads
                    (AllRest-append h (queue_at bid k s) o (AllRest-queue_at h m s r) new);
              outside = pushed.1.outside;
            })
            out,
        record {
          payloads = pushed.1.payloads;
          outside = λ q i. pushed.1.outside q (
              ground (
                arith,
                contains-append (queue_at bid k s) (o ∷ []) q,
                queue_at-inside bid k s q,
                i,
              ));
        },
      )

  entries_at-append :
      (h : Heap) (ps : List ℕ) (o : ℕ)
      → entries_at h k (ps ++ (o ∷ [])) ≡ entries_at h k ps ++ (entry_of h k o ∷ [])
  entries_at-append h [] o = refl
  entries_at-append h (p ∷ ps) o = ap (◌∷◌ (entry_of h k p)) (entries_at-append h ps o)

  -- An entry goes past the entries of a level that is not worse.
  insert_entry-past :
      (h : Heap) (j : Price) (ps : List ℕ) (e : Entry) (es : List Entry)
      → order_of bid e.price j ≡ false
      → insert_entry bid e (entries_at h j ps ++ es) ≡ entries_at h j ps ++ insert_entry bid e es
  unfolding insert_entry
  insert_entry-past h j [] e es not_first = refl
  insert_entry-past h j (p ∷ ps) e es not_first =
      rw not_first (ap (◌∷◌ (entry_of h j p)) (insert_entry-past h j ps e es not_first))

  insert_entry-first :
      (h : Heap) (m : Levels) (s : Shape) (e : Entry)
      → Represents h bid m s
      → AllBehind (order_of bid) e.price s
      → insert_entry bid e (entries h s) ≡ e ∷ entries h s
  unfolding insert_entry
  insert_entry-first h m [] e r behind = refl
  insert_entry-first h [] ((j, ps) ∷ s) e r behind = absurd r
  insert_entry-first h ((key, l) ∷ m) ((j, []) ∷ s) e r behind =
      absurd (omega (arith, r.0.filled_in))
  insert_entry-first h ((key, l) ∷ m) ((j, p ∷ ps) ∷ s) e r behind = rw (behind.0)

  -- What the outside sees of the side is the entry in its place.
  pub entries-insert_at :
      (h : Heap) (m : Levels) (o : ℕ) (s : Shape)
      → Represents h bid m s
      → IsSorted (order_of bid) s
      → entries h (insert_at bid k o s) ≡ insert_entry bid (entry_of h k o) (entries h s)
  unfolding insert_entry
  entries-insert_at h m o [] r sorted = refl
  entries-insert_at h [] o ((j, ps) ∷ s) r sorted = absurd r
  entries-insert_at h ((key, l) ∷ m) o ((j, ps) ∷ s) r sorted =
      elim (Bool-cases (order_of bid k j)) [
        | inl first ↦ rw first (
            sym (
              insert_entry-first h ((key, l) ∷ m) ((j, ps) ∷ s) (entry_of h k o) r
                (first, AllBehind-trans bid k j s first sorted.0)))
        | inr not_first ↦ elim (Bool-cases (order_of bid j k)) [
          | inl later ↦
              rw (not_first, later)
                (ap (◌++◌ (entries_at h j ps)) (entries-insert_at h m o s r.1 sorted.1)
                  ∙ sym (insert_entry-past h j ps (entry_of h k o) (entries h s) not_first))
          | inr here ↦
              let same : j ≡ k = sym (order_eq bid k j not_first here) in
              let behind : AllBehind (order_of bid) k s = rw same at sorted.0 in
              rw (not_first, here)
                (ap (λ es. es ++ entries h s) (rw same (entries_at-append h ps o))
                  ∙ append_assoc (entries_at h k ps) (entry_of h k o ∷ []) (entries h s)
                  ∙ ap₂ (λ x es. entries_at h x ps ++ es) (sym same)
                      (sym (insert_entry-first h m s (entry_of h k o) r.1 behind))
                  ∙ sym (insert_entry-past h j ps (entry_of h k o) (entries h s) not_first))
        ]
      ]

  -- `levels[price].push_back(o)` on a sorted side, for an order of that price which is not in it:
  -- the map represents the side with the order, which is still sorted and holds each order once, and
  -- its entries are the old ones with the new one behind all of a better or the same price.
  pub insert_order-priority :
      (h : Heap) (o : ℕ) (m : Levels) (s : Shape)
      → Represents h bid m s
      → IsSorted (order_of bid) s
      → IsDistinct (slots s)
      → Rests h bid k o
      → contains (slots s) o ≡ false
      → let (g, m') = insert_order (order_of bid) k o h m in
        Represents g bid m' (insert_at bid k o s)
        × IsSorted (order_of bid) (insert_at bid k o s)
        × IsDistinct (slots (insert_at bid k o s))
        × (entries g (insert_at bid k o s) ≡ insert_entry bid (entry_of h k o) (entries h s))
  insert_order-priority h o m s r sorted d new out =
      let placed = insert_order_lem h o m s r sorted d new out in
      (
        placed.0,
        IsSorted-insert bid k o s sorted,
        IsDistinct-insert_at o s out d,
        entries-payload h (insert_order (order_of bid) k o h m).0 (insert_at bid k o s)
              placed.1.payloads
            ∙ entries-insert_at h m o s r sorted,
      )
