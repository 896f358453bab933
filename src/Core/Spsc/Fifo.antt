-- ===== src/Core/Spsc/Fifo.antt =====
-- Under every interleaving of one producer and one consumer the ring is first-in first-out.
use Prim.Native.Nat.{bit_and}
use mathlib.Core.List.{append_assoc}
use low_latency_project.Prelude.{
  ℕ, ◌+◌, ◌^◌, ◌≤◌, ◌<◌, ◌≡◌, ◌≢◌, refl, sym, ap, ◌∙◌, List, [], ◌∷◌, ◌++◌, arith, length,
  length-append, ==_self,
}
use low_latency_project.Core.Ring.{RingBuffer, size_sub, mask}
use low_latency_project.Core.Ring.Window.{
  Holds, tail_slot, head_slot, slots_differ, size_is, next_size_is, Holds-write, Holds-advance_tail,
  Holds-front, Holds-advance_head,
}
use low_latency_project.Core.Ring.Refine.{Holds-new_ring}
use low_latency_project.Core.Spsc.{
  Producer, loaded_tail, has_room, written, Consumer, loaded_head, has_item, copied, System, Push,
  Pop, Step, produce, consume, Reach, start, later,
}

module _ {T : Type 0} (k : ℕ) where
  -- What the producer knows where it stands, `xs` being the items held.
  abbrev pub Knows : (tail : ℕ) → (ℕ → T) → List T → Producer T → Type 0
  Knows tail buffer xs Producer.outside = Unit {0}
  Knows tail buffer xs (loaded_tail item t) = t ≡ tail
  Knows tail buffer xs (has_room item t) = (t ≡ tail) × (length xs < 2 ^ k)
  Knows tail buffer xs (written item t) =
      (t ≡ tail) × (length xs < 2 ^ k) × (buffer (bit_and tail (mask (2 ^ k))) ≡ item)

  -- What the consumer knows where it stands.
  abbrev pub Sees : (head : ℕ) → List T → Consumer T → Type 0
  Sees head xs Consumer.outside = Unit {0}
  Sees head xs (loaded_head h) = h ≡ head
  Sees head xs (has_item h) = (h ≡ head) × (0 < length xs)
  Sees head xs (copied h item) = (h ≡ head) × ((rest : List T) × (xs ≡ item ∷ rest))

  pub record Inv (s : System T) : Type 0 where
    pub start : ℕ
    pub held : List T
    pub holds : Holds k s.ring start held
    pub ledger : s.sent ≡ s.received ++ held
    pub producer : Knows s.ring.tail s.ring.buffer held s.producer
    pub consumer : Sees s.ring.head held s.consumer

  -- The consumer's knowledge survives the producer's accesses.
  Sees-append :
      (head : ℕ) (xs ys : List T) (c : Consumer T) → Sees head xs c → Sees head (xs ++ ys) c
  Sees-append head xs ys Consumer.outside h = tt
  Sees-append head xs ys (loaded_head p) h = h
  Sees-append head xs ys (has_item p) h = (h.0, omega (arith, h.1, length-append xs ys))
  Sees-append head xs ys (copied p item) h = (h.0, (h.1.0 ++ ys, ap (λ l. l ++ ys) h.1.1))

  -- The producer's knowledge survives the consumer taking an item.
  Knows-shrink :
      (tail : ℕ) (buffer : ℕ → T) (xs ys : List T) (p : Producer T)
      → length ys ≤ length xs
      → Knows tail buffer xs p
      → Knows tail buffer ys p
  Knows-shrink tail buffer xs ys Producer.outside le h = tt
  Knows-shrink tail buffer xs ys (loaded_tail item t) le h = h
  Knows-shrink tail buffer xs ys (has_room item t) le h = (h.0, omega (arith, h.1))
  Knows-shrink tail buffer xs ys (written item t) le h = (h.0, omega (arith, h.1), h.2)

  front_item :
      (r : RingBuffer T) (xs : List T) {n : ℕ}
      → Holds k r n xs
      → (h : ℕ) → h ≡ r.head
      → 0 < length xs
      → (rest : List T) × (xs ≡ r.buffer (bit_and h (mask (2 ^ k))) ∷ rest)
  front_item r [] holds h e filled = absurd (omega arith)
  front_item r (x ∷ xs) holds h e filled = (xs, rw e (ap (λ y. y ∷ xs) (sym (Holds-front holds))))

  module _ {s : System T} (inv : Inv s) where
    open inv use {held, holds, ledger}

    Push-Inv :
        {p : Producer T} {t : System T}
        → Push (2 ^ k) s p t
        → Knows s.ring.tail s.ring.buffer held p
        → Inv t
    Push-Inv (Push.load_tail item) h = record {
      start = inv.start;
      held = held;
      holds = holds;
      ledger = ledger;
      producer = refl;
      consumer = inv.consumer;
    }
    Push-Inv (Push.load_head_full full) h = record {
      start = inv.start;
      held = held;
      holds = holds;
      ledger = ledger;
      producer = tt;
      consumer = inv.consumer;
    }
    Push-Inv (Push.load_head room) h = record {
      start = inv.start;
      held = held;
      holds = holds;
      ledger = ledger;
      producer = (h, omega (arith, next_size_is holds, rw h at room));
      consumer = inv.consumer;
    }
    Push-Inv (Push.write_slot {item} {t}) h = record {
      start = inv.start;
      held = held;
      ledger = ledger;
      holds = rw h.0 (Holds-write item holds h.1);
      producer = (h.0, h.1, rw (h.0, ==_self (bit_and s.ring.tail (mask (2 ^ k)))));
      consumer = inv.consumer;
    }
    Push-Inv (Push.store_tail {item} {t}) h = record {
      start = inv.start;
      held = held ++ (item ∷ []);
      holds = rw h.0 (Holds-advance_tail item holds h.1 h.2);
      ledger = ap (λ l. l ++ (item ∷ [])) ledger ∙ append_assoc s.received held (item ∷ []);
      producer = tt;
      consumer = Sees-append s.ring.head held (item ∷ []) s.consumer inv.consumer;
    }

    Pop-Inv : {c : Consumer T} {t : System T} → Pop (2 ^ k) s c t → Sees s.ring.head held c → Inv t
    Pop-Inv Pop.load_head h = record {
      start = inv.start;
      held = held;
      holds = holds;
      ledger = ledger;
      producer = inv.producer;
      consumer = refl;
    }
    Pop-Inv (Pop.load_tail_empty e) h = record {
      start = inv.start;
      held = held;
      holds = holds;
      ledger = ledger;
      producer = inv.producer;
      consumer = tt;
    }
    Pop-Inv (Pop.load_tail ne) h = record {
      start = inv.start;
      held = held;
      holds = holds;
      ledger = ledger;
      producer = inv.producer;
      consumer = (h, omega (arith, holds.head_is, holds.tail_is));
    }
    Pop-Inv (Pop.read_slot {h = p}) h = record {
      start = inv.start;
      held = held;
      holds = holds;
      ledger = ledger;
      producer = inv.producer;
      consumer = (h.0, front_item s.ring held holds p h.0 h.1);
    }
    Pop-Inv (Pop.store_head {h = p} {item}) h = record {
      start = inv.start + 1;
      held = h.1.0;
      holds = rw h.0 (Holds-advance_head (rw h.1.1 at holds));
      ledger =
          ledger
          ∙ ap (λ l. s.received ++ l) h.1.1
          ∙ sym (append_assoc s.received (item ∷ []) h.1.0);
      producer =
          Knows-shrink s.ring.tail s.ring.buffer held h.1.0 s.producer (rw h.1.1 (omega arith))
            inv.producer;
      consumer = tt;
    }

  pub Step-Inv : {s t : System T} → Step (2 ^ k) s t → Inv s → Inv t
  Step-Inv (produce mv) inv = Push-Inv inv mv inv.producer
  Step-Inv (consume mv) inv = Pop-Inv inv mv inv.consumer

  pub Reach-Inv : {bytes : ℕ → T} {s : System T} → k ≤ 63 → Reach (2 ^ k) bytes s → Inv s
  Reach-Inv {bytes} small start = record {
    start = 0;
    held = [];
    holds = Holds-new_ring k bytes small;
    ledger = refl;
    producer = tt;
    consumer = tt;
  }
  Reach-Inv small (later r st) = Step-Inv st (Reach-Inv small r)

  -- However the two threads interleave, what was received is what was sent, in order and each once,
  -- but for a rest still in the ring, of at most `2 ^ k` items, whose number the counters give.
  pub fifo :
      {bytes : ℕ → T} {s : System T}
      → k ≤ 63
      → Reach (2 ^ k) bytes s
      → (held : List T) × (s.sent ≡ s.received ++ held)
        × (length held ≤ 2 ^ k)
        × (size_sub s.ring.tail s.ring.head ≡ length held)
  fifo small r =
      let inv = Reach-Inv small r in (inv.held, inv.ledger, inv.holds.fits, size_is inv.holds)

  -- No data race: whenever the producer is about to write a slot and the consumer about to read one,
  -- the slots differ.
  pub no_race :
      {bytes : ℕ → T} {s : System T} {item : T} {t h : ℕ}
      → k ≤ 63
      → Reach (2 ^ k) bytes s
      → s.producer ≡ has_room item t
      → s.consumer ≡ has_item h
      → bit_and t (mask (2 ^ k)) ≢ bit_and h (mask (2 ^ k))
  no_race {s} {t} {h} small r writing reading =
      let inv = Reach-Inv small r in
      let knows : (t ≡ s.ring.tail) × (length inv.held < 2 ^ k) = rw writing at inv.producer in
      let sees : (h ≡ s.ring.head) × (0 < length inv.held) = rw reading at inv.consumer in
      let far = slots_differ (2 ^ k) inv.start (length inv.held) sees.1 knows.1 in
      rw (knows.0, sees.0, tail_slot inv.holds, head_slot inv.holds) (ground (arith, far))
