-- ===== src/Core/Spsc.antt =====
-- include/core/ring_buffer.hpp between two threads: `push` of the producer and `pop` of the consumer,
-- one shared access at a time, interleaved in any order. Each atomic has one writer, so the code's
-- acquire loads and release stores are read as one order of accesses.
pub mod Fifo
use Prim.Native.Nat.{bit_and}
use low_latency_project.Prelude.{ℕ, ◌^◌, ◌≡◌, ◌<◌, ◌≤◌, ◌≢◌, List, [], ◌∷◌, ◌++◌, update}
use low_latency_project.Core.Ring.{RingBuffer, new_ring, size_add, size_sub, mask}

-- Where the producer stands in `push(item)`.
pub data Producer (T : Type 0) : Type 0 where
  outside : Producer T
  loaded_tail : (item : T) (current_tail : ℕ) → Producer T  -- before the load of `head_`
  has_room : (item : T) (current_tail : ℕ) → Producer T  -- before the write of the slot
  written : (item : T) (current_tail : ℕ) → Producer T  -- before the store of `tail_`

-- Where the consumer stands in `pop(item)`.
pub data Consumer (T : Type 0) : Type 0 where
  outside : Consumer T
  loaded_head : (current_head : ℕ) → Consumer T  -- before the load of `tail_`
  has_item : (current_head : ℕ) → Consumer T  -- before the read of the slot
  copied : (current_head : ℕ) (item : T) → Consumer T  -- before the store of `head_`

-- `sent` and `received` record the items of the pushes that returned true and of the pops that
-- returned true, oldest first. The code keeps no such record.
pub record System (T : Type 0) : Type 0 where
  pub ring : RingBuffer T
  pub producer : Producer T
  pub consumer : Consumer T
  pub sent : List T
  pub received : List T

abbrev pub begin : {T : Type 0} → (ℕ → T) → System T
begin bytes = record {
  ring = new_ring bytes;
  producer = Producer.outside;
  consumer = Consumer.outside;
  sent = [];
  received = [];
}

module _ {T : Type 0} (capacity : ℕ) where
  -- One shared access of the producer.
  pub data Push (s : System T) : Producer T → System T → Type 0 where
    load_tail :
        (item : T) → Push s Producer.outside (record s { producer = loaded_tail item s.ring.tail })
    load_head_full :
        {item : T} {t : ℕ}
        → capacity < size_sub (size_add t 1) s.ring.head
        → Push s (loaded_tail item t) (record s { producer = Producer.outside })
    load_head :
        {item : T} {t : ℕ}
        → size_sub (size_add t 1) s.ring.head ≤ capacity
        → Push s (loaded_tail item t) (record s { producer = has_room item t })
    write_slot :
        {item : T} {t : ℕ}
        → Push s (has_room item t) (record s {
          ring = record (s.ring) { buffer = update s.ring.buffer (bit_and t (mask capacity)) item };
          producer = written item t;
        })
    store_tail :
        {item : T} {t : ℕ}
        → Push s (written item t) (record s {
          ring = record (s.ring) { tail = size_add t 1 };
          producer = Producer.outside;
          sent = s.sent ++ (item ∷ []);
        })

  -- One shared access of the consumer.
  pub data Pop (s : System T) : Consumer T → System T → Type 0 where
    load_head : Pop s Consumer.outside (record s { consumer = loaded_head s.ring.head })
    load_tail_empty :
        {h : ℕ} → h ≡ s.ring.tail → Pop s (loaded_head h) (record s { consumer = Consumer.outside })
    load_tail :
        {h : ℕ} → h ≢ s.ring.tail → Pop s (loaded_head h) (record s { consumer = has_item h })
    read_slot :
        {h : ℕ}
        → Pop s
            (has_item h)
            (record s { consumer = copied h (s.ring.buffer (bit_and h (mask capacity))) })
    store_head :
        {h : ℕ} {item : T}
        → Pop s (copied h item) (record s {
          ring = record (s.ring) { head = size_add h 1 };
          consumer = Consumer.outside;
          received = s.received ++ (item ∷ []);
        })

  pub data Step (s : System T) : System T → Type 0 where
    produce : {t : System T} → Push s s.producer t → Step s t
    consume : {t : System T} → Pop s s.consumer t → Step s t

  pub data Reach (bytes : ℕ → T) : System T → Type 0 where
    start : Reach bytes (begin bytes)
    later : {s t : System T} → Reach bytes s → Step s t → Reach bytes t
