-- ===== src/Market/Feed/Gaps.antt =====
-- The gap count of the feed handler against the sequence numbers that it was sent.
use low_latency_project.Prelude.{
  ◌==◌, ◌||◌, ℕ, ◌+◌, ◌%◌, ◌^◌, ◌≡◌, refl, sym, ap, ◌∙◌, Bool, true, false, List, [], ◌∷◌, ltb,
  if◌then◌else◌, length, drop, arith, Bool-cases, inl, inr,
}
use low_latency_project.Order.Record.{Order}
use low_latency_project.Net.Wire.{read_le}
use low_latency_project.Net.Codec.{slice}
use low_latency_project.Market.Feed.{FeedHandler, receive, receive_all, update_bbo, is_gap}

-- The sequence number of a datagram, and the datagrams long enough to have one.
abbrev pub seq_of : List ℕ → ℕ
seq_of d = read_le (slice 0 8 d)

abbrev pub numbers : List (List ℕ) → List ℕ
numbers [] = []
numbers (d ∷ ds) = if ltb (length d) 8 then numbers ds else seq_of d ∷ numbers ds

-- The second number follows the first one. After the last number of 64 bits any number may come.
abbrev pub follows : ℕ → ℕ → Bool
follows a b = (a + 1) % 2 ^ 64 == 0 || b == (a + 1) % 2 ^ 64

-- How many numbers of a sequence do not follow the one in front of them.
abbrev pub breaks : List ℕ → ℕ
breaks [] = 0
breaks (a ∷ []) = 0
breaks (a ∷ (b ∷ ns)) = (if follows a b then 0 else 1) + breaks (b ∷ ns)

update_bbo-keeps :
    (bytes : Order) (payload : List ℕ) (f : FeedHandler)
    → ((update_bbo bytes payload f).gap_count ≡ f.gap_count)
      × ((update_bbo bytes payload f).expected_seq ≡ f.expected_seq)
unfolding update_bbo
update_bbo-keeps bytes payload f = elim (Bool-cases (ltb (length payload) 32)) [
  | inl short ↦ rw short (refl, refl)
  | inr long ↦ rw long (refl, refl)
]

receive-short :
    (bytes : Order) (d : List ℕ) (f : FeedHandler) → ltb (length d) 8 ≡ true → receive bytes d f ≡ f
unfolding receive
receive-short bytes d f short = rw short refl

receive-long :
    (bytes : Order) (d : List ℕ) (f : FeedHandler)
    → ltb (length d) 8 ≡ false
    → ((receive bytes d f).gap_count % 2 ^ 64
        ≡ (f.gap_count + (if is_gap f.expected_seq (seq_of d) then 1 else 0)) % 2 ^ 64)
      × ((receive bytes d f).expected_seq ≡ (seq_of d + 1) % 2 ^ 64)
unfolding receive
receive-long bytes d f long = elim (Bool-cases (is_gap f.expected_seq (seq_of d))) [
  | inl gap ↦
      let g : FeedHandler = record f {
        gap_count = (f.gap_count + 1) % 2 ^ 64;
        bbo = record (f.bbo) { valid = false };
        expected_seq = (seq_of d + 1) % 2 ^ 64;
      } in
      let keeps = update_bbo-keeps bytes (drop 8 d) g in
      rw (long, gap) (ap (λ n. n % 2 ^ 64) (keeps.0) ∙ omega arith, keeps.1)
  | inr none_there ↦
      let g : FeedHandler = record f { expected_seq = (seq_of d + 1) % 2 ^ 64 } in
      let keeps = update_bbo-keeps bytes (drop 8 d) g in
      rw (long, none_there) (ap (λ n. n % 2 ^ 64) (keeps.0) ∙ omega arith, keeps.1)
]

gap_is :
    (last expected seq : ℕ)
    → expected ≡ (last + 1) % 2 ^ 64
    → ◌≡◌ {A = ℕ} (if is_gap expected seq then 1 else 0) (if follows last seq then 0 else 1)
gap_is last expected seq e = rw e (ground arith)

-- When the number that is expected follows a last one, the gap count grows by any datagrams, modulo
-- 2 ^ 64, by how many numbers of those long enough to have one do not follow the number in front of
-- them, the last one being in front of all.
pub receive_all-gaps :
    (bytes : Order) (ds : List (List ℕ)) (f : FeedHandler) (last : ℕ)
    → f.expected_seq ≡ (last + 1) % 2 ^ 64
    → (receive_all bytes ds f).gap_count % 2 ^ 64
      ≡ (f.gap_count + breaks (last ∷ numbers ds)) % 2 ^ 64
unfolding receive_all
receive_all-gaps bytes [] f last e = omega arith
receive_all-gaps bytes (d ∷ ds) f last e = elim (Bool-cases (ltb (length d) 8)) [
  | inl short ↦
      ap (λ g. (receive_all bytes ds g).gap_count % 2 ^ 64) (receive-short bytes d f short)
      ∙ receive_all-gaps bytes ds f last e
      ∙ ap (λ ns. (f.gap_count + breaks (last ∷ ns)) % 2 ^ 64) (sym (numbers-short short))
  | inr long ↦
      let one = receive-long bytes d f long in
      receive_all-gaps bytes ds (receive bytes d f) (seq_of d) (one.1)
      ∙ omega (arith, one.0, gap_is last f.expected_seq (seq_of d) e)
      ∙ ap (λ ns. (f.gap_count + breaks (last ∷ ns)) % 2 ^ 64) (sym (numbers-long long))
]
  where
    numbers-short : ltb (length d) 8 ≡ true → numbers (d ∷ ds) ≡ numbers ds
    numbers-short short = rw short refl

    numbers-long : ltb (length d) 8 ≡ false → numbers (d ∷ ds) ≡ seq_of d ∷ numbers ds
    numbers-long long = rw long refl
