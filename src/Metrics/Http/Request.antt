-- ===== src/Metrics/Http/Request.antt =====
-- What a request asks for, and how it is read from the buffer.
use low_latency_project.Prelude.{
  ℕ, ◌≡◌, ◌≢◌, refl, sym, ap, ◌∙◌, true, false, none, some, List, [], ◌∷◌, ◌++◌, if◌then◌else◌,
  length, drop, contains, arith, inl, inr, ◌⊎◌, Bool-cases, Option-cases, ==_iff, ==_self,
}
use low_latency_project.Prelude.Text.{codes, starts_with, after_text}
use low_latency_project.Metrics.Http.{c_string, asks_metrics}

-- The first text stands somewhere in the second one.
abbrev pub Occurs : List ℕ → List ℕ → Type 0
Occurs needle text = (before : List ℕ) × (after : List ℕ) × (text ≡ before ++ (needle ++ after))

starts_with_self : (needle after : List ℕ) → starts_with needle (needle ++ after) ≡ true
starts_with_self [] after = refl
starts_with_self (c ∷ needle) after = rw (==_self c, starts_with_self needle after) refl

starts_with-splits :
    (needle bs : List ℕ) → starts_with needle bs ≡ true → bs ≡ needle ++ drop (length needle) bs
starts_with-splits [] bs h = refl
starts_with-splits (c ∷ needle) [] h = cc
starts_with-splits (c ∷ needle) (b ∷ bs) h =
    let same : b ≡ c = (==_iff b c).0 (ground (arith, h)) in
    ap (λ x. x ∷ bs) same ∙ ap (λ xs. c ∷ xs) (starts_with-splits needle bs (ground (arith, h)))

after_text-found :
    (needle before after : List ℕ) → after_text needle (before ++ (needle ++ after)) ≢ none
unfolding after_text
after_text-found [] [] [] h = cc
after_text-found [] [] (b ∷ after) h = cc
after_text-found (c ∷ needle) [] after h =
    let here : starts_with (c ∷ needle) (c ∷ (needle ++ after)) ≡ true =
      starts_with_self (c ∷ needle) after in
    let clash =
      sym (
        ap
          (λ t.
            if t
            then some (drop (length (c ∷ needle)) (c ∷ (needle ++ after)))
            else after_text (c ∷ needle) (needle ++ after))
          here)
      ∙ h in
    cc
after_text-found needle (b ∷ before) after h =
    elim (Bool-cases (starts_with needle (b ∷ (before ++ (needle ++ after))))) [
      | inl here ↦ absurd (ground (arith, h, here))
      | inr apart ↦ after_text-found needle before after (ground (arith, h, apart))
    ]

after_text-Occurs : (needle bs rest : List ℕ) → after_text needle bs ≡ some rest → Occurs needle bs
unfolding after_text
after_text-Occurs needle [] rest h = elim (Bool-cases (starts_with needle [])) [
  | inl here ↦ ([], drop (length needle) [], starts_with-splits needle [] here)
  | inr apart ↦ absurd (ground (arith, h, apart))
]
after_text-Occurs needle (b ∷ bs) rest h = elim (Bool-cases (starts_with needle (b ∷ bs))) [
  | inl here ↦ ([], drop (length needle) (b ∷ bs), starts_with-splits needle (b ∷ bs) here)
  | inr apart ↦
      let (before, after, is) = after_text-Occurs needle bs rest (ground (arith, h, apart)) in
      (b ∷ before, after, ap (λ xs. b ∷ xs) is)
]

-- The request holds the text that the metrics are asked for with, or it does not.
pub asks_metrics-cases :
    (request : List ℕ)
    → ((asks_metrics request ≡ true) × Occurs (codes "GET /metrics") request)
      ⊎ ((asks_metrics request ≡ false) × ¬ Occurs (codes "GET /metrics") request)
unfolding asks_metrics
asks_metrics-cases request = elim (Option-cases (after_text (codes "GET /metrics") request)) [
  | inl missing ↦ inr (
    ap (λ r. elim r [ none ↦ false | some _ ↦ true ]) missing,
    λ (o : Occurs (codes "GET /metrics") request).
        let (before, after, is) = o in
        after_text-found (codes "GET /metrics") before after
          (ap (after_text (codes "GET /metrics")) (sym is) ∙ missing),
  )
  | inr (rest, found) ↦ inl (
    ap (λ r. elim r [ none ↦ false | some _ ↦ true ]) found,
    after_text-Occurs (codes "GET /metrics") request rest found,
  )
]

-- A request without a zero that a zero follows in the buffer is read as it is.
pub c_string-zero :
    (request rest : List ℕ)
    → contains request 0 ≡ false
    → c_string (request ++ (0 ∷ rest)) ≡ some request
unfolding c_string
c_string-zero [] rest plain = refl
c_string-zero (b ∷ request) rest plain =
    ground (arith, plain, c_string-zero request rest (ground (arith, plain)))
