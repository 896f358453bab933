-- ===== src/Metrics/Http/Response.antt =====
-- A client reads back the body of what `HttpServer::run` answers.
use mathlib.Core.List.{append_assoc, append-nil}
use low_latency_project.Prelude.{
  ℕ, ◌≡◌, refl, sym, ap, ◌∙◌, Bool, true, false, not, ◌&&◌, Option, none, some, List, [], ◌∷◌, ◌++◌,
  if◌then◌else◌, length, drop, contains, ◌⊎◌, arith, inl, inr,
}
use low_latency_project.Prelude.Text.{
  codes, starts_with, after_text, to_string, read_number, read_number-to_string, AreDigits,
  to_string-AreDigits,
}
use low_latency_project.Metrics.Http.{
  crlf, json, length_name, json_head, html_head, missing_head, missing, with_body, asks_metrics,
  respond,
}
use low_latency_project.Metrics.Latency.{Doubles}
use low_latency_project.Metrics.Http.Request.{Occurs, asks_metrics-cases, c_string-zero}
use low_latency_project.Metrics.Http.Json.{Member, members, read_object, read_object-json}

abbrev blank : List ℕ
blank = 13 ∷ 10 ∷ 13 ∷ 10 ∷ []

-- What stands in front of the first blank line, and behind it.
pub split_blank : List ℕ → Option (List ℕ × List ℕ)
split_blank [] = none
split_blank (b ∷ bs) =
    if starts_with blank (b ∷ bs)
    then some ([], drop 4 (b ∷ bs))
    else elim (split_blank bs) [ none ↦ none | some (h, body) ↦ some (b ∷ h, body) ]

pub content_length : List ℕ → Option ℕ
content_length header = elim (after_text length_name header) [
  | none ↦ none
  | some ds ↦ some (read_number 0 ds)
]

-- No blank line begins in the first of two texts.
abbrev no_blank : List ℕ → List ℕ → Bool
no_blank [] rest = true
no_blank (b ∷ bs) rest = not (starts_with blank (b ∷ (bs ++ rest))) && no_blank bs rest

-- The answer is read as this body, by the blank line and by the length alike.
pub record Framed (body answer : List ℕ) : Type 0 where
  pub header : List ℕ
  pub split : split_blank answer ≡ some (header, body)
  pub measured : content_length header ≡ some (length body)

split_blank-append :
    (xs rest h body : List ℕ)
    → no_blank xs rest ≡ true
    → split_blank rest ≡ some (h, body)
    → split_blank (xs ++ rest) ≡ some (xs ++ h, body)
unfolding split_blank
split_blank-append [] rest h body plain e = e
split_blank-append (x ∷ xs) rest h body plain e =
    let first : starts_with blank (x ∷ (xs ++ rest)) ≡ false = ground (arith, plain) in
    let later = split_blank-append xs rest h body (ground (arith, plain)) e in
    rw (first, later) refl

no_blank-digits : (ds rest : List ℕ) → AreDigits ds → no_blank ds rest ≡ true
no_blank-digits [] rest d = refl
no_blank-digits (b ∷ ds) rest d = ground (arith, d.0, no_blank-digits ds rest d.1)

with_body-Framed :
    (head body : List ℕ)
    → ((rest : List ℕ) → no_blank (head ++ length_name) rest ≡ true)
    → ((ds : List ℕ) → after_text length_name (head ++ (length_name ++ ds)) ≡ some ds)
    → Framed body (with_body head body)
unfolding split_blank content_length
with_body-Framed head body plain found =
    let ds = to_string (length body) in
    let tail = crlf ++ (crlf ++ body) in
    let behind : split_blank (ds ++ tail) ≡ some (ds, body) =
      split_blank-append ds tail [] body
        (no_blank-digits ds tail (to_string-AreDigits (length body))) refl
      ∙ ap (λ h. some (h, body)) (append-nil ds) in
    record {
      header = head ++ (length_name ++ ds);
      split =
          ap split_blank (sym (append_assoc head length_name (ds ++ tail)))
          ∙ split_blank-append (head ++ length_name) (ds ++ tail) ds body (plain (ds ++ tail))
              behind
          ∙ ap (λ h. some (h, body)) (append_assoc head length_name ds);
      measured =
          ap (λ x. elim x [ none ↦ none | some n ↦ some (read_number 0 n) ]) (found ds)
          ∙ ap some (read_number-to_string (length body));
    }

-- The answer with the page, or with nothing when there is no such file.
abbrev pub IsPage : Option (List ℕ) → List ℕ → Type 0
IsPage none answer = (starts_with (codes "HTTP/1.1 404 Not Found") answer ≡ true) × Framed [] answer
IsPage (some html) answer =
    (starts_with (codes "HTTP/1.1 200 OK") answer ≡ true) × Framed html answer

-- The answer with an object of these members.
abbrev pub IsObject : List Member → List ℕ → Type 0
IsObject ms answer =
    (starts_with (codes "HTTP/1.1 200 OK") answer ≡ true)
    × ((body : List ℕ) × (read_object body ≡ some ms) × Framed body answer)

-- To every request that a zero ends within the buffer the server answers. When "GET /metrics" stands
-- somewhere in the request, the status is 200 and the body is an object with the percentiles, the
-- count of orders and the uptime under their names; otherwise the status is 200 and the body is the
-- page, or the status is 404 and the body is empty when there is no such file. A client finds the
-- body behind the first blank line, and its length in the header.
pub respond_lem :
    (d : Doubles) (buckets : List ℕ) (order_count uptime_sec : ℕ) (dashboard : Option (List ℕ))
    (request rest : List ℕ)
    → contains request 0 ≡ false
    → (answer : List ℕ) × (respond d buckets order_count uptime_sec dashboard
          (request ++ (0 ∷ rest))
        ≡ some answer)
      × ((Occurs (codes "GET /metrics") request
            × IsObject (members d buckets order_count uptime_sec) answer)
          ⊎ (¬ Occurs (codes "GET /metrics") request × IsPage dashboard answer))
unfolding respond after_text to_string
respond_lem d buckets order_count uptime_sec dashboard request rest plain =
    let read = c_string-zero request rest plain in
    elim (asks_metrics-cases request) [
      | inl (asked, metrics) ↦
          let body = json d buckets order_count uptime_sec in
          (
            with_body json_head body,
            ground (arith, read, asked),
            inl (
              metrics,
              (
                refl,
                (
                  body,
                  read_object-json d buckets order_count uptime_sec,
                  with_body-Framed json_head body (λ rest. refl) (λ ds. refl),
                ),
              ),
            ),
          )
      | inr (not_asked, other) ↦
          let (answer, is, page) = page_of dashboard in
          (
            answer,
            ap
                  (λ r. elim r [
                    | none ↦ none
                    | some text ↦
                        if asks_metrics text
                        then some (with_body json_head (json d buckets order_count uptime_sec))
                        else elim dashboard [
                          | none ↦ some missing
                          | some html ↦ some (with_body html_head html)
                        ]
                  ])
                  read
                ∙ rw not_asked is,
            inr (other, page),
          )
    ]
  where
    page_of :
        (file : Option (List ℕ))
        → (answer : List ℕ) × (elim file [
          | none ↦ some missing
          | some html ↦ some (with_body html_head html)
        ]
            ≡ some answer)
          × IsPage file answer
    page_of none =
        (missing, refl, (refl, with_body-Framed missing_head [] (λ rest. refl) (λ ds. refl)))
    page_of (some html) = (
      with_body html_head html,
      refl,
      (refl, with_body-Framed html_head html (λ rest. refl) (λ ds. refl)),
    )
