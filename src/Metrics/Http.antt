-- ===== src/Metrics/Http.antt =====
-- include/metrics/http_server.hpp and src/metrics/http_server.cpp: what `HttpServer::run` answers to one
-- request. The tracker's buckets, the arithmetic on `double`, and what the file docs/dashboard.html holds
-- are arguments.
pub mod Request
pub mod Json
pub mod Response
use low_latency_project.Prelude.{
  ℕ, Bool, true, false, Option, none, some, List, [], ◌∷◌, ◌++◌, ◌==◌, if◌then◌else◌, length,
}
use low_latency_project.Metrics.Latency.{Doubles, get_p50, get_p99, get_p999}
use low_latency_project.Prelude.Text.{codes, after_text, to_string}

abbrev pub crlf : List ℕ
crlf = 13 ∷ 10 ∷ []

-- `std::string(buf)`: the bytes up to the first zero; `none` is a read behind the buffer.
unfoldable pub c_string : List ℕ → Option (List ℕ)
c_string [] = none
c_string (b ∷ buf) =
    if b == 0 then some [] else elim (c_string buf) [ none ↦ none | some text ↦ some (b ∷ text) ]

-- `,"name":` and the first one with a brace.
abbrev pub key : ℕ → List ℕ → List ℕ
key before name = before ∷ 34 ∷ name ++ (34 ∷ 58 ∷ [])

-- What the tracker's buckets hold is the same for all three percentiles.
abbrev pub json : Doubles → List ℕ → ℕ → ℕ → List ℕ
json d buckets order_count uptime_sec =
    key 123 (codes "p50_ns")
    ++ (to_string (get_p50 d buckets)
        ++ (key 44 (codes "p99_ns")
            ++ (to_string (get_p99 d buckets)
                ++ (key 44 (codes "p999_ns")
                    ++ (to_string (get_p999 d buckets)
                        ++ (key 44 (codes "orders_per_sec")
                            ++ (to_string order_count
                                ++ (key 44 (codes "uptime_seconds")
                                    ++ (to_string uptime_sec ++ (125 ∷ []))))))))))

abbrev pub length_name : List ℕ
length_name = codes "Content-Length: "

-- The lines in front of the length.
abbrev pub json_head : List ℕ
json_head =
    codes "HTTP/1.1 200 OK"
    ++ (crlf
        ++ (codes "Content-Type: application/json"
            ++ (crlf ++ (codes "Access-Control-Allow-Origin: *" ++ crlf))))

abbrev pub html_head : List ℕ
html_head = codes "HTTP/1.1 200 OK" ++ (crlf ++ (codes "Content-Type: text/html" ++ crlf))

abbrev pub missing_head : List ℕ
missing_head = codes "HTTP/1.1 404 Not Found" ++ crlf

abbrev pub with_body : List ℕ → List ℕ → List ℕ
with_body head body = head ++ (length_name ++ (to_string (length body) ++ (crlf ++ (crlf ++ body))))

-- `request.find("GET /metrics") != npos`
unfoldable pub asks_metrics : List ℕ → Bool
asks_metrics request = elim (after_text (codes "GET /metrics") request) [
  | none ↦ false
  | some _ ↦ true
]

abbrev pub missing : List ℕ
missing = missing_head ++ (length_name ++ (codes "0" ++ (crlf ++ crlf)))

-- The answer to what a zeroed buffer holds after `recv`; `dashboard` is `none` if there is no such file.
unfoldable pub respond : Doubles → List ℕ → ℕ → ℕ → Option (List ℕ) → List ℕ → Option (List ℕ)
respond d buckets order_count uptime_sec dashboard buf = elim (c_string buf) [
  | none ↦ none
  | some request ↦
      if asks_metrics request
      then some (with_body json_head (json d buckets order_count uptime_sec))
      else elim dashboard [ none ↦ some missing | some html ↦ some (with_body html_head html) ]
]
