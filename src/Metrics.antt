-- ===== src/Metrics.antt =====
-- internal/metrics/metrics.go: the values behind the Prometheus collectors that the program reads
-- or writes by itself, and the vector of histograms that internal/middleware/metrics.go observes in.
use gorder.Prelude.{ℕ, String, List, [], ◌∷◌}
use gorder.Prelude.Int.{ℤ, pos}

pub record Metrics : Type 0 where
  pub orders_processed : ℕ
  pub cache_hits : ℕ
  pub cache_misses : ℕ
  pub orders_in_cache : ℤ

abbrev pub new_metrics : Metrics
new_metrics = record {
  orders_processed = 0;
  cache_hits = 0;
  cache_misses = 0;
  orders_in_cache = pos 0;
}

-- `prometheus.NewHistogramVec`
pub record Vector : Type 0 where
  pub name : String
  pub help : String
  -- the upper bounds in milliseconds
  pub buckets : List ℕ
  pub labels : List String

abbrev pub request_duration : Vector
request_duration = record {
  name = "gorder_http_request_duration_seconds";
  help = "Custom gorder http request duration";
  buckets = 5 ∷ 10 ∷ 25 ∷ 50 ∷ 100 ∷ 250 ∷ 500 ∷ 1000 ∷ 2500 ∷ 5000 ∷ 10000 ∷ [];
  labels = "method" ∷ "endpoint" ∷ "status" ∷ [];
}
