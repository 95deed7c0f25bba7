-- ===== src/Middleware/Metrics.antt =====
-- internal/middleware/metrics.go. The histogram of internal/metrics/metrics.go is Prometheus's: what the
-- middleware gives it is an observation, whose values must be as many as the labels of the vector. The
-- time that is measured is left out. What gin's writer says of the status is a parameter.
use gorder.Prelude.{ℕ, String, List, [], ◌∷◌, length, ite, ℕ_discrete}
use gorder.Prelude.Decimal.{itoa}
use gorder.Metrics.{Vector, request_duration}
use gorder.Http.{Ctx, Effect, Outcome, finished, panicked, Handler}

-- `WithLabelValues(…).Observe(…)`: a panic unless there is a value for each label
abbrev pub with_label_values :
    {S : Type 0} → Vector → List String → S → List Effect → Outcome S × List (List String)
with_label_values vector values s es =
    ite (ℕ_discrete (length values) (length vector.labels)) (finished s es, values ∷ [])
      (panicked s, [])

-- The middleware with `c.Writer.Status()`, `c.Request.Method` and `c.FullPath()`: what the rest of the
-- chain does, and what is observed of it. A panic of the rest goes through it.
unfoldable pub metrics_middleware :
    {S : Type 0}
    → (List Effect → ℕ)
    → String
    → String
    → Handler S
    → Ctx
    → S
    → Outcome S × List (List String)
metrics_middleware status method full_path next ctx s = elim (next ctx s) [
  | panicked s' ↦ (panicked s', [])
  | finished s' es ↦
      with_label_values request_duration (method ∷ full_path ∷ itoa (status es) ∷ []) s' es
]
