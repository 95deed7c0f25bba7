-- ===== src/Middleware/RateLimit.antt =====
-- internal/middleware/ratelimit.go. The limiter (ulule/limiter with its store) is a parameter.
use gorder.Prelude.{String, Bool, if◌then◌else◌}
use gorder.Prelude.Result.{Result, ok, err}
use gorder.Http.{error, json, Middleware, reply}

-- `limit.Get`: the state after counting the client, and whether the limit is reached.
module _ {S : Type 0} (get : String → S → S × Result String Bool) where
  unfoldable pub rate_limit : Middleware S
  rate_limit next ctx s =
      let (s', result) = get ctx.client_ip s in
      elim result [
        | err _ ↦ reply (json 500 (error "failed to get rate limiter")) s'
        | ok reached ↦
            if reached then reply (json 429 (error "too many requests")) s' else next ctx s'
      ]
