-- ===== src/Router/Observed.antt =====
-- The requests that the histogram of internal/middleware/metrics.go sees: `MetricsMiddleware` stands
-- before the chain of every route of internal/app/app.go.
use gorder.Prelude.{ℕ, String, ◌≡◌, refl, some, List, [], ◌∷◌, In, ℕ_discrete}
use gorder.Prelude.Decimal.{itoa}
use gorder.Http.{str, Ctx, Effect, Outcome, reply}
use gorder.Middleware.Auth.{claim}
use gorder.Middleware.Jwt.{JwtLaws, Claims, hmac}
use gorder.Middleware.Metrics.{metrics_middleware}
use gorder.Cache.Trace.{Fits}
use gorder.Models.{Order}
use gorder.Repository.Interface.{ReadLaws}
use gorder.Handler.Orders.{App}
use gorder.Router.{Server, Verb, get, post, Route, serve, create_router}
use gorder.Router.Answers.{create_router-replies}
use gorder.Router.Guards.{required}

-- `c.Request.Method` for a route of the verb
abbrev pub method_of : Verb → String
method_of get = "GET"
method_of post = "POST"

-- the chain of the route behind the middleware that `router.Use` puts before all of them
abbrev pub measured :
    {Db : Type 0}
    → (List Effect → ℕ)
    → Route (App Db)
    → Ctx
    → App Db
    → Outcome (App Db) × List (List String)
measured status route ctx s =
    metrics_middleware status (method_of route.verb) route.path (serve route.chain) ctx s

module _ {S : Type 0} (status : List Effect → ℕ) where
  metrics_middleware-reply :
      (method path : String) (next : Ctx → S → Outcome S) (ctx : Ctx) (s s' : S) (e : Effect)
      → next ctx s ≡ reply e s'
      → metrics_middleware status method path next ctx s
        ≡ (reply e s', (method ∷ path ∷ itoa (status (e ∷ [])) ∷ []) ∷ [])
  unfolding metrics_middleware ℕ_discrete
  metrics_middleware-reply method path next ctx s s' e ran = rw (metrics_middleware, ran) refl

module _ {Db : Type 0} (srv : Server Db) (laws : JwtLaws srv.j) (reads : ReadLaws srv.r)
    (capacity : ℕ) (status : List Effect → ℕ)
    (names : (token : String) (claims : Claims)
      → srv.j.Signed hmac srv.secret token claims
      → (name : String) × (claim "username" claims ≡ str name)) where
  -- Where every token that is signed with the secret names its user by a text, a request to a route
  -- under /api/admin, under /api/user, or of the pages / and /:uid, over a sound cache, is observed
  -- once, under its method, the path of its route and the status of its one reply; the observation
  -- meets no panic and changes nothing of what the chain does.
  pub measured-observed :
      (route : Route (App Db))
      → In route (create_router srv)
      → (roles : List String) → required route.path ≡ some roles
      → (ctx : Ctx) (s : App Db) (os : List Order) → Fits capacity s.cache os
      → (e : Effect) × (s' : App Db) × (serve route.chain ctx s ≡ reply e s')
        × (measured status route ctx s
            ≡ (reply e s', (method_of route.verb ∷ route.path ∷ itoa (status (e ∷ [])) ∷ []) ∷ []))
  measured-observed route i roles protected ctx s os fits =
      let sent =
        create_router-replies srv laws reads capacity names route i roles protected ctx s os fits in
      (
        sent.effect,
        sent.state,
        sent.ran,
        metrics_middleware-reply status (method_of route.verb) route.path (serve route.chain) ctx s
            sent.state sent.effect sent.ran,
      )
