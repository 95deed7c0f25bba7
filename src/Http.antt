-- ===== src/Http.antt =====
-- What the handlers and the middleware use of gin: the request's context, the replies that a
-- handler writes, and `c.Next`. A handler returns the state that it leaves and what it wrote, in
-- order, or it panics (gin's recovery then answers 500).
use gorder.Prelude.{ℕ, String, Option, List, [], ◌∷◌}
use gorder.Models.{Order}

-- A value of the context or of a JWT's claims. `null` is Go's nil.
pub data Claim : Type 0 where
  null : Claim
  str : String → Claim
  number : ℕ → Claim
  object : Claim

pub record Ctx : Type 0 where
  -- `c.GetHeader`, "" where there is none, and `c.Cookie`
  pub header : String → String
  pub cookie : String → Option String
  -- `c.Param("uid")`, and `c.ClientIP()`
  pub uid : String
  pub client_ip : String
  -- what `c.Set` stored
  pub values : List (String × Claim)
  -- the time of the request, in seconds
  pub now : ℕ

pub data Body : Type 0 where
  empty : Body
  error : String → Body
  status : String → Body
  order : Order → Body
  order_uids : List String → Body
  fields : List (String × String) → Body

pub data Effect : Type 0 where
  json : ℕ → Body → Effect
  html : ℕ → String → Body → Effect
  redirect : ℕ → String → Effect
  -- name, value and maximal age in seconds; a negative one clears the cookie
  set_cookie : String → String → ℕ → Effect
  clear_cookie : String → Effect

pub data Outcome (S : Type 0) : Type 0 where
  finished : S → List Effect → Outcome S
  panicked : S → Outcome S

abbrev pub Handler : Type 0 → Type 0
Handler S = Ctx → S → Outcome S

-- A middleware is given the rest of the chain, which `c.Next()` runs.
abbrev pub Middleware : Type 0 → Type 0
Middleware S = Handler S → Handler S

abbrev pub reply : {S : Type 0} → Effect → S → Outcome S
reply e s = finished s (e ∷ [])

-- What was written, whether or not the handler panicked in the end.
abbrev pub effects : {S : Type 0} → Outcome S → List Effect
effects (finished s es) = es
effects (panicked s) = []

abbrev pub state_of : {S : Type 0} → Outcome S → S
state_of (finished s es) = s
state_of (panicked s) = s
