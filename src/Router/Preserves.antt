-- ===== src/Router/Preserves.antt =====
-- What holds of the state before a request and after each handler holds after the whole chain of
-- app.go, whatever the request is.
use gorder.Prelude.{
  ℕ, String, List, [], ◌∷◌, Bool, true, false, if◌then◌else◌, str_eq, All, Bool-cases, Option-cases,
  inl, inr,
}
use gorder.Prelude.Dict.{lookup}
use gorder.Prelude.Result.{Result, Result-cases}
use gorder.Http.{
  str, null, number, object, Ctx, Effect, Outcome, finished, panicked, Handler, Middleware,
  state_of, reply, redirect, json, error,
}
use gorder.Middleware.Jwt.{Jwt, key_for}
use gorder.Middleware.Auth.{
  bearer, refuse, check_token, jwt_auth, require_role, with_claims, has_role, contains,
}
use gorder.Middleware.RateLimit.{rate_limit}
use gorder.Router.{append_effects, handler, serve}

module _ {S : Type 0} (P : S → Type 0) where
  abbrev pub Preserves : Handler S → Type 0
  Preserves h = (ctx : Ctx) (s : S) → P s → P (state_of (h ctx s))

  -- A middleware that preserves what the rest of the chain does.
  abbrev pub Passes : Middleware S → Type 0
  Passes m = (next : Handler S) → Preserves next → Preserves (m next)

  pub serve-Preserves : (ms : List (Middleware S)) → All Passes ms → Preserves (serve ms)
  unfolding serve
  serve-Preserves [] _ ctx s p = p
  serve-Preserves (m ∷ ms) (h, hs) ctx s p = h (serve ms) (serve-Preserves ms hs) ctx s p

  state_of-append_effects :
      (es : List Effect) (out : Outcome S) → P (state_of out) → P (state_of (append_effects es out))
  state_of-append_effects es (finished s fs) p = p
  state_of-append_effects es (panicked s) p = p

  pub handler-Passes : (h : Handler S) → Preserves h → Passes (handler h)
  unfolding handler
  handler-Passes h k next n ctx s p = go (h ctx s) (k ctx s p)
    where
      go :
          (out : Outcome S)
          → P (state_of out)
          → P (
              state_of (elim out [
                | finished s' es ↦ append_effects es (next ctx s')
                | panicked s' ↦ panicked s'
              ]))
      go (finished s' es) q = state_of-append_effects es (next ctx s') (n ctx s' q)
      go (panicked s') q = q

  pub branch :
      (b : Bool) (x y : Outcome S)
      → P (state_of x)
      → P (state_of y)
      → P (state_of (if b then x else y))
  branch true x y p q = p
  branch false x y p q = q

  refuse-Preserves : (code : ℕ) (message : String) → Preserves (refuse code message)
  refuse-Preserves code message ctx s p =
      branch (contains (ctx.header "Accept") "text/html") (reply (redirect 302 "/login") s)
        (reply (json code (error message)) s) p p

  module _ (j : Jwt) (secret : String) where
    check_token-Passes : (token : String) → Passes (check_token j secret token)
    unfolding check_token
    check_token-Passes token next n ctx s p =
        elim (Result-cases (j.parse (key_for secret) token ctx.now)) [
          | inr (e, q) ↦
              rw (check_token, q) (refuse-Preserves 401 "Invalid or expired token" ctx s p)
          | inl (t, q) ↦ elim (Option-cases t.claims) [
            | inl none_given ↦
                rw (check_token, q, none_given)
                  (branch t.valid _ _ (refuse-Preserves 500 "Invalid token claims" ctx s p)
                    (refuse-Preserves 401 "Invalid or expired token" ctx s p))
            | inr (claims, given) ↦
                rw (check_token, q, given)
                  (branch t.valid _ _ (n (with_claims claims ctx) s p)
                    (refuse-Preserves 401 "Invalid or expired token" ctx s p))
          ]
        ]

    pub jwt_auth-Passes : Passes (jwt_auth j secret)
    unfolding jwt_auth
    jwt_auth-Passes next n ctx s p = elim (Bool-cases (str_eq (bearer ctx) "")) [
      | inr given ↦ rw (jwt_auth, given) (check_token-Passes (bearer ctx) next n ctx s p)
      | inl none_given ↦ elim (Option-cases (ctx.cookie "access_token")) [
        | inl e ↦
            rw (jwt_auth, none_given, e)
              (refuse-Preserves 401 "Failed to read access token from cookie" ctx s p)
        | inr (cookie, e) ↦ rw (jwt_auth, none_given, e) (check_token-Passes cookie next n ctx s p)
      ]
    ]

  pub require_role-Passes : (roles : List String) → Passes (require_role roles)
  unfolding require_role
  require_role-Passes roles next n ctx s p = elim (Option-cases (lookup "role" ctx.values)) [
    | inl e ↦ rw (require_role, e) p
    | inr (null, e) ↦ rw (require_role, e) p
    | inr (number x, e) ↦ rw (require_role, e) p
    | inr (object, e) ↦ rw (require_role, e) p
    | inr (str role, e) ↦
        rw (require_role, e) (branch (has_role false role roles) _ _ (n ctx s p) p)
  ]

  pub rate_limit-Passes :
      (get : String → S → S × Result String Bool)
      → ((ip : String) (s : S) → P s → P (get ip s).0)
      → Passes (rate_limit get)
  unfolding rate_limit
  rate_limit-Passes get k next n ctx s p = elim (Result-cases (get ctx.client_ip s).1) [
    | inr (e, q) ↦ rw (rate_limit, q) (k ctx.client_ip s p)
    | inl (reached, q) ↦
        rw (rate_limit, q)
          (branch reached _ _ (k ctx.client_ip s p) (n ctx _ (k ctx.client_ip s p)))
  ]
