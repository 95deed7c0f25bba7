-- ===== src/Middleware/Auth.antt =====
-- internal/middleware/auth.go: `JWTAuth` and `RequireRole`.
use text.Mathlib.Text.{starts_with, find?}
use Prim.Native.String.{len, slice}
use gorder.Prelude.{ℕ, String, none, some, List, [], ◌∷◌, Bool, true, false, if◌then◌else◌, str_eq}
use gorder.Prelude.Dict.{lookup, insert}
use gorder.Prelude.Result.{ok, err}
use gorder.Http.{Claim, null, str, object, Ctx, error, json, redirect, Handler, Middleware, reply}
use gorder.Middleware.Jwt.{Jwt, Claims, key_for}

-- `strings.TrimPrefix` and `strings.Contains`
abbrev pub trim_prefix : String → String → String
trim_prefix s p = if starts_with s p then slice s (len p) (len s) else s

abbrev pub contains : String → String → Bool
contains s t = elim (find? s t) [ none ↦ false | some _ ↦ true ]

-- `claims["…"]`: nil where there is none.
abbrev pub claim : String → Claims → Claim
claim k claims = elim (lookup k claims) [ none ↦ null | some v ↦ v ]

-- the context with the claims, for the rest of the chain
abbrev pub with_claims : Claims → Ctx → Ctx
with_claims claims ctx = record ctx {
  values = insert "claims" object (
      insert "role" (claim "role" claims) (
        insert "username" (claim "username" claims)
          (insert "user_id" (claim "user_id" claims) ctx.values)));
}

-- the token of the Authorization header, "" where there is none
unfoldable pub bearer : Ctx → String
bearer ctx =
    let auth = ctx.header "Authorization" in
    if starts_with auth "Bearer" then trim_prefix auth "Bearer " else ""

-- the loop over the roles
unfoldable pub has_role : Bool → String → List String → Bool
has_role access role [] = access
has_role access role (r ∷ roles) = has_role (if str_eq role r then true else access) role roles

module _ {S : Type 0} where
  -- A browser is sent to the login page, any other client gets the error; the chain is aborted.
  abbrev pub refuse : ℕ → String → Handler S
  refuse code message ctx s =
      if contains (ctx.header "Accept") "text/html"
      then reply (redirect 302 "/login") s
      else reply (json code (error message)) s

  module _ (j : Jwt) (secret : String) where
    -- the second half of `JWTAuth`, with the token at hand
    unfoldable pub check_token : String → Middleware S
    check_token token_str next ctx s = elim (j.parse (key_for secret) token_str ctx.now) [
      | err _ ↦ refuse 401 "Invalid or expired token" ctx s
      | ok token ↦
          if token.valid
          then (elim token.claims [
            | none ↦ refuse 500 "Invalid token claims" ctx s
            | some claims ↦ next (with_claims claims ctx) s
          ])
          else refuse 401 "Invalid or expired token" ctx s
    ]

    unfoldable pub jwt_auth : Middleware S
    jwt_auth next ctx s =
        let token_str = bearer ctx in
        if str_eq token_str ""
        then (elim (ctx.cookie "access_token") [
          | none ↦ refuse 401 "Failed to read access token from cookie" ctx s
          | some cookie ↦ check_token cookie next ctx s
        ])
        else check_token token_str next ctx s

  unfoldable pub require_role : List String → Middleware S
  require_role roles next ctx s = elim (lookup "role" ctx.values) [
    | none ↦ reply (json 401 (error "role not found")) s
    | some r ↦ elim r [
      | str role ↦
          if has_role false role roles
          then next ctx s
          else reply (json 403 (error "access denied")) s
      | _ ↦ reply (json 500 (error "invalid role type")) s
    ]
  ]
