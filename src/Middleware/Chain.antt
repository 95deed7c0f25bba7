-- ===== src/Middleware/Chain.antt =====
-- The two guards of auth.go one behind the other, as app.go puts them before a handler.
use gorder.Prelude.{
  ℕ, String, ◌≡◌, ◌⊎◌, refl, sym, ◌∙◌, some, List, inl, inr, In, ap, true, str_eq, Bool-cases,
  string_discrete,
}
use text.Mathlib.TextEquality.{eq_iff}
use gorder.Prelude.Dict.{lookup, lookup-insert}
use gorder.Http.{str, Ctx, error, Effect, json, redirect, Outcome, Handler, reply}
use gorder.Middleware.Jwt.{Jwt, JwtLaws, Claims, hmac}
use gorder.Middleware.Auth.{claim, with_claims, bearer, check_token, jwt_auth, require_role}
use gorder.Middleware.Guard.{Shows, jwt_auth-cases, require_role-cases}

-- The context holds the claims of the token.
module _ (claims : Claims) (ctx : Ctx) where
  pub role_lem : lookup "role" (with_claims claims ctx).values ≡ some (claim "role" claims)
  unfolding string_discrete
  role_lem = rw (lookup-insert, lookup-insert)

  pub username_lem :
      lookup "username" (with_claims claims ctx).values ≡ some (claim "username" claims)
  unfolding string_discrete
  username_lem = rw (lookup-insert, lookup-insert, lookup-insert)

  pub user_id_lem : lookup "user_id" (with_claims claims ctx).values ≡ some (claim "user_id" claims)
  unfolding string_discrete
  user_id_lem = rw (lookup-insert, lookup-insert, lookup-insert, lookup-insert)

-- `JWTAuth` checks the token that the request shows.
pub jwt_auth_shown :
    {S : Type 0} (j : Jwt) (secret token : String) (next : Handler S) (ctx : Ctx) (s : S)
    → Shows ctx token
    → jwt_auth j secret next ctx s ≡ check_token j secret token next ctx s
unfolding jwt_auth
jwt_auth_shown j secret token next ctx s (inl (given, same)) =
    elim (Bool-cases (str_eq (bearer ctx) "")) [
      | inl e ↦ absurd (given ((eq_iff (bearer ctx) "").0 e))
      | inr e ↦ rw (jwt_auth, e) (ap (λ t. check_token j secret t next ctx s) (sym same))
    ]
jwt_auth_shown j secret token next ctx s (inr (no_header, cookie)) =
    let none_given : str_eq (bearer ctx) "" ≡ true = (eq_iff (bearer ctx) "").1 no_header in
    rw (jwt_auth, none_given, cookie) refl

module _ {S : Type 0} (j : Jwt) (laws : JwtLaws j) (secret : String) (roles : List String) where
  -- a group of routes with `JWTAuth(secret)` and `RequireRole(roles…)`
  unfoldable pub guarded : Handler S → Handler S
  guarded h = jwt_auth j secret (require_role roles h)

  -- The handler ran for a token that is signed with the secret and whose role is listed.
  pub record IsServed (h : Handler S) (ctx : Ctx) (s : S) (out : Outcome S) : Type 0 where
    pub token : String
    pub claims : Claims
    pub role : String
    pub shown : Shows ctx token
    pub signed : j.Signed hmac secret token claims
    pub role_lem : claim "role" claims ≡ str role
    pub listed : In role roles
    pub ran : out ≡ h (with_claims claims ctx) s

  -- Before a guarded handler runs, the request has shown a token that is signed by HMAC with the
  -- secret and carries one of the roles; any other request gets one reply, the redirection to the
  -- login page or an error, and changes nothing.
  pub guarded-cases :
      (h : Handler S) (ctx : Ctx) (s : S)
      → IsServed h ctx s (guarded h ctx s)
        ⊎ ((e : Effect) × (guarded h ctx s ≡ reply e s)
            × ((e ≡ redirect 302 "/login")
                ⊎ ((code : ℕ) × (m : String) × (e ≡ json code (error m)))))
  unfolding guarded
  guarded-cases h ctx s = elim (jwt_auth-cases j laws secret (require_role roles h) ctx s) [
    | inl refused ↦ inr (elim refused.replied [
      | inl sent ↦ (redirect 302 "/login", sent, inl refl)
      | inr told ↦ (
        json refused.code (error refused.message),
        told,
        inr (refused.code, refused.message, refl),
      )
    ])
    | inr passed ↦ elim (require_role-cases roles h (with_claims passed.claims ctx) s) [
      | inl (admitted, ran) ↦
          let same : some (claim "role" passed.claims) ≡ some (str admitted.role) =
            sym (role_lem passed.claims ctx) ∙ admitted.held in
          inl (record {
            token = passed.token;
            claims = passed.claims;
            role = admitted.role;
            shown = passed.shown;
            signed = passed.signed;
            role_lem = cc same;
            listed = admitted.listed;
            ran = passed.ran ∙ ran;
          })
      | inr denied ↦ inr (
        json denied.code (error denied.message),
        passed.ran ∙ denied.replied,
        inr (denied.code, denied.message, refl),
      )
    ]
  ]
