-- ===== src/Middleware/Guard.antt =====
-- Who gets past `JWTAuth` and `RequireRole`, and what the others are told.
use gorder.Prelude.{
  ℕ, String, ◌≡◌, ◌≢◌, ◌↔◌, ◌⊎◌, refl, ap, Option, none, some, List, [], ◌∷◌, Bool, true, false,
  arith, In, inl, inr, if◌then◌else◌, str_eq, Option-cases, Bool-cases,
}
use text.Mathlib.TextEquality.{eq_iff}
use gorder.Prelude.Dict.{lookup}
use gorder.Prelude.Result.{Result, ok, err}
use gorder.Http.{
  Claim, null, str, number, object, Ctx, error, json, redirect, Outcome, Handler, reply,
}
use gorder.Middleware.Jwt.{Jwt, JwtLaws, Token, Claims, hmac, key_for, signed_by_secret}
use gorder.Middleware.Auth.{
  with_claims, refuse, check_token, bearer, jwt_auth, has_role, require_role, contains,
}

-- The loop of `RequireRole` finds exactly the roles of the list.
pub has_role_iff :
    (access : Bool) (role : String) (roles : List String)
    → (has_role access role roles ≡ true) ↔ ((access ≡ true) ⊎ In role roles)
unfolding has_role
has_role_iff access role [] = ground arith
has_role_iff access role (r ∷ roles) =
    ground (arith, has_role_iff (if str_eq role r then true else access) role roles, eq_iff role r)

-- The context carries one of the roles.
pub record IsAdmitted (roles : List String) (ctx : Ctx) : Type 0 where
  pub role : String
  pub held : lookup "role" ctx.values ≡ some (str role)
  pub listed : In role roles

-- A refusal of `RequireRole`.
pub record IsDenied {S : Type 0} (roles : List String) (ctx : Ctx) (s : S) (out : Outcome S)
    : Type 0 where
  pub code : ℕ
  pub message : String
  pub replied : out ≡ reply (json code (error message)) s
  pub known : (code ≡ 401) ⊎ (code ≡ 403) ⊎ (code ≡ 500)
  pub outside : ¬ IsAdmitted roles ctx

-- A refusal of `JWTAuth`: one reply, which sends a browser to the login page and tells any other
-- client a code and a message; the state is as it was.
pub record IsRefusal {S : Type 0} (s : S) (out : Outcome S) : Type 0 where
  pub code : ℕ
  pub message : String
  pub replied :
      (out ≡ reply (redirect 302 "/login") s) ⊎ (out ≡ reply (json code (error message)) s)
  pub known : (code ≡ 401) ⊎ (code ≡ 500)

-- The request's token: that of the Authorization header, or else that of the cookie.
abbrev pub Shows : Ctx → String → Type 0
Shows ctx token =
    ((bearer ctx ≢ "") × (token ≡ bearer ctx))
    ⊎ ((bearer ctx ≡ "") × (ctx.cookie "access_token" ≡ some token))

module _ {S : Type 0} where
  refuse-IsRefusal :
      (code : ℕ) (message : String) (ctx : Ctx) (s : S)
      → (code ≡ 401) ⊎ (code ≡ 500)
      → IsRefusal s (refuse code message ctx s)
  refuse-IsRefusal code message ctx s known =
      elim (Bool-cases (contains (ctx.header "Accept") "text/html")) [
        | inl browser ↦ record {
          code = code;
          message = message;
          replied = inl (rw browser);
          known = known;
        }
        | inr other ↦ record {
          code = code;
          message = message;
          replied = inr (rw other);
          known = known;
        }
      ]

  module _ (j : Jwt) (laws : JwtLaws j) (secret : String) where
    -- The rest of the chain ran, with the claims of a token that is signed with the secret.
    pub record IsPassed (next : Handler S) (ctx : Ctx) (s : S) (out : Outcome S) : Type 0 where
      pub token : String
      pub claims : Claims
      pub shown : Shows ctx token
      pub signed : j.Signed hmac secret token claims
      pub ran : out ≡ next (with_claims claims ctx) s

    check_token-cases :
        (token : String) (next : Handler S) (ctx : Ctx) (s : S)
        → Shows ctx token
        → IsRefusal s (check_token j secret token next ctx s)
          ⊎ IsPassed next ctx s (check_token j secret token next ctx s)
    unfolding check_token
    check_token-cases token next ctx s shown = go (j.parse (key_for secret) token ctx.now) refl
      where
        signed :
            (t : Token) (claims : Claims)
            → j.parse (key_for secret) token ctx.now ≡ ok t
            → t.valid ≡ true
            → t.claims ≡ some claims
            → j.Signed hmac secret token claims
        signed t claims p v c =
            let (m, k, given, sig) = laws.parse_lem (key_for secret) token ctx.now t claims p v c in
            signed_by_secret j secret token claims m k given sig

        go :
            (r : Result String Token)
            → j.parse (key_for secret) token ctx.now ≡ r
            → IsRefusal s (check_token j secret token next ctx s)
              ⊎ IsPassed next ctx s (check_token j secret token next ctx s)
        go (err e) p =
            inl (
              rw (check_token, p)
                (refuse-IsRefusal 401 "Invalid or expired token" ctx s (inl refl)))
        go (ok t) p = elim (Bool-cases t.valid) [
          | inr invalid ↦ inl (
              rw (check_token, p, invalid)
                (refuse-IsRefusal 401 "Invalid or expired token" ctx s (inl refl)))
          | inl valid ↦ elim (Option-cases t.claims) [
            | inl missing ↦ inl (
                rw (check_token, p, valid, missing)
                  (refuse-IsRefusal 500 "Invalid token claims" ctx s (inr refl)))
            | inr (claims, held) ↦ inr (record {
              token = token;
              claims = claims;
              shown = shown;
              signed = signed t claims p valid held;
              ran = rw (check_token, p, valid, held);
            })
          ]
        ]

    -- `JWTAuth` either refuses, with one reply and nothing else done, or runs the rest of the chain
    -- with the claims of the request's token (that of the Authorization header, or else that of the
    -- cookie), which is signed by HMAC with the application's secret.
    pub jwt_auth-cases :
        (next : Handler S) (ctx : Ctx) (s : S)
        → IsRefusal s (jwt_auth j secret next ctx s)
          ⊎ IsPassed next ctx s (jwt_auth j secret next ctx s)
    unfolding jwt_auth
    jwt_auth-cases next ctx s = elim (Bool-cases (str_eq (bearer ctx) "")) [
      | inr given ↦
          rw (jwt_auth, given)
            (check_token-cases (bearer ctx) next ctx s
              (inl ((λ e. let t = (eq_iff (bearer ctx) "").1 e in ground arith), refl)))
      | inl without ↦ elim (Option-cases (ctx.cookie "access_token")) [
        | inl missing ↦ inl (
            rw (jwt_auth, without, missing)
              (refuse-IsRefusal 401 "Failed to read access token from cookie" ctx s (inl refl)))
        | inr (cookie, held) ↦
            rw (jwt_auth, without, held)
              (check_token-cases cookie next ctx s (inr ((eq_iff (bearer ctx) "").0 without, held)))
      ]
    ]

module _ {S : Type 0} (roles : List String) (next : Handler S) (ctx : Ctx) (s : S) where
  role_known :
      (role : String)
      → lookup "role" ctx.values ≡ some (str role)
      → (b : Bool) → has_role false role roles ≡ b
      → (IsAdmitted roles ctx × (require_role roles next ctx s ≡ next ctx s))
        ⊎ IsDenied roles ctx s (require_role roles next ctx s)
  unfolding require_role
  role_known role held true found = elim ((has_role_iff false role roles).0 found) [
    | inl no_start ↦ absurd (ground arith)
    | inr i ↦ inl (record { role = role; held = held; listed = i }, rw (require_role, held, found))
  ]
  role_known role held false missed = inr (record {
    code = 403;
    message = "access denied";
    replied = rw (require_role, held, missed);
    known = inr (inl refl);
    outside = λ a.
        let same : a.role ≡ role = ground (arith, a.held) in
        let found = (has_role_iff false a.role roles).1 (inr a.listed) in
        ground (arith, ap (λ x. has_role false x roles) same);
  })

  role_unknown :
      (code : ℕ) (message : String)
      → require_role roles next ctx s ≡ reply (json code (error message)) s
      → (code ≡ 401) ⊎ (code ≡ 403) ⊎ (code ≡ 500)
      → ((role : String) → lookup "role" ctx.values ≢ some (str role))
      → IsDenied roles ctx s (require_role roles next ctx s)
  role_unknown code message e known absent = record {
    code = code;
    message = message;
    replied = e;
    known = known;
    outside = λ a. absent a.role a.held;
  }

  -- `RequireRole` runs the rest of the chain exactly where the role of the context is one of the
  -- list; otherwise it replies with an error, 401, 403 or 500, and changes nothing.
  pub require_role-cases :
      (IsAdmitted roles ctx × (require_role roles next ctx s ≡ next ctx s))
      ⊎ IsDenied roles ctx s (require_role roles next ctx s)
  unfolding require_role
  require_role-cases = go (lookup "role" ctx.values) refl
    where
      go :
          (v : Option Claim)
          → lookup "role" ctx.values ≡ v
          → (IsAdmitted roles ctx × (require_role roles next ctx s ≡ next ctx s))
            ⊎ IsDenied roles ctx s (require_role roles next ctx s)
      go none p = inr (
          role_unknown 401 "role not found" (rw (require_role, p)) (inl refl)
            (λ role e. ground arith))
      go (some (str role)) p = role_known role p (has_role false role roles) refl
      go (some null) p = inr (
          role_unknown 500 "invalid role type" (rw (require_role, p)) (inr (inr refl))
            (λ role e. ground arith))
      go (some (number n)) p = inr (
          role_unknown 500 "invalid role type" (rw (require_role, p)) (inr (inr refl))
            (λ role e. ground arith))
      go (some object) p = inr (
          role_unknown 500 "invalid role type" (rw (require_role, p)) (inr (inr refl))
            (λ role e. ground arith))
