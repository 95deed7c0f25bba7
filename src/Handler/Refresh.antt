-- ===== src/Handler/Refresh.antt =====
-- `RefreshHandle` of login.go.
use gorder.Prelude.{
  String, ◌≡◌, ◌⊎◌, refl, Option, none, some, arith, inl, inr, Option-cases, Bool-cases,
}
use gorder.Prelude.Dict.{lookup}
use gorder.Prelude.Result.{ok, Result-cases}
use gorder.Http.{Claim, null, number, object, str, Ctx, Outcome}
use gorder.Middleware.Jwt.{Jwt, JwtLaws, Claims, hmac, key_for, signed_by_secret}
use gorder.Repository.Interface.{Interface}
use gorder.Handler.Orders.{App}
use gorder.Handler.Session.{RefreshRequest, Bcrypt, string_claim, renew, refresh_handle}
use gorder.Handler.Tokens.{IsIssued, IsRefused, issue-cases}

string_claim-cases :
    (k : String) (claims : Claims)
    → (string_claim k claims ≡ none)
      ⊎ ((v : String) × (lookup k claims ≡ some (str v)) × (string_claim k claims ≡ some v))
string_claim-cases k claims = go (lookup k claims) refl
  where
    go :
        (v : Option Claim)
        → lookup k claims ≡ v
        → (string_claim k claims ≡ none)
          ⊎ ((v : String) × (lookup k claims ≡ some (str v)) × (string_claim k claims ≡ some v))
    go none p = inl (ground arith)
    go (some (str v)) p = inr (v, p, ground arith)
    go (some null) p = inl (ground arith)
    go (some (number n)) p = inl (ground arith)
    go (some object) p = inl (ground arith)

module _ {Db : Type 0} (r : Interface Db) (j : Jwt) (b : Bcrypt) (secret : String) where
  -- New tokens for claims that are signed with the secret, with their user, name and role.
  pub record IsRenewed (token : String) (ctx : Ctx) (s : App Db) (out : Outcome (App Db))
      : Type 0 where
    pub claims : Claims
    pub user_id : String
    pub username : String
    pub role : String
    pub signed : j.Signed hmac secret token claims
    pub user_id_lem : lookup "user_id" claims ≡ some (str user_id)
    pub username_lem : lookup "username" claims ≡ some (str username)
    pub role_lem : lookup "role" claims ≡ some (str role)
    pub issued : IsIssued r j b secret user_id username role ctx s out

  renew-cases :
      (token : String) (claims : Claims) (ctx : Ctx) (s : App Db)
      → j.Signed hmac secret token claims
      → IsRenewed token ctx s (renew r j b secret claims ctx s)
        ⊎ IsRefused r j b secret s (renew r j b secret claims ctx s)
  unfolding renew
  renew-cases token claims ctx s signed = elim (string_claim-cases "user_id" claims) [
    | inl p ↦ inr (500, "Invalid user id", rw (renew, p))
    | inr (user_id, held, p) ↦ elim (string_claim-cases "username" claims) [
      | inl q ↦ inr (500, "Invalid username", rw (renew, p, q))
      | inr (username, held', q) ↦ elim (string_claim-cases "role" claims) [
        | inl o ↦ inr (500, "Invalid role", rw (renew, p, q, o))
        | inr (role, held'', o) ↦
            elim (issue-cases r j b secret "failed to create new access token"
              "failed to create new refresh token" user_id username role ctx s) [
                | inr refused ↦ inr (rw (renew, p, q, o) refused)
                | inl issued ↦ inl (record {
                  claims = claims;
                  user_id = user_id;
                  username = username;
                  role = role;
                  signed = signed;
                  user_id_lem = held;
                  username_lem = held';
                  role_lem = held'';
                  issued = rw (renew, p, q, o) issued;
                })
              ]
      ]
    ]
  ]

  -- `RefreshHandle` either sends new tokens for the user, the name and the role of a token that is
  -- signed by HMAC with the secret, or replies with an error and changes nothing.
  pub refresh_handle-cases :
      JwtLaws j
      → (req : RefreshRequest) (ctx : Ctx) (s : App Db)
      → IsRenewed req.refresh_token ctx s (refresh_handle r j b secret (ok req) ctx s)
        ⊎ IsRefused r j b secret s (refresh_handle r j b secret (ok req) ctx s)
  unfolding refresh_handle
  refresh_handle-cases laws req ctx s =
      elim (Result-cases (j.parse (key_for secret) req.refresh_token ctx.now)) [
        | inr (e, p) ↦ inr (401, "Invalid or expired token", rw (refresh_handle, p))
        | inl (t, p) ↦ elim (Bool-cases t.valid) [
          | inr bad ↦ inr (401, "Invalid or expired token", rw (refresh_handle, p, bad))
          | inl good ↦ elim (Option-cases t.claims) [
            | inl missing ↦ inr (500, "Invalid token claims", rw (refresh_handle, p, good, missing))
            | inr (claims, held) ↦
                let (m, k, given, sig) =
                  laws.parse_lem (key_for secret) req.refresh_token ctx.now t claims p good held in
                let signed = signed_by_secret j secret req.refresh_token claims m k given sig in
                elim (renew-cases req.refresh_token claims ctx s signed) [
                  | inl renewed ↦ inl (rw (refresh_handle, p, good, held) renewed)
                  | inr refused ↦ inr (rw (refresh_handle, p, good, held) refused)
                ]
          ]
        ]
      ]
