-- ===== src/Handler/Admission.antt =====
-- From login.go to auth.go: what the tokens that are sent at a login are good for.
use gorder.Prelude.{
  ℕ, String, ◌≡◌, ◌<◌, ◌*◌, ◌+◌, refl, ap, ◌∙◌, inr, none, some, List, true, In, string_discrete,
  false,
}
use gorder.Prelude.Dict.{lookup}
use gorder.Prelude.Result.{ok}
use gorder.Http.{str, number, Ctx, Outcome, Handler}
use gorder.Middleware.Jwt.{Jwt, JwtLaws, Claims, key_for}
use gorder.Middleware.Auth.{claim, with_claims, bearer, check_token, require_role}
use gorder.Middleware.Guard.{Shows, has_role_iff}
use gorder.Middleware.Chain.{guarded, role_lem, jwt_auth_shown}
use gorder.Repository.Interface.{Interface}
use gorder.Handler.Orders.{App}
use gorder.Handler.Session.{Bcrypt, token_claims, create_token, issue, renew, refresh_handle}
use gorder.Handler.Tokens.{IsIssued}

-- A token that was signed is valid for the same key until its claims expire, where they name no time
-- before which it is not.
pub record SignLaws (j : Jwt) : Type 0 where
  pub sign_lem :
      (claims : Claims) (key token : String) (expiry now : ℕ)
      → lookup "exp" claims ≡ some (number expiry)
      → lookup "nbf" claims ≡ none
      → now < expiry
      → j.sign claims key ≡ ok token
      → j.parse (key_for key) token now ≡ ok (record { valid = true; claims = some claims })

module _ (user_id username role token_type : String) (ttl issued : ℕ) where
  token_expiry :
      lookup "exp" (token_claims user_id username role token_type ttl issued)
      ≡ some (number (issued + ttl))
  unfolding lookup string_discrete
  token_expiry = refl

  token_no_start : lookup "nbf" (token_claims user_id username role token_type ttl issued) ≡ none
  unfolding lookup string_discrete
  token_no_start = refl

  token_role : claim "role" (token_claims user_id username role token_type ttl issued) ≡ str role
  unfolding lookup string_discrete
  token_role = refl

module _ (j : Jwt) (laws : JwtLaws j) (signs : SignLaws j) (secret : String) where
  -- A token of `createToken`, whatever its type, gets the request that shows it past the guards.
  pub signed-admitted :
      {T : Type 0} (user_id username role token_type : String) (ttl issued : ℕ) (token : String)
      (ctx : Ctx) (roles : List String) (next : Handler T) (t : T)
      → j.sign (token_claims user_id username role token_type ttl issued) secret ≡ ok token
      → In role roles
      → Shows ctx token
      → ctx.now < issued + ttl
      → guarded j laws secret roles next ctx t
        ≡ next (with_claims (token_claims user_id username role token_type ttl issued) ctx) t
  unfolding guarded check_token require_role
  signed-admitted user_id username role token_type ttl issued token ctx roles next t signed listed
        shown fresh =
      let claims = token_claims user_id username role token_type ttl issued in
      let parsed =
        signs.sign_lem claims secret token (issued + ttl) ctx.now
          (token_expiry user_id username role token_type ttl issued)
          (token_no_start user_id username role token_type ttl issued) fresh signed in
      let held : lookup "role" (with_claims claims ctx).values ≡ some (str role) =
        role_lem claims ctx ∙ ap some (token_role user_id username role token_type ttl issued) in
      let found = (has_role_iff false role roles).1 (inr listed) in
      jwt_auth_shown j secret token (require_role roles next) ctx t shown
      ∙ rw (check_token, parsed, require_role, held, found) refl

module _ {Db : Type 0} (r : Interface Db) (j : Jwt) (laws : JwtLaws j) (signs : SignLaws j)
    (b : Bcrypt) (secret : String) where
  -- Whoever has been sent tokens (by `LoginHandle` or by `RefreshHandle`) and shows the access token
  -- as a cookie within fifteen minutes, without a bearer token in the header, gets past the guards of
  -- every group that lists his role, and the handler finds his user ID, name and role in the context.
  pub IsIssued-admitted :
      {T : Type 0} (user_id username role : String) (ctx ctx' : Ctx) (s : App Db)
      (out : Outcome (App Db)) (issued : IsIssued r j b secret user_id username role ctx s out)
      (roles : List String) (next : Handler T) (t : T)
      → In role roles
      → bearer ctx' ≡ ""
      → ctx'.cookie "access_token" ≡ some issued.access
      → ctx'.now < ctx.now + 15 * 60
      → guarded j laws secret roles next ctx' t
        ≡ next (with_claims (token_claims user_id username role "access" (15 * 60) ctx.now) ctx') t
  IsIssued-admitted user_id username role ctx ctx' s out issued roles next t listed no_header cookie
        fresh =
      signed-admitted j laws signs secret user_id username role "access" (15 * 60) ctx.now
        issued.access ctx' roles next t issued.access_lem listed (inr (no_header, cookie)) fresh

  -- The claim "type" does not tell the two tokens apart. Whoever has been sent tokens gets past the
  -- guards of every group that lists his role with the refresh token in place of the access token, as
  -- a bearer or as the cookie, for seven days and not for fifteen minutes; and `RefreshHandle` takes
  -- his access token, while it lasts, for a refresh token: where the two new tokens can be signed it
  -- sends them, for the same user ID, name and role.
  pub tokens_interchangeable :
      {T : Type 0} (user_id username role : String) (ctx ctx' ctx'' : Ctx) (s s'' : App Db)
      (out : Outcome (App Db)) (issued : IsIssued r j b secret user_id username role ctx s out)
      (roles : List String) (next : Handler T) (t : T) (access refresh : String)
      → In role roles
      → Shows ctx' issued.refresh
      → ctx'.now < ctx.now + 7 * 24 * 60 * 60
      → ctx''.now < ctx.now + 15 * 60
      → j.sign (token_claims user_id username role "access" (15 * 60) ctx''.now) secret ≡ ok access
      → j.sign (token_claims user_id username role "refresh" (7 * 24 * 60 * 60) ctx''.now) secret
        ≡ ok refresh
      → (guarded j laws secret roles next ctx' t
          ≡ next
              (with_claims
                (token_claims user_id username role "refresh" (7 * 24 * 60 * 60) ctx.now)
                ctx')
              t)
        × IsIssued r j b secret user_id username role ctx'' s''
            (refresh_handle r j b secret (ok (record { refresh_token = issued.access })) ctx'' s'')
  unfolding refresh_handle renew issue create_token lookup string_discrete
  tokens_interchangeable user_id username role ctx ctx' ctx'' s s'' out issued roles next t access
        refresh listed shown in_time fresh signed signed' =
      let parsed =
        signs.sign_lem (token_claims user_id username role "access" (15 * 60) ctx.now) secret
          issued.access (ctx.now + 15 * 60) ctx''.now
          (token_expiry user_id username role "access" (15 * 60) ctx.now)
          (token_no_start user_id username role "access" (15 * 60) ctx.now) fresh
          issued.access_lem in
      (
        signed-admitted j laws signs secret user_id username role "refresh" (7 * 24 * 60 * 60)
            ctx.now issued.refresh ctx' roles next t issued.refresh_lem listed shown in_time,
        record {
          access = access;
          refresh = refresh;
          access_lem = signed;
          refresh_lem = signed';
          ran = rw (refresh_handle, parsed, issue, create_token, signed, signed');
        },
      )
