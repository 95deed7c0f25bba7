-- ===== src/GenToken.antt =====
-- cmd/gen-token/main.go: the command that prints a token of an admin for tests. The file is read by
-- godotenv as in internal/config/config.go, and golang-jwt signs.
use gorder.Prelude.{
  ℕ, ◌+◌, ◌*◌, ◌<◌, ◌≡◌, refl, sym, ap, ◌∙◌, subst, inl, inr, none, some, String, List, [], ◌∷◌, In,
  false, str_eq, if◌then◌else◌, string_discrete, arith,
}
use gorder.Prelude.Dict.{lookup}
use gorder.Prelude.Result.{Result, ok, err, Result-cases}
use gorder.Http.{str, number, Ctx, Handler}
use gorder.Config.{Config, Env, LoadError, not_exist, unreadable, load_env, load}
use gorder.Config.Validation.{load_env_iff}
use gorder.Middleware.Jwt.{Jwt, JwtLaws, Claims}
use gorder.Middleware.Auth.{claim, with_claims, check_token, require_role}
use gorder.Middleware.Guard.{Shows, has_role_iff}
use gorder.Middleware.Chain.{guarded, role_lem, jwt_auth_shown}
use gorder.Handler.Admission.{SignLaws}

-- what the command ends with
pub data Exit : Type 0 where
  exited : ℕ → Exit
  printed : String → Exit

abbrev pub hours : ℕ → ℕ
hours n = n * 3600

abbrev pub test_claims : ℕ → Claims
test_claims now =
    ("sub", str "test-user")
    ∷ ("iat", number now)
    ∷ ("exp", number (now + hours 24))
    ∷ ("user_id", str "test-user")
    ∷ ("username", str "tester")
    ∷ ("role", str "admin")
    ∷ []

module _ (j : Jwt) where
  -- `main` once the file has been read or passed over
  unfoldable pub print_token : Env → ℕ → Exit
  print_token getenv now =
      if str_eq (getenv "JWT_SECRET") ""
      then exited 1
      else (elim (j.sign (test_claims now) (getenv "JWT_SECRET")) [
        | err _ ↦ exited 1
        | ok signed ↦ printed signed
      ])

  unfoldable pub gen_token : (String → Env → Result LoadError Env) → Env → ℕ → Exit
  gen_token overload env now = elim (overload ".env" env) [
    | ok env' ↦ print_token env' now
    | err e ↦ elim e [ unreadable _ ↦ exited 1 | not_exist ↦ print_token env now ]
  ]

  print_token-printed :
      (getenv : Env) (now : ℕ) (token : String)
      → print_token getenv now ≡ printed token
      → j.sign (test_claims now) (getenv "JWT_SECRET") ≡ ok token
  unfolding print_token
  print_token-printed getenv now token e = ground arith

  secret_lem :
      (getenv : Env) (cfg : Config)
      → load_env getenv ≡ ok cfg
      → cfg.jwt_secret ≡ getenv "JWT_SECRET"
  secret_lem getenv cfg e = ap (λ (c : Config). c.jwt_secret) ((load_env_iff getenv cfg).0 e).same

  -- The command and the server that start from one environment have one secret.
  printed-signed :
      (overload : String → Env → Result LoadError Env) (env : Env) (now : ℕ) (token : String)
      (cfg : Config)
      → gen_token overload env now ≡ printed token
      → load overload ".env" env ≡ ok cfg
      → j.sign (test_claims now) cfg.jwt_secret ≡ ok token
  unfolding gen_token load
  printed-signed overload env now token cfg e l = elim (Result-cases (overload ".env" env)) [
    | inl (env', p) ↦ signed env' (rw (gen_token, p) at e) (rw (load, p) at l)
    | inr (not_exist, p) ↦ signed env (rw (gen_token, p) at e) (rw (load, p) at l)
    | inr (unreadable x, p) ↦
        let bad : exited 1 ≡ printed token = rw (gen_token, p) at e in absurd (ground arith)
  ]
    where
      signed :
          (getenv : Env)
          → print_token getenv now ≡ printed token
          → load_env getenv ≡ ok cfg
          → j.sign (test_claims now) cfg.jwt_secret ≡ ok token
      signed getenv e l =
          subst (λ secret. j.sign (test_claims now) secret ≡ ok token)
            (sym (secret_lem getenv cfg l)) (print_token-printed getenv now token e)

test_expiry : (now : ℕ) → lookup "exp" (test_claims now) ≡ some (number (now + hours 24))
unfolding lookup string_discrete
test_expiry now = refl

test_role : (now : ℕ) → claim "role" (test_claims now) ≡ str "admin"
unfolding lookup string_discrete
test_role now = refl

test_no_start : (now : ℕ) → lookup "nbf" (test_claims now) ≡ none
unfolding lookup string_discrete
test_no_start now = refl

module _ (j : Jwt) (laws : JwtLaws j) (signs : SignLaws j) where
  -- For 24 hours the token that the command prints gets past the guards of every group that lists
  -- the role admin, in the header or in the cookie, on a server that loads its configuration from the
  -- same file and environment; the handler then finds the claims of the command in the context.
  pub gen_token-admitted :
      {S : Type 0} (overload : String → Env → Result LoadError Env) (env : Env) (now : ℕ)
      (token : String) (cfg : Config) (roles : List String) (next : Handler S) (ctx : Ctx) (s : S)
      → gen_token j overload env now ≡ printed token
      → load overload ".env" env ≡ ok cfg
      → In "admin" roles
      → Shows ctx token
      → ctx.now < now + 24 * 60 * 60
      → guarded j laws cfg.jwt_secret roles next ctx s ≡ next (with_claims (test_claims now) ctx) s
  unfolding guarded check_token require_role
  gen_token-admitted overload env now token cfg roles next ctx s e l listed shown fresh =
      let claims = test_claims now in
      let signed = printed-signed j overload env now token cfg e l in
      let parsed =
        signs.sign_lem claims cfg.jwt_secret token (now + hours 24) ctx.now (test_expiry now)
          (test_no_start now) fresh signed in
      let held : lookup "role" (with_claims claims ctx).values ≡ some (str "admin") =
        role_lem claims ctx ∙ ap some (test_role now) in
      let found = (has_role_iff false "admin" roles).1 (inr listed) in
      jwt_auth_shown j cfg.jwt_secret token (require_role roles next) ctx s shown
      ∙ rw (check_token, parsed, require_role, held, found) refl
