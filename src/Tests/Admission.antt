-- ===== src/Tests/Admission.antt =====
-- A signed-in user, with tokens that are names of two sets of claims.
use gorder.Prelude.{
  String, ◌≡◌, ◌*◌, refl, sym, ap, ◌∙◌, Option, none, some, [], ◌∷◌, Bool, true, false,
  if◌then◌else◌, ◌&&◌, ◌==◌, str_eq, arith, inl, inr, Bool-cases, subst,
}
use text.Mathlib.TextEquality.{eq_iff}
use gorder.Prelude.Result.{Result, ok, err}
use gorder.Http.{Claim, null, str, number, object, Ctx, Outcome, finished, set_cookie, json, status}
use gorder.Middleware.Jwt.{Jwt, JwtLaws, Method, hmac, Token, Claims}
use gorder.Middleware.Auth.{with_claims, bearer}
use gorder.Middleware.Chain.{guarded}
use gorder.Repository.Tables.{Tables}
use gorder.Repository.Interface.{Interface, repository}
use gorder.Handler.Orders.{App, get_all_user_orders_uid_handle}
use gorder.Handler.Session.{token_claims, refresh_handle}
use gorder.Handler.Tokens.{IsIssued}
use gorder.Handler.Admission.{SignLaws, IsIssued-admitted, tokens_interchangeable}
use gorder.GenToken.{test_claims, printed, print_token, gen_token, gen_token-admitted}
use gorder.Tests.Settings.{variables, settings, overload, loaded}
use gorder.Tests.Samples.{memory, plain_bcrypt, request, app}

abbrev eq_claim : Claim → Claim → Bool
eq_claim null null = true
eq_claim null (str _) = false
eq_claim null (number _) = false
eq_claim null object = false
eq_claim (str a) null = false
eq_claim (str a) (str b) = str_eq a b
eq_claim (str a) (number _) = false
eq_claim (str a) object = false
eq_claim (number n) null = false
eq_claim (number n) (str _) = false
eq_claim (number n) (number m) = n == m
eq_claim (number n) object = false
eq_claim object null = false
eq_claim object (str _) = false
eq_claim object (number _) = false
eq_claim object object = true

eq_claim_sound : (a b : Claim) → eq_claim a b ≡ true → a ≡ b
eq_claim_sound null null e = refl
eq_claim_sound null (str _) e = absurd (ground arith)
eq_claim_sound null (number _) e = absurd (ground arith)
eq_claim_sound null object e = absurd (ground arith)
eq_claim_sound (str a) null e = absurd (ground arith)
eq_claim_sound (str a) (str b) e = ap str ((eq_iff a b).0 e)
eq_claim_sound (str a) (number _) e = absurd (ground arith)
eq_claim_sound (str a) object e = absurd (ground arith)
eq_claim_sound (number n) null e = absurd (ground arith)
eq_claim_sound (number n) (str _) e = absurd (ground arith)
eq_claim_sound (number n) (number m) e = let same : n ≡ m = ground arith in ap number same
eq_claim_sound (number n) object e = absurd (ground arith)
eq_claim_sound object null e = absurd (ground arith)
eq_claim_sound object (str _) e = absurd (ground arith)
eq_claim_sound object (number _) e = absurd (ground arith)
eq_claim_sound object object e = refl

abbrev eq_claims : Claims → Claims → Bool
eq_claims [] [] = true
eq_claims [] (_ ∷ _) = false
eq_claims (_ ∷ _) [] = false
eq_claims ((k, v) ∷ m) ((k', v') ∷ m') = str_eq k k' && (eq_claim v v' && eq_claims m m')

and-true : (a b : Bool) → (a && b) ≡ true → (a ≡ true) × (b ≡ true)
and-true true b e = (refl, e)
and-true false b e = absurd (ground arith)

eq_claims_sound : (a b : Claims) → eq_claims a b ≡ true → a ≡ b
eq_claims_sound [] [] e = refl
eq_claims_sound [] (_ ∷ _) e = absurd (ground arith)
eq_claims_sound (_ ∷ _) [] e = absurd (ground arith)
eq_claims_sound ((k, v) ∷ m) ((k', v') ∷ m') e =
    let (p, rest) = and-true (str_eq k k') _ e in
    let (q, left) = and-true (eq_claim v v') (eq_claims m m') rest in
    let key = (eq_iff k k').0 p in
    let value = eq_claim_sound v v' q in
    let tail = eq_claims_sound m m' left in
    ap (λ x. (x, v) ∷ m) key ∙ ap (λ x. (k', x) ∷ m) value ∙ ap (λ x. (k', v') ∷ x) tail

abbrev access_claims : Claims
access_claims = token_claims "7" "alice" "user" "access" (15 * 60) 100

abbrev refresh_claims : Claims
refresh_claims = token_claims "7" "alice" "user" "refresh" (7 * 24 * 60 * 60) 100

module _ (one two : Claims) where
  abbrev sign_two : Claims → Result String String
  sign_two claims =
      if eq_claims claims one
      then ok "access"
      else if eq_claims claims two
      then ok "refresh"
      else err "unknown claims"

  abbrev read_two : Option String → String → Result String Token
  read_two none token = err "signature is invalid"
  read_two (some k) token =
      if str_eq token "access"
      then ok (record { valid = true; claims = some one })
      else if str_eq token "refresh"
      then ok (record { valid = true; claims = some two })
      else err "token is malformed"

  abbrev tokens_for : Jwt
  tokens_for = record {
    parse = λ key token now. read_two (key hmac) token;
    sign = λ claims key. sign_two claims;
    Signed = λ m k token claims. m ≡ hmac;
  }

  read_signed :
      (key : Method → Option String) (token : String) (t : Token) (k : Option String)
      → key hmac ≡ k
      → read_two (key hmac) token ≡ ok t
      → (m : Method) × (k' : String) × (key m ≡ some k') × (m ≡ hmac)
  read_signed key token t none e p =
      let bad : read_two none token ≡ ok t = subst (λ x. read_two x token ≡ ok t) e p in
      absurd (ground arith)
  read_signed key token t (some k) e p = (hmac, k, e, refl)

  tokens_for-JwtLaws : JwtLaws tokens_for
  tokens_for-JwtLaws = record {
    parse_lem = λ key token now t claims p v c. read_signed key token t (key hmac) refl p;
  }

  ok_inj : {a b : String} → ◌≡◌ {A = Result String String} (ok a) (ok b) → a ≡ b
  ok_inj e = cc

  read-sign :
      (claims : Claims) (key token : String)
      → sign_two claims ≡ ok token
      → read_two (some key) token ≡ ok (record { valid = true; claims = some claims })
  read-sign claims key token signed = elim (Bool-cases (eq_claims claims one)) [
    | inl e ↦
        let name : "access" ≡ token = ok_inj (rw e at signed) in
        let same = eq_claims_sound claims one e in
        subst (λ x. read_two (some key) x ≡ ok (record { valid = true; claims = some claims })) name
          (ap (λ (c : Claims). ok (record { valid = true; claims = some c })) (sym same))
    | inr e ↦ elim (Bool-cases (eq_claims claims two)) [
      | inl f ↦
          let name : "refresh" ≡ token = ok_inj (rw (e, f) at signed) in
          let same = eq_claims_sound claims two f in
          subst (λ x. read_two (some key) x ≡ ok (record { valid = true; claims = some claims }))
            name (ap (λ (c : Claims). ok (record { valid = true; claims = some c })) (sym same))
      | inr f ↦ absurd (ground arith)
    ]
  ]

  tokens_for-SignLaws : SignLaws tokens_for
  tokens_for-SignLaws = record {
    sign_lem = λ claims key token expiry now _ _ _ signed. read-sign claims key token signed;
  }

abbrev two_tokens : Jwt
two_tokens = tokens_for access_claims refresh_claims

abbrev storage : Interface Tables
storage = repository memory

abbrev sent : Outcome (App Tables)
sent = finished app (
    set_cookie "access_token" "access" (15 * 60)
    ∷ set_cookie "refresh_token" "refresh" (7 * 24 * 60 * 60)
    ∷ json 200 (status "logged in")
    ∷ [])

abbrev issued :
    IsIssued storage two_tokens plain_bcrypt "secret" "7" "alice" "user" request app sent
issued = record {
  access = "access";
  refresh = "refresh";
  access_lem = refl;
  refresh_lem = refl;
  ran = refl;
}

-- 400 seconds later
abbrev later : Ctx
later = record request { cookie = λ _. some "access"; now = 500 }

IsIssued-admitted_example :
    guarded two_tokens
      (tokens_for-JwtLaws access_claims refresh_claims)
      "secret"
      ("user" ∷ [])
      (get_all_user_orders_uid_handle storage)
      later
      app
    ≡ get_all_user_orders_uid_handle storage
        (with_claims (token_claims "7" "alice" "user" "access" (15 * 60) 100) later)
        app
unfolding bearer
IsIssued-admitted_example =
    IsIssued-admitted storage two_tokens (tokens_for-JwtLaws access_claims refresh_claims)
      (tokens_for-SignLaws access_claims refresh_claims) plain_bcrypt "secret" "7" "alice" "user"
      request later app sent issued ("user" ∷ []) (get_all_user_orders_uid_handle storage) app
      (inl refl) refl refl (omega arith)

-- six days later, with the refresh token as a bearer
abbrev days_later : Ctx
days_later = record request {
  header = λ name. if str_eq name "Authorization" then "Bearer refresh" else "";
  now = 518500;
}

tokens_interchangeable_example :
    (guarded two_tokens
        (tokens_for-JwtLaws access_claims refresh_claims)
        "secret"
        ("user" ∷ [])
        (get_all_user_orders_uid_handle storage)
        days_later
        app
      ≡ get_all_user_orders_uid_handle storage
          (with_claims
            (token_claims "7" "alice" "user" "refresh" (7 * 24 * 60 * 60) 100)
            days_later)
          app)
    × IsIssued storage two_tokens plain_bcrypt "secret" "7" "alice" "user" request app (
        refresh_handle storage two_tokens plain_bcrypt "secret"
          (ok (record { refresh_token = "access" }))
          request
          app)
unfolding bearer
tokens_interchangeable_example =
    tokens_interchangeable storage two_tokens (tokens_for-JwtLaws access_claims refresh_claims)
      (tokens_for-SignLaws access_claims refresh_claims) plain_bcrypt "secret" "7" "alice" "user"
      request days_later request app app sent issued ("user" ∷ [])
      (get_all_user_orders_uid_handle storage) app "access" "refresh" (inl refl)
      (inl ((λ e. cc), refl)) (omega arith) (omega arith) refl refl

abbrev test_tokens : Jwt
test_tokens = tokens_for (test_claims 100) access_claims

printed_access : gen_token test_tokens overload variables 100 ≡ printed "access"
unfolding gen_token print_token
printed_access = refl

gen_token-admitted_example :
    guarded test_tokens
      (tokens_for-JwtLaws (test_claims 100) access_claims)
      settings.jwt_secret
      ("admin" ∷ [])
      (get_all_user_orders_uid_handle storage)
      later
      app
    ≡ get_all_user_orders_uid_handle storage (with_claims (test_claims 100) later) app
unfolding bearer
gen_token-admitted_example =
    gen_token-admitted test_tokens (tokens_for-JwtLaws (test_claims 100) access_claims)
      (tokens_for-SignLaws (test_claims 100) access_claims) overload variables 100 "access" settings
      ("admin" ∷ []) (get_all_user_orders_uid_handle storage) later app printed_access loaded
      (inl refl) (inr (refl, refl)) (omega arith)
