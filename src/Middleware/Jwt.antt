-- ===== src/Middleware/Jwt.antt =====
-- What the code relies on in golang-jwt: parsing with a function that chooses the key by the
-- signing method, and signing. Both are parameters; `Signed` says that a token carries a signature
-- over its claims by a method and a key.
use gorder.Prelude.{ℕ, String, ◌≡◌, Option, none, some, List, Bool, true, arith}
use gorder.Prelude.Result.{Result, ok}
use gorder.Http.{Claim}

pub data Method : Type 0 where
  hmac : Method
  other_method : Method

abbrev pub Claims : Type 0
Claims = List (String × Claim)

-- `claims` is `none` where the claims are no `jwt.MapClaims`.
pub record Token : Type 0 where
  pub valid : Bool
  pub claims : Option Claims

pub record Jwt : Type 1 where
  -- the key function, the token and the time
  pub parse : (Method → Option String) → String → ℕ → Result String Token
  -- `SigningMethodHS256`: the claims and the key
  pub sign : Claims → String → Result String String
  pub Signed : Method → String → String → Claims → Type 0

pub record JwtLaws (j : Jwt) : Type 1 where
  -- A token that is parsed as valid was signed with a key that the key function gave.
  pub parse_lem :
      (key : Method → Option String) (token : String) (now : ℕ) (t : Token) (claims : Claims)
      → j.parse key token now ≡ ok t
      → t.valid ≡ true
      → t.claims ≡ some claims
      → (m : Method) × (k : String) × (key m ≡ some k) × j.Signed m k token claims

-- the key function of auth.go and login.go
abbrev pub key_for : String → Method → Option String
key_for secret hmac = some secret
key_for secret other_method = none

-- With the key function of the source only HMAC with the secret is left.
pub signed_by_secret :
    (j : Jwt) (secret token : String) (claims : Claims) (m : Method) (k : String)
    → key_for secret m ≡ some k
    → j.Signed m k token claims
    → j.Signed hmac secret token claims
signed_by_secret j secret token claims hmac k given sig = let same : secret ≡ k = cc in rw same sig
signed_by_secret j secret token claims other_method k given sig = absurd (ground arith)
