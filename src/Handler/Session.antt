-- ===== src/Handler/Session.antt =====
-- internal/handler/login.go. bcrypt and golang-jwt are parameters, and so is gin's JSON binding of
-- the body; log lines, and the text that `%s` adds to a message, are left out.
use gorder.Prelude.{ℕ, ◌+◌, ◌*◌, String, Option, none, some, [], ◌∷◌, Bool, if◌then◌else◌}
use gorder.Prelude.Decimal.{itoa}
use gorder.Prelude.Dict.{lookup}
use gorder.Prelude.Result.{Result, ok, err, done, failed}
use gorder.Http.{
  str, number, error, status, empty, json, html, set_cookie, clear_cookie, finished, Handler, reply,
}
use gorder.Models.{User}
use gorder.Middleware.Jwt.{Jwt, Claims, key_for}
use gorder.Repository.Interface.{Interface}
use gorder.Handler.Orders.{App}

-- internal/dto/dto.go
pub record LoginRequest : Type 0 where
  pub username : String
  pub password : String

pub record RefreshRequest : Type 0 where
  pub refresh_token : String

-- What the code uses of bcrypt.
pub record Bcrypt : Type 0 where
  pub compare : String → String → Bool
  pub generate : String → Result String String

abbrev pub minutes : ℕ → ℕ
minutes n = n * 60

abbrev pub token_claims : String → String → String → String → ℕ → ℕ → Claims
token_claims user_id username role token_type ttl now =
    ("user_id", str user_id)
    ∷ ("username", str username)
    ∷ ("role", str role)
    ∷ ("type", str token_type)
    ∷ ("iat", number now)
    ∷ ("exp", number (now + ttl))
    ∷ []

-- `claims["…"].(string)` with its second result
abbrev pub string_claim : String → Claims → Option String
string_claim k claims = elim (lookup k claims) [
  | none ↦ none
  | some v ↦ elim v [ str x ↦ some x | _ ↦ none ]
]

module _ {Db : Type 0} (r : Interface Db) (j : Jwt) (b : Bcrypt) (secret : String) where
  unfoldable pub create_token : String → String → String → String → ℕ → ℕ → Result String String
  create_token user_id username role token_type ttl now =
      j.sign (token_claims user_id username role token_type ttl now) secret

  -- the two tokens, each with its error, and the cookies
  unfoldable pub issue : String → String → String → String → String → Handler (App Db)
  issue no_access no_refresh user_id username role ctx s =
      elim (create_token user_id username role "access" (minutes 15) ctx.now) [
        | err e ↦ reply (json 500 (error no_access)) s
        | ok access ↦
            elim (create_token user_id username role "refresh" (minutes (7 * 24 * 60)) ctx.now) [
              | err e ↦ reply (json 500 (error no_refresh)) s
              | ok refresh ↦ finished s (
                  set_cookie "access_token" access 900
                  ∷ set_cookie "refresh_token" refresh 604800
                  ∷ json 200 (status "logged in")
                  ∷ [])
            ]
      ]

  unfoldable pub login_handle : Result String LoginRequest → Handler (App Db)
  login_handle (err e) ctx s = reply (json 400 (error "failed to bind json to struct")) s
  login_handle (ok login) ctx s = elim (r.get_user login.username s.db) [
    | err e ↦ reply (json 401 (error "invalid username or password")) s
    | ok user ↦
        if b.compare user.password_hash login.password
        then issue "failed to create access token" "failed to create refresh token" (itoa user.id)
            login.username user.role ctx s
        else reply (json 401 (error "invalid username or password")) s
  ]

  abbrev pub logout_handle : Handler (App Db)
  logout_handle ctx s = finished s (
      clear_cookie "access_token"
      ∷ clear_cookie "refresh_token"
      ∷ json 200 (status "logged out")
      ∷ [])

  abbrev pub login_page_handle : Handler (App Db)
  login_page_handle ctx = reply (html 200 "login.html" empty)

  abbrev pub register_page_handle : Handler (App Db)
  register_page_handle ctx = reply (html 200 "register.html" empty)

  unfoldable pub register_handle : Result String LoginRequest → Handler (App Db)
  register_handle (err e) ctx s = reply (json 400 (error "failed to bind json to struct")) s
  register_handle (ok req) ctx s = elim (b.generate req.password) [
    | err e ↦ reply (json 500 (error "failed to hash password")) s
    | ok hash ↦
        let user : User = record {
          id = 0;
          username = req.username;
          password_hash = hash;
          role = "user";
        } in
        let (db, result) = r.create_user user s.db in
        elim result [
          | done ↦ reply (json 201 (status "created")) (record s { db = db })
          | failed e ↦
              reply (json 409 (error "failed to create user in storage")) (record s { db = db })
        ]
  ]

  -- the new pair for the claims of a refresh token
  unfoldable pub renew : Claims → Handler (App Db)
  renew claims ctx s = elim (string_claim "user_id" claims) [
    | none ↦ reply (json 500 (error "Invalid user id")) s
    | some user_id ↦ elim (string_claim "username" claims) [
      | none ↦ reply (json 500 (error "Invalid username")) s
      | some username ↦ elim (string_claim "role" claims) [
        | none ↦ reply (json 500 (error "Invalid role")) s
        | some role ↦
            issue "failed to create new access token" "failed to create new refresh token" user_id
              username role ctx s
      ]
    ]
  ]

  unfoldable pub refresh_handle : Result String RefreshRequest → Handler (App Db)
  refresh_handle (err e) ctx s = reply (json 400 (error "failed to bind json to struct")) s
  refresh_handle (ok req) ctx s = elim (j.parse (key_for secret) req.refresh_token ctx.now) [
    | err e ↦ reply (json 401 (error "Invalid or expired token")) s
    | ok token ↦
        if token.valid
        then (elim token.claims [
          | none ↦ reply (json 500 (error "Invalid token claims")) s
          | some claims ↦ renew claims ctx s
        ])
        else reply (json 401 (error "Invalid or expired token")) s
  ]
