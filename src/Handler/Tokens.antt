-- ===== src/Handler/Tokens.antt =====
-- Who is given tokens by login.go, and what they say.
use gorder.Prelude.{ℕ, ◌*◌, String, ◌≡◌, ◌⊎◌, refl, [], ◌∷◌, true, false, inl, inr, Bool-cases}
use gorder.Prelude.Decimal.{itoa}
use gorder.Prelude.Result.{ok, err, done, failed, Result-cases, Status-cases}
use gorder.Http.{Ctx, error, status, json, set_cookie, Outcome, finished, reply, effects, state_of}
use gorder.Models.{User}
use gorder.Middleware.Jwt.{Jwt}
use gorder.Repository.Interface.{Interface}
use gorder.Repository.Errors.{RepoError}
use gorder.Handler.Orders.{App}
use gorder.Handler.Session.{
  LoginRequest, Bcrypt, token_claims, create_token, issue, login_handle, register_handle,
}

module _ {Db : Type 0} (r : Interface Db) (j : Jwt) (b : Bcrypt) (secret : String) where
  -- The three effects of a successful login or refresh, with the two tokens signed for the user.
  pub record IsIssued (user_id username role : String) (ctx : Ctx) (s : App Db)
      (out : Outcome (App Db)) : Type 0 where
    pub access : String
    pub refresh : String
    pub access_lem :
        j.sign (token_claims user_id username role "access" (15 * 60) ctx.now) secret ≡ ok access
    pub refresh_lem :
        j.sign (token_claims user_id username role "refresh" (7 * 24 * 60 * 60) ctx.now) secret
        ≡ ok refresh
    pub ran :
        out
        ≡ finished s (
            set_cookie "access_token" access (15 * 60)
            ∷ set_cookie "refresh_token" refresh (7 * 24 * 60 * 60)
            ∷ json 200 (status "logged in")
            ∷ [])

  -- One error reply, and nothing changed.
  abbrev pub IsRefused : App Db → Outcome (App Db) → Type 0
  IsRefused s out = (code : ℕ) × (message : String) × (out ≡ reply (json code (error message)) s)

  pub issue-cases :
      (m m' user_id username role : String) (ctx : Ctx) (s : App Db)
      → IsIssued user_id username role ctx s (issue r j b secret m m' user_id username role ctx s)
        ⊎ IsRefused s (issue r j b secret m m' user_id username role ctx s)
  unfolding issue create_token
  issue-cases m m' user_id username role ctx s =
      let first = j.sign (token_claims user_id username role "access" (15 * 60) ctx.now) secret in
      let second =
        j.sign (token_claims user_id username role "refresh" (7 * 24 * 60 * 60) ctx.now) secret in
      elim (Result-cases first) [
        | inr (e, p) ↦ inr (500, m, rw (issue, create_token, p))
        | inl (access, p) ↦ elim (Result-cases second) [
          | inr (e, q) ↦ inr (500, m', rw (issue, create_token, p, q))
          | inl (refresh, q) ↦ inl (record {
            access = access;
            refresh = refresh;
            access_lem = p;
            refresh_lem = q;
            ran = rw (issue, create_token, p, q);
          })
        ]
      ]

  -- `LoginHandle` either sends tokens for a user that the storage knows by the given name, with the
  -- stored role, after bcrypt has accepted the password for the stored hash; or it replies with an
  -- error and changes nothing.
  pub login_handle-cases :
      (login : LoginRequest) (ctx : Ctx) (s : App Db)
      → ((user : User) × (r.get_user login.username s.db ≡ ok user)
          × (b.compare user.password_hash login.password ≡ true)
          × IsIssued
              (itoa user.id)
              login.username
              user.role
              ctx
              s
              (login_handle r j b secret (ok login) ctx s))
        ⊎ IsRefused s (login_handle r j b secret (ok login) ctx s)
  unfolding login_handle
  login_handle-cases login ctx s = elim (Result-cases (r.get_user login.username s.db)) [
    | inr (e, p) ↦ inr (401, "invalid username or password", rw (login_handle, p))
    | inl (user, p) ↦ elim (Bool-cases (b.compare user.password_hash login.password)) [
      | inr wrong ↦ inr (401, "invalid username or password", rw (login_handle, p, wrong))
      | inl right ↦
          elim (issue-cases "failed to create access token" "failed to create refresh token"
            (itoa user.id) login.username user.role ctx s) [
              | inl issued ↦ inl (user, p, right, rw (login_handle, p, right) issued)
              | inr refused ↦ inr (rw (login_handle, p, right) refused)
            ]
    ]
  ]

  -- A name that the storage does not know and a wrong password for one that it knows are answered
  -- alike: the reply does not tell which names exist.
  pub login_handle-uniform :
      (login login' : LoginRequest) (ctx ctx' : Ctx) (s : App Db) (e : RepoError) (user : User)
      → r.get_user login.username s.db ≡ err e
      → r.get_user login'.username s.db ≡ ok user
      → b.compare user.password_hash login'.password ≡ false
      → login_handle r j b secret (ok login) ctx s ≡ login_handle r j b secret (ok login') ctx' s
  unfolding login_handle
  login_handle-uniform login login' ctx ctx' s e user unknown known wrong =
      rw (login_handle, unknown, known, wrong)

  -- `RegisterHandle` stores nothing, or asks the storage for a user with the given name, the role
  -- "user" and a hash that bcrypt made of the password; it replies 201 exactly when the storage has
  -- accepted the user.
  pub register_handle-cases :
      (req : LoginRequest) (ctx : Ctx) (s : App Db)
      → IsRefused s (register_handle r j b secret (ok req) ctx s)
        ⊎ ((hash : String) × (user : User) × (b.generate req.password ≡ ok hash)
            × (user.username ≡ req.username)
            × (user.password_hash ≡ hash)
            × (user.role ≡ "user")
            × (state_of (register_handle r j b secret (ok req) ctx s)
                ≡ record s { db = (r.create_user user s.db).0 })
            × (((r.create_user user s.db).1 ≡ done)
                  × (effects (register_handle r j b secret (ok req) ctx s)
                      ≡ json 201 (status "created") ∷ [])
                ⊎ ((e : RepoError) × ((r.create_user user s.db).1 ≡ failed e)
                    × (effects (register_handle r j b secret (ok req) ctx s)
                        ≡ json 409 (error "failed to create user in storage") ∷ []))))
  unfolding register_handle
  register_handle-cases req ctx s = elim (Result-cases (b.generate req.password)) [
    | inr (e, p) ↦ inl (500, "failed to hash password", rw (register_handle, p))
    | inl (hash, p) ↦
        let user : User = record {
          id = 0;
          username = req.username;
          password_hash = hash;
          role = "user";
        } in
        elim (Status-cases (r.create_user user s.db).1) [
          | inl accepted ↦ inr (
            hash,
            user,
            p,
            refl,
            refl,
            refl,
            rw (register_handle, p, accepted),
            inl (accepted, rw (register_handle, p, accepted)),
          )
          | inr (e, rejected) ↦ inr (
            hash,
            user,
            p,
            refl,
            refl,
            refl,
            rw (register_handle, p, rejected),
            inr (e, rejected, rw (register_handle, p, rejected)),
          )
        ]
  ]
