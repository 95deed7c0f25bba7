-- ===== src/Tests/Sessions.antt =====
-- Login, registration and refresh with a password that is its own hash.
use gorder.Prelude.{String, ◌≡◌, ◌⊎◌, refl, none, [], ◌∷◌, true, string_discrete}
use gorder.Prelude.Decimal.{itoa_from, itoa}
use gorder.Prelude.Result.{Result, ok, err, done, failed}
use gorder.Models.{User}
use gorder.Cache.{new_cache}
use gorder.Http.{Outcome, error, status, json, effects, state_of}
use gorder.Repository.Driver.{no_rows}
use gorder.Repository.Errors.{RepoError, wrapped}
use gorder.Repository.Select.{get_user}
use gorder.Repository.Tables.{Tables, user_query, where_eq}
use gorder.Repository.Interface.{Interface, repository}
use gorder.Handler.Orders.{App}
use gorder.Handler.Session.{
  LoginRequest, RefreshRequest, login_handle, register_handle, refresh_handle,
}
use gorder.Handler.Tokens.{IsIssued, IsRefused, login_handle-cases, register_handle-cases}
use gorder.Handler.Refresh.{IsRenewed, refresh_handle-cases}
use gorder.Tests.Samples.{memory, empty_tables, plain_jwt, plain_jwt_laws, plain_bcrypt, request}

abbrev storage : Interface Tables
storage = repository memory

abbrev app : App Tables
app = record {
  db = record empty_tables {
    users = (7, record { username = "alice"; password_hash = "pw"; role = "user" }) ∷ [];
  };
  cache = new_cache 2 none;
}

abbrev right_login : LoginRequest
right_login = record { username = "alice"; password = "pw" }

abbrev wrong_login : LoginRequest
wrong_login = record { username = "alice"; password = "guess" }

abbrev unknown_login : LoginRequest
unknown_login = record { username = "mallory"; password = "guess" }

abbrev alice : User
alice = record { id = 7; username = "alice"; password_hash = "pw"; role = "user" }

login_handle-cases_example :
    ((user : User) × (storage.get_user "alice" app.db ≡ ok user)
      × (plain_bcrypt.compare user.password_hash "pw" ≡ true)
      × IsIssued storage plain_jwt plain_bcrypt "secret"
          (itoa user.id)
          "alice"
          user.role
          request
          app
          (login_handle storage plain_jwt plain_bcrypt "secret" (ok right_login) request app))
    ⊎ IsRefused storage plain_jwt plain_bcrypt "secret" app
        (login_handle storage plain_jwt plain_bcrypt "secret" (ok right_login) request app)
login_handle-cases_example =
    login_handle-cases storage plain_jwt plain_bcrypt "secret" right_login request app

alice_known : storage.get_user "alice" app.db ≡ ok alice
unfolding get_user string_discrete user_query where_eq
alice_known = refl

mallory_unknown :
    ◌≡◌ {A = Result RepoError User}
      (storage.get_user "mallory" app.db)
      (err (wrapped "failed to find user" no_rows))
unfolding get_user string_discrete user_query where_eq
mallory_unknown = refl

abbrev registered : Outcome (App Tables)
registered = register_handle storage plain_jwt plain_bcrypt "secret" (ok unknown_login) request app

register_handle-cases_example :
    IsRefused storage plain_jwt plain_bcrypt "secret" app registered
    ⊎ ((hash : String) × (user : User) × (plain_bcrypt.generate "guess" ≡ ok hash)
        × (user.username ≡ "mallory")
        × (user.password_hash ≡ hash)
        × (user.role ≡ "user")
        × (state_of registered ≡ record app { db = (storage.create_user user app.db).0 })
        × (((storage.create_user user app.db).1 ≡ done)
              × (effects registered ≡ json 201 (status "created") ∷ [])
            ⊎ ((e : RepoError) × ((storage.create_user user app.db).1 ≡ failed e)
                × (effects registered ≡ json 409 (error "failed to create user in storage") ∷ []))))
register_handle-cases_example =
    register_handle-cases storage plain_jwt plain_bcrypt "secret" unknown_login request app

abbrev token : RefreshRequest
token = record { refresh_token = "secret" }

refresh_handle-cases_example :
    IsRenewed storage plain_jwt plain_bcrypt "secret" "secret" request app
      (refresh_handle storage plain_jwt plain_bcrypt "secret" (ok token) request app)
    ⊎ IsRefused storage plain_jwt plain_bcrypt "secret" app
        (refresh_handle storage plain_jwt plain_bcrypt "secret" (ok token) request app)
refresh_handle-cases_example =
    refresh_handle-cases storage plain_jwt plain_bcrypt "secret" plain_jwt_laws token request app

itoa_two_digits : itoa 42 ≡ "42"
unfolding itoa itoa_from
itoa_two_digits = refl
