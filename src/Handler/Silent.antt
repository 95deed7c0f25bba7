-- ===== src/Handler/Silent.antt =====
-- The handlers that leave the database and the cache as they are, whatever the request and whatever
-- the storage answers.
use gorder.Prelude.{
  ◌*◌, ap, String, ◌≡◌, refl, some, List, Bool, true, false, if◌then◌else◌, str_eq, Option-cases,
  inl, inr,
}
use gorder.Prelude.Decimal.{itoa}
use gorder.Prelude.Dict.{lookup}
use gorder.Prelude.Result.{Result, ok, err, Result-cases, Status}
use gorder.Http.{Ctx, Effect, Outcome, Handler, state_of}
use gorder.Middleware.Jwt.{Jwt, Claims, key_for}
use gorder.Repository.Errors.{RepoError}
use gorder.Repository.Interface.{Interface}
use gorder.Handler.Orders.{
  App, as_string, list_reply, get_all_orders_uid_handle, get_all_user_orders_uid_handle,
}
use gorder.Handler.Pages.{orders_page, all_orders_page_handle}
use gorder.Handler.Session.{
  Bcrypt, LoginRequest, RefreshRequest, string_claim, create_token, minutes, issue, login_handle,
  renew, refresh_handle,
}
use gorder.Handler.System.{Finish, ready_check_handle, ready_check_handle-readiness}

abbrev pub IsSilent : {S : Type 0} → Handler S → Type 0
IsSilent {S = S} h = (ctx : Ctx) (s : S) → state_of (h ctx s) ≡ s

either :
    {S : Type 0} (s : S) (b : Bool) (x y : Outcome S)
    → state_of x ≡ s
    → state_of y ≡ s
    → state_of (if b then x else y) ≡ s
either s true x y p q = p
either s false x y p q = q

module _ {Db : Type 0} (r : Interface Db) where
  pub ready_check_handle-IsSilent :
      (health : Status String) (finish : Finish) → IsSilent (ready_check_handle r health finish)
  ready_check_handle-IsSilent health finish ctx s =
      ap state_of (ready_check_handle-readiness r health finish ctx s)

  list_reply-IsSilent :
      (failure : String → Effect) (success : List String → Effect)
      (result : Result RepoError (List String)) (s : App Db)
      → state_of (list_reply r failure success result s) ≡ s
  unfolding list_reply
  list_reply-IsSilent failure success (ok uids) s = refl
  list_reply-IsSilent failure success (err e) s = refl

  pub get_all_orders_uid_handle-IsSilent : IsSilent (get_all_orders_uid_handle r)
  unfolding get_all_orders_uid_handle
  get_all_orders_uid_handle-IsSilent ctx s = elim (Option-cases (lookup "user_id" ctx.values)) [
    | inl e ↦ rw (get_all_orders_uid_handle, e) refl
    | inr (id, e) ↦ rw (get_all_orders_uid_handle, e) (list_reply-IsSilent _ _ _ s)
  ]

  pub get_all_user_orders_uid_handle-IsSilent : IsSilent (get_all_user_orders_uid_handle r)
  unfolding get_all_user_orders_uid_handle
  get_all_user_orders_uid_handle-IsSilent ctx s =
      elim (Option-cases (lookup "user_id" ctx.values)) [
        | inl e ↦ rw (get_all_user_orders_uid_handle, e) refl
        | inr (id, e) ↦ elim (Option-cases (as_string (lookup "username" ctx.values))) [
          | inl n ↦ rw (get_all_user_orders_uid_handle, e, n) refl
          | inr (name, n) ↦ rw (get_all_user_orders_uid_handle, e, n) (list_reply-IsSilent _ _ _ s)
        ]
      ]

  orders_page-IsSilent :
      (result : Result RepoError (List String)) (s : App Db) → state_of (orders_page r result s) ≡ s
  orders_page-IsSilent (ok uids) s = refl
  orders_page-IsSilent (err e) s = refl

  pub all_orders_page_handle-IsSilent : IsSilent (all_orders_page_handle r)
  unfolding all_orders_page_handle
  all_orders_page_handle-IsSilent ctx s = elim (Option-cases (lookup "user_id" ctx.values)) [
    | inl e ↦ rw (all_orders_page_handle, e) refl
    | inr (id, e) ↦ elim (Option-cases (lookup "role" ctx.values)) [
      | inl n ↦ rw (all_orders_page_handle, e, n) refl
      | inr (role, n) ↦ elim (Option-cases (as_string (some role))) [
        | inl t ↦ rw (all_orders_page_handle, e, n, t) refl
        | inr (name, t) ↦ elim (Option-cases (as_string (lookup "username" ctx.values))) [
          | inl u ↦
              rw (all_orders_page_handle, e, n, t, u)
                (either s (str_eq name "admin") _ _ (orders_page-IsSilent _ s) refl)
          | inr (user, u) ↦
              rw (all_orders_page_handle, e, n, t, u)
                (either s (str_eq name "admin") _ _ (orders_page-IsSilent _ s)
                  (orders_page-IsSilent _ s))
        ]
      ]
    ]
  ]

  module _ (j : Jwt) (b : Bcrypt) (secret : String) where
    issue-IsSilent :
        (no_access no_refresh user_id username role : String)
        → IsSilent (issue r j b secret no_access no_refresh user_id username role)
    unfolding issue
    issue-IsSilent no_access no_refresh user_id username role ctx s =
        elim (Result-cases
          (create_token r j b secret user_id username role "access" (minutes 15) ctx.now)) [
            | inr (e, p) ↦ rw (issue, p) refl
            | inl (access, p) ↦
                elim (Result-cases (
                  create_token r j b secret user_id username role "refresh" (minutes (7 * 24 * 60))
                    ctx.now)) [
                      | inr (e, q) ↦ rw (issue, p, q) refl
                      | inl (refresh, q) ↦ rw (issue, p, q) refl
                    ]
          ]

    pub login_handle-IsSilent :
        (body : Result String LoginRequest) → IsSilent (login_handle r j b secret body)
    unfolding login_handle
    login_handle-IsSilent (err e) ctx s = refl
    login_handle-IsSilent (ok login) ctx s = elim (Result-cases (r.get_user login.username s.db)) [
      | inr (e, p) ↦ rw (login_handle, p) refl
      | inl (user, p) ↦
          rw (login_handle, p)
            (either s (b.compare user.password_hash login.password) _ _
              (issue-IsSilent _ _ (itoa user.id) login.username user.role ctx s) refl)
    ]

    renew-IsSilent : (claims : Claims) → IsSilent (renew r j b secret claims)
    unfolding renew
    renew-IsSilent claims ctx s = elim (Option-cases (string_claim "user_id" claims)) [
      | inl e ↦ rw (renew, e) refl
      | inr (id, e) ↦ elim (Option-cases (string_claim "username" claims)) [
        | inl n ↦ rw (renew, e, n) refl
        | inr (name, n) ↦ elim (Option-cases (string_claim "role" claims)) [
          | inl t ↦ rw (renew, e, n, t) refl
          | inr (role, t) ↦ rw (renew, e, n, t) (issue-IsSilent _ _ id name role ctx s)
        ]
      ]
    ]

    pub refresh_handle-IsSilent :
        (body : Result String RefreshRequest) → IsSilent (refresh_handle r j b secret body)
    unfolding refresh_handle
    refresh_handle-IsSilent (err e) ctx s = refl
    refresh_handle-IsSilent (ok req) ctx s =
        elim (Result-cases (j.parse (key_for secret) req.refresh_token ctx.now)) [
          | inr (e, p) ↦ rw (refresh_handle, p) refl
          | inl (token, p) ↦ elim (Option-cases token.claims) [
            | inl e ↦ rw (refresh_handle, p, e) (either s token.valid _ _ refl refl)
            | inr (claims, e) ↦
                rw (refresh_handle, p, e)
                  (either s token.valid _ _ (renew-IsSilent claims ctx s) refl)
          ]
        ]
