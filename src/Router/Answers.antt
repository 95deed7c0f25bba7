-- ===== src/Router/Answers.antt =====
-- What a request to a protected route of app.go gets: one reply, and no panic.
use gorder.Prelude.{
  ◌&◌, ℕ, String, ◌≡◌, refl, ◌∙◌, ap, some, none, List, [], Bool, true, false, if◌then◌else◌,
  str_eq, All, All_In, In, inl, inr,
}
use gorder.Prelude.Result.{Result, ok, err}
use gorder.Http.{str, Ctx, Effect, Outcome, Handler, Middleware, reply}
use gorder.Middleware.Jwt.{JwtLaws, Claims, hmac}
use gorder.Middleware.Auth.{claim, with_claims}
use gorder.Middleware.Chain.{guarded, guarded-cases, role_lem, username_lem, user_id_lem}
use gorder.Cache.Trace.{Fits}
use gorder.Models.{Order}
use gorder.Repository.Errors.{RepoError}
use gorder.Repository.Interface.{Interface, ReadLaws}
use gorder.Handler.Orders.{
  App, list_reply, get_order_by_uid_handle, get_user_order_by_uid_handle, get_all_orders_uid_handle,
  get_all_user_orders_uid_handle,
}
use gorder.Handler.Pages.{orders_page, all_orders_page_handle, order_page_handle}
use gorder.Handler.Access.{get_order_by_uid_handle-uid, get_user_order_by_uid_handle-owned}
use gorder.Handler.PageAccess.{IsSignedIn, order_page_handle-owned}
use gorder.Router.{Server, Route, handler, serve, group, create_router}
use gorder.Router.Guards.{required}

-- The handlers wrote one reply and did not panic.
pub record IsReplied {S : Type 0} (out : Outcome S) : Type 0 where
  pub effect : Effect
  pub state : S
  pub ran : out ≡ reply effect state

one_reply : {S : Type 0} (e : Effect) (s : S) → IsReplied (reply e s)
one_reply e s = record { effect = e; state = s; ran = refl }

either_reply :
    {S : Type 0} (b : Bool) (x y : Outcome S)
    → IsReplied x
    → IsReplied y
    → IsReplied (if b then x else y)
either_reply true x y p q = p
either_reply false x y p q = q

module _ {Db : Type 0} (r : Interface Db) (laws : ReadLaws r) (capacity : ℕ) where
  -- The handler answers whoever is signed in.
  abbrev Answers : Handler (App Db) → Type 0
  Answers h =
      (ctx : Ctx) (s : App Db) (os : List Order)
      → Fits capacity s.cache os
      → (role name : String) → IsSignedIn r capacity ctx role name
      → IsReplied (h ctx s)

  list_reply-IsReplied :
      (failure : String → Effect) (success : List String → Effect)
      (result : Result RepoError (List String)) (s : App Db)
      → IsReplied (list_reply r failure success result s)
  unfolding list_reply
  list_reply-IsReplied failure success (ok uids) s = one_reply _ s
  list_reply-IsReplied failure success (err e) s = one_reply _ s

  orders_page-IsReplied :
      (result : Result RepoError (List String)) (s : App Db) → IsReplied (orders_page r result s)
  orders_page-IsReplied (ok uids) s = one_reply _ s
  orders_page-IsReplied (err e) s = one_reply _ s

  get_all_orders_uid_handle-Answers : Answers (get_all_orders_uid_handle r)
  unfolding get_all_orders_uid_handle
  get_all_orders_uid_handle-Answers ctx s os fits role name who =
      rw (get_all_orders_uid_handle, who.user_id) (list_reply-IsReplied _ _ _ s)

  get_all_user_orders_uid_handle-Answers : Answers (get_all_user_orders_uid_handle r)
  unfolding get_all_user_orders_uid_handle
  get_all_user_orders_uid_handle-Answers ctx s os fits role name who =
      rw (get_all_user_orders_uid_handle, who.user_id, who.username) (list_reply-IsReplied _ _ _ s)

  all_orders_page_handle-Answers : Answers (all_orders_page_handle r)
  unfolding all_orders_page_handle
  all_orders_page_handle-Answers ctx s os fits role name who =
      rw (all_orders_page_handle, who.user_id, who.role_lem, who.username)
        (either_reply (str_eq role "admin") _ _ (orders_page-IsReplied _ s)
          (orders_page-IsReplied _ s))

  order_page_handle-Answers : Answers (order_page_handle r)
  order_page_handle-Answers ctx s os fits role name who =
      let sent = order_page_handle-owned r capacity ctx s os fits laws role name who in
      record { effect = sent.effect; state = sent.state; ran = sent.ran }

  get_order_by_uid_handle-Answers : Answers (get_order_by_uid_handle r)
  get_order_by_uid_handle-Answers ctx s os fits role name who =
      let sent = get_order_by_uid_handle-uid r laws capacity ctx s os fits who.id who.user_id in
      record { effect = sent.effect; state = sent.state; ran = sent.ran }

  get_user_order_by_uid_handle-Answers : Answers (get_user_order_by_uid_handle r)
  get_user_order_by_uid_handle-Answers ctx s os fits role name who =
      let sent =
        get_user_order_by_uid_handle-owned r laws capacity ctx s os fits who.id name who.user_id
          who.username in
      record { effect = sent.effect; state = sent.state; ran = sent.ran }

module _ {S : Type 0} (h : Handler S) (ctx : Ctx) (s : S) where
  handler-IsReplied : IsReplied (h ctx s) → IsReplied (handler h (serve []) ctx s)
  unfolding handler serve
  handler-IsReplied sent = record {
    effect = sent.effect;
    state = sent.state;
    ran = rw (handler, sent.ran) refl;
  }

module _ {Db : Type 0} (srv : Server Db) (laws : JwtLaws srv.j) (reads : ReadLaws srv.r)
    (capacity : ℕ)
    (names : (token : String) (claims : Claims)
      → srv.j.Signed hmac srv.secret token claims
      → (name : String) × (claim "username" claims ≡ str name)) where
  abbrev Replies : List (Middleware (App Db)) → Type 0
  Replies chain =
      (ctx : Ctx) (s : App Db) (os : List Order)
      → Fits capacity s.cache os
      → IsReplied (serve chain ctx s)

  group-Replies :
      (roles : List String) (h : Handler (App Db))
      → Answers srv.r reads capacity h
      → Replies (group srv roles h)
  unfolding serve guarded
  group-Replies roles h answers ctx s os fits =
      elim (guarded-cases srv.j laws srv.secret roles (handler h (serve [])) ctx s) [
        | inr (e, sent, _) ↦ record { effect = e; state = s; ran = sent }
        | inl served ↦
            let (name, named) = names served.token served.claims served.signed in
            let who : IsSignedIn srv.r capacity (with_claims served.claims ctx) served.role name =
              record {
                id = claim "user_id" served.claims;
                user_id = user_id_lem served.claims ctx;
                role_lem = role_lem served.claims ctx ∙ ap some served.role_lem;
                username = username_lem served.claims ctx ∙ ap some named;
              } in
            let sent =
              handler-IsReplied h (with_claims served.claims ctx) s
                (answers (with_claims served.claims ctx) s os fits served.role name who) in
            record { effect = sent.effect; state = sent.state; ran = served.ran ∙ sent.ran }
      ]

  abbrev Protects : Route (App Db) → Type 0
  Protects route = (roles : List String) → required route.path ≡ some roles → Replies route.chain

  public_path :
      (path : String) (chain : List (Middleware (App Db)))
      → required path ≡ none
      → (roles : List String) → required path ≡ some roles
      → Replies chain
  public_path path chain e roles e' = cc

  create_router-Protects : All Protects (create_router srv)
  unfolding create_router
  create_router-Protects =
      public_path "/health/live" _ refl
      & public_path "/health/ready" _ refl
      & public_path "/api/version" _ refl
      & public_path "/login" _ refl
      & public_path "/login" _ refl
      & public_path "/logout" _ refl
      & public_path "/register" _ refl
      & public_path "/register" _ refl
      & public_path "/refresh" _ refl
      & (λ _ _. group-Replies _ _ (all_orders_page_handle-Answers srv.r reads capacity))
      & (λ _ _. group-Replies _ _ (order_page_handle-Answers srv.r reads capacity))
      & (λ _ _. group-Replies _ _ (get_order_by_uid_handle-Answers srv.r reads capacity))
      & (λ _ _. group-Replies _ _ (get_all_orders_uid_handle-Answers srv.r reads capacity))
      & (λ _ _. group-Replies _ _ (get_user_order_by_uid_handle-Answers srv.r reads capacity))
      & (λ _ _. group-Replies _ _ (get_all_user_orders_uid_handle-Answers srv.r reads capacity))
      & tt

  -- Where every token that is signed with the secret names its user by a text, a request to a route
  -- under /api/admin, under /api/user, or of the pages / and /:uid, over a sound cache, gets one reply
  -- and meets no panic, whatever the request is and whatever the storage answers.
  pub create_router-replies :
      (route : Route (App Db))
      → In route (create_router srv)
      → (roles : List String) → required route.path ≡ some roles
      → (ctx : Ctx) (s : App Db) (os : List Order) → Fits capacity s.cache os
      → IsReplied (serve route.chain ctx s)
  create_router-replies route i = All_In Protects route (create_router srv) create_router-Protects i
