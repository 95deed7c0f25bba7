-- ===== src/Router/Guards.antt =====
-- Which requests the router of app.go lets through to the handlers of its protected routes.
use text.Mathlib.Text.{starts_with}
use gorder.Prelude.{
  ◌&◌, ℕ, String, ◌≡◌, ◌⊎◌, refl, Option, none, some, List, [], ◌∷◌, ◌||◌, str_eq, if◌then◌else◌,
  In, All, All_In, inl, inr, subst,
}
use gorder.Http.{str, Ctx, Effect, error, json, redirect, Outcome, Handler, Middleware, reply}
use gorder.Middleware.Jwt.{Jwt, JwtLaws, Claims, hmac}
use gorder.Middleware.Auth.{claim}
use gorder.Middleware.Guard.{Shows}
use gorder.Middleware.Chain.{guarded, guarded-cases}
use gorder.Handler.Orders.{
  App, get_order_by_uid_handle, get_user_order_by_uid_handle, get_all_orders_uid_handle,
  get_all_user_orders_uid_handle,
}
use gorder.Handler.Pages.{all_orders_page_handle, order_page_handle}
use gorder.Router.{Server, Route, handler, serve, group, create_router}

-- The roles for a path; `none` where it is public.
abbrev pub required : String → Option (List String)
required path =
    if starts_with path "/api/admin"
    then some ("admin" ∷ [])
    else if starts_with path "/api/user"
    then some ("user" ∷ [])
    else if str_eq path "/" || str_eq path "/:uid"
    then some ("user" ∷ "admin" ∷ [])
    else none

module _ (j : Jwt) (secret : String) (roles : List String) (ctx : Ctx) where
  -- The request's token is signed by HMAC with the secret and names one of the roles.
  pub record IsPermitted : Type 0 where
    pub token : String
    pub claims : Claims
    pub role : String
    pub shown : Shows ctx token
    pub signed : j.Signed hmac secret token claims
    pub role_lem : claim "role" claims ≡ str role
    pub listed : In role roles

-- One reply, the redirection to the login page or an error, and nothing changed.
abbrev pub IsTurnedAway : {S : Type 0} → S → Outcome S → Type 0
IsTurnedAway s out =
    (e : Effect) × (out ≡ reply e s)
    × ((e ≡ redirect 302 "/login") ⊎ ((code : ℕ) × (m : String) × (e ≡ json code (error m))))

module _ {Db : Type 0} (srv : Server Db) (laws : JwtLaws srv.j) where
  abbrev Guards : String → List (Middleware (App Db)) → Type 0
  Guards path chain =
      (roles : List String)
      → required path ≡ some roles
      → (ctx : Ctx) (s : App Db)
      → IsPermitted srv.j srv.secret roles ctx ⊎ IsTurnedAway s (serve chain ctx s)

  group-cases :
      (roles : List String) (h : Handler (App Db)) (ctx : Ctx) (s : App Db)
      → IsPermitted srv.j srv.secret roles ctx ⊎ IsTurnedAway s (serve (group srv roles h) ctx s)
  unfolding serve guarded
  group-cases roles h ctx s =
      elim (guarded-cases srv.j laws srv.secret roles (handler h (serve [])) ctx s) [
        | inl served ↦ inl (record {
          token = served.token;
          claims = served.claims;
          role = served.role;
          shown = served.shown;
          signed = served.signed;
          role_lem = served.role_lem;
          listed = served.listed;
        })
        | inr refused ↦ inr refused
      ]

  public_path :
      (path : String) (chain : List (Middleware (App Db)))
      → required path ≡ none
      → Guards path chain
  public_path path chain e roles e' = cc

  grouped :
      (path : String) (roles : List String) (h : Handler (App Db))
      → required path ≡ some roles
      → Guards path (group srv roles h)
  grouped path roles h e roles' e' ctx s =
      let same : roles ≡ roles' = cc in
      subst
        (λ rs.
          IsPermitted srv.j srv.secret rs ctx ⊎ IsTurnedAway s (serve (group srv roles h) ctx s))
        same (group-cases roles h ctx s)

  create_router-Guards :
      All (λ (route : Route (App Db)). Guards route.path route.chain) (create_router srv)
  unfolding create_router
  create_router-Guards =
      public_path "/health/live" _ refl
      & public_path "/health/ready" _ refl
      & public_path "/api/version" _ refl
      & public_path "/login" _ refl
      & public_path "/login" _ refl
      & public_path "/logout" _ refl
      & public_path "/register" _ refl
      & public_path "/register" _ refl
      & public_path "/refresh" _ refl
      & grouped "/" ("user" ∷ "admin" ∷ []) (all_orders_page_handle srv.r) refl
      & grouped "/:uid" ("user" ∷ "admin" ∷ []) (order_page_handle srv.r) refl
      & grouped "/api/admin/orders/:uid" ("admin" ∷ []) (get_order_by_uid_handle srv.r) refl
      & grouped "/api/admin/all_orders_uids" ("admin" ∷ []) (get_all_orders_uid_handle srv.r) refl
      & grouped "/api/user/orders/:uid" ("user" ∷ []) (get_user_order_by_uid_handle srv.r) refl
      & grouped "/api/user/all_orders_uids" ("user" ∷ []) (get_all_user_orders_uid_handle srv.r)
          refl
      & tt

  -- Every route of the router with a path under /api/admin, under /api/user, or of the pages / and
  -- /:uid: a request is turned away by one reply that changes nothing, unless its token, in the
  -- Authorization header or else in the cookie, is signed by HMAC with the secret and names "admin",
  -- "user", or one of the two respectively.
  pub create_router-guarded :
      (route : Route (App Db))
      → In route (create_router srv)
      → (roles : List String) → required route.path ≡ some roles
      → (ctx : Ctx) (s : App Db)
      → IsPermitted srv.j srv.secret roles ctx ⊎ IsTurnedAway s (serve route.chain ctx s)
  create_router-guarded route i =
      All_In (λ (x : Route (App Db)). Guards x.path x.chain) route (create_router srv)
        create_router-Guards i
