-- ===== src/Router.antt =====
-- `createRouter` of internal/app/app.go: the routes with their chains of middleware and handlers.
-- How gin chooses a route is not modelled; nor are the routes whose handlers are other packages' (the
-- static files, /metrics and /swagger).
pub mod Guards
pub mod Answers
pub mod Observed
pub mod Preserves
use gorder.Prelude.{String, List, [], ◌∷◌, ◌++◌, Bool}
use gorder.Prelude.Result.{Result, Status}
use gorder.Http.{Ctx, Effect, Outcome, finished, panicked, Handler, Middleware}
use gorder.Middleware.Jwt.{Jwt}
use gorder.Middleware.Auth.{jwt_auth, require_role}
use gorder.Middleware.RateLimit.{rate_limit}
use gorder.Repository.Interface.{Interface}
use gorder.Handler.Orders.{
  App, get_order_by_uid_handle, get_user_order_by_uid_handle, get_all_orders_uid_handle,
  get_all_user_orders_uid_handle,
}
use gorder.Handler.Pages.{all_orders_page_handle, order_page_handle}
use gorder.Handler.Session.{
  LoginRequest, RefreshRequest, Bcrypt, login_handle, logout_handle, login_page_handle,
  register_page_handle, register_handle, refresh_handle,
}
use gorder.Handler.System.{Finish, live_check_handle, ready_check_handle, version_handle}

-- `ShouldBindJSON` of the request's body
pub record Bodies : Type 0 where
  pub login : Ctx → Result String LoginRequest
  pub refresh : Ctx → Result String RefreshRequest

-- What the router is built from; the limiter's `Get` counts in the server's state.
pub record Server (Db : Type 0) : Type 1 where
  pub r : Interface Db
  pub j : Jwt
  pub b : Bcrypt
  pub secret : String
  pub bodies : Bodies
  pub check_health : Status String
  pub finish : Finish
  pub limit : String → App Db → App Db × Result String Bool

pub data Verb : Type 0 where
  get : Verb
  post : Verb

-- A route's chain: handlers do not abort, so what stands behind one runs after it.
pub record Route (S : Type 0) : Type 0 where
  pub verb : Verb
  pub path : String
  pub chain : List (Middleware S)

module _ {S : Type 0} where
  abbrev pub append_effects : List Effect → Outcome S → Outcome S
  append_effects es (finished s fs) = finished s (es ++ fs)
  append_effects es (panicked s) = panicked s

  unfoldable pub handler : Handler S → Middleware S
  handler h next ctx s = elim (h ctx s) [
    | finished s' es ↦ append_effects es (next ctx s')
    | panicked s' ↦ panicked s'
  ]

  -- `c.Next()` through the chain
  unfoldable pub serve : List (Middleware S) → Handler S
  serve [] ctx s = finished s []
  serve (m ∷ ms) ctx s = m (serve ms) ctx s

module _ {Db : Type 0} (srv : Server Db) where
  -- `JWTAuth` and `RequireRole` of a group, before each of its routes
  abbrev pub group : List String → Handler (App Db) → List (Middleware (App Db))
  group roles h = jwt_auth srv.j srv.secret ∷ require_role roles ∷ handler h ∷ []

  abbrev pub limited : Middleware (App Db)
  limited = rate_limit srv.limit

  abbrev pub public_routes : List (Route (App Db))
  public_routes =
      record { verb = get; path = "/health/live"; chain = handler live_check_handle ∷ [] }
      ∷ record {
        verb = get;
        path = "/health/ready";
        chain = handler (ready_check_handle srv.r srv.check_health srv.finish) ∷ [];
      }
      -- the dependencies of the handler carry no version and no commit
      ∷ record { verb = get; path = "/api/version"; chain = handler (version_handle "" "") ∷ [] }
      ∷ record {
        verb = get;
        path = "/login";
        chain = handler (login_page_handle srv.r srv.j srv.b srv.secret) ∷ [];
      }
      ∷ record {
        verb = post;
        path = "/login";
        chain =
            limited
            ∷ handler (λ ctx. login_handle srv.r srv.j srv.b srv.secret (srv.bodies.login ctx) ctx)
            ∷ [];
      }
      ∷ record {
        verb = post;
        path = "/logout";
        chain = handler (logout_handle srv.r srv.j srv.b srv.secret) ∷ [];
      }
      ∷ record {
        verb = get;
        path = "/register";
        chain = handler (register_page_handle srv.r srv.j srv.b srv.secret) ∷ limited ∷ [];
      }
      ∷ record {
        verb = post;
        path = "/register";
        chain =
            handler (λ ctx. register_handle srv.r srv.j srv.b srv.secret (srv.bodies.login ctx) ctx)
            ∷ [];
      }
      ∷ record {
        verb = post;
        path = "/refresh";
        chain =
            limited
            ∷ handler
                (λ ctx. refresh_handle srv.r srv.j srv.b srv.secret (srv.bodies.refresh ctx) ctx)
            ∷ [];
      }
      ∷ []

  abbrev pub user_pages : List (Route (App Db))
  user_pages =
      record {
        verb = get;
        path = "/";
        chain = group ("user" ∷ "admin" ∷ []) (all_orders_page_handle srv.r);
      }
      ∷ record {
        verb = get;
        path = "/:uid";
        chain = group ("user" ∷ "admin" ∷ []) (order_page_handle srv.r);
      }
      ∷ []

  abbrev pub admin_api : List (Route (App Db))
  admin_api =
      record {
        verb = get;
        path = "/api/admin/orders/:uid";
        chain = group ("admin" ∷ []) (get_order_by_uid_handle srv.r);
      }
      ∷ record {
        verb = get;
        path = "/api/admin/all_orders_uids";
        chain = group ("admin" ∷ []) (get_all_orders_uid_handle srv.r);
      }
      ∷ []

  abbrev pub user_api : List (Route (App Db))
  user_api =
      record {
        verb = get;
        path = "/api/user/orders/:uid";
        chain = group ("user" ∷ []) (get_user_order_by_uid_handle srv.r);
      }
      ∷ record {
        verb = get;
        path = "/api/user/all_orders_uids";
        chain = group ("user" ∷ []) (get_all_user_orders_uid_handle srv.r);
      }
      ∷ []

  unfoldable pub create_router : List (Route (App Db))
  create_router = public_routes ++ user_pages ++ admin_api ++ user_api
