-- ===== src/System.antt =====
-- The running service: internal/app/app.go puts the consumer, the handlers behind the router and the
-- repository over one database and one cache. A step is a message that the consumer handles or a
-- request that goes through the chain of a route; each takes the shared state as it finds it.
pub mod Handlers
pub mod Start
pub mod Routes
pub mod Invariant
pub mod Run
pub mod Shutdown
pub mod Success
pub mod Main
use gorder.Prelude.{String, Bool, ◌≡◌, some, In}
use gorder.Prelude.Result.{Result, Status}
use gorder.Http.{Ctx, state_of}
use gorder.Middleware.Jwt.{Jwt}
use gorder.Repository.Driver.{Driver}
use gorder.Repository.Interface.{repository}
use gorder.Handler.Orders.{App}
use gorder.Handler.Session.{Bcrypt}
use gorder.Handler.System.{Finish}
use gorder.Consumer.{Codec, handle_message}
use gorder.Router.{Server, Bodies, Route, serve, create_router}

-- What stays the same while the service runs.
pub record Process : Type 1 where
  pub codec : Codec
  pub j : Jwt
  pub b : Bcrypt
  pub secret : String

-- What another request finds otherwise: the bodies, Kafka, the order of the goroutines, and what the
-- limiter, which counts in a store of its own, says of a client.
pub record Surroundings : Type 0 where
  pub bodies : Bodies
  pub check_health : Status String
  pub finish : Finish
  pub verdict : String → Result String Bool

module _ (d : Driver) (p : Process) where
  abbrev pub server : Surroundings → Server d.Db
  server around = record {
    r = repository d;
    j = p.j;
    b = p.b;
    secret = p.secret;
    bodies = around.bodies;
    check_health = around.check_health;
    finish = around.finish;
    limit = λ ip s. (s, around.verdict ip);
  }

  pub data Step : App d.Db → App d.Db → Type 0 where
    received :
        (msg : String) (s t : App d.Db)
        → handle_message (repository d) p.codec msg s ≡ some t
        → Step s t
    answered :
        (around : Surroundings) (route : Route (App d.Db)) (ctx : Ctx) (s t : App d.Db)
        → In route (create_router (server around))
        → state_of (serve route.chain ctx s) ≡ t
        → Step s t

  -- any number of steps, the last one outermost
  pub data Reach (s : App d.Db) : App d.Db → Type 0 where
    start : (t : App d.Db) → s ≡ t → Reach s t
    step : (t u : App d.Db) → Reach s t → Step t u → Reach s u
