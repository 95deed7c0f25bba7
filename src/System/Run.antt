-- ===== src/System/Run.antt =====
-- `Run` of internal/app/app.go with `CreatePool` and `RunMigrations` of the repository: the stages of
-- the start, the wait for a signal or for an error of the server, and the deferred calls. What the
-- libraries answer is a parameter; the result is the order of what is opened and closed, and the
-- error. The fields of `Dependencies`, the log and the timeouts are left out.
use Prim.Native.String
use gorder.Prelude.{ℕ, split_commas, String, List, [], ◌∷◌, ◌++◌}
use gorder.Prelude.Result.{Result, ok, err, Status, done, failed}
use gorder.Config.{Config}

-- `fmt.Sprintf` of texts only
abbrev pub joined : List String → String
joined [] = ""
joined (s ∷ rest) = String.◌++◌ s (joined rest)

-- the connection string of `CreatePool`
abbrev pub connection_str : Config → String
connection_str cfg = joined (
    "postgres://" ∷ cfg.db_user ∷ ":" ∷ cfg.db_pass ∷ "@" ∷ cfg.db_host ∷ ":" ∷ cfg.db_port ∷ "/"
    ∷ cfg.db_name ∷ "?sslmode=" ∷ cfg.db_ssl_mode ∷ [])

-- `createKafkaReader`, less its durations
pub record ReaderConfig : Type 0 where
  pub brokers : List String
  pub topic : String
  pub min_bytes : ℕ
  pub max_bytes : ℕ
  pub max_attempts : ℕ

abbrev pub reader_config : Config → ReaderConfig
reader_config cfg = record {
  brokers = split_commas cfg.kafka_brokers;
  topic = cfg.kafka_topic;
  min_bytes = 10000;
  max_bytes = 10000000;
  max_attempts = 3;
}

-- `m.Up()`
pub data Up : Type 0 where
  applied : Up
  no_change : Up
  up_failed : String → Up

-- What ends the wait.
pub data Ending : Type 0 where
  signaled : Ending
  server_failed : String → Ending

-- What the libraries answer in one run.
pub record Answers : Type 0 where
  pub load : Result String Config
  pub new_pool : String → Status String
  pub ping : Status String
  pub new_migrate : String → Status String
  pub up : Up
  pub populate : Status String
  pub new_rate : String → Status String
  pub sub_fs : Status String
  pub ending : Ending
  pub shutdown : Status String

-- What a run opens and closes, and the goroutines that it starts and waits for.
pub data Event : Type 0 where
  opened_pool : Event
  closed_pool : Event
  opened_reader : ReaderConfig → Event
  closed_reader : Event
  caught_signals : Event
  released_signals : Event
  started_consumer : Event
  consumer_done : Event
  started_server : String → Event
  shut_server : Event

abbrev pub Run : Type 0
Run = List Event × Status String

abbrev pub fail : String → String → Run
fail context e = ([], failed (String.◌++◌ context e))

-- an event before the rest of the run, and `defer`: one after it
abbrev pub first : Event → Run → Run
first e (events, status) = (e ∷ events, status)

abbrev pub deferred : Event → Run → Run
deferred e (events, status) = (events ++ e ∷ [], status)

-- a stage whose error ends the run
abbrev pub stage : String → Status String → Run → Run
stage context done rest = rest
stage context (failed e) rest = fail context e

-- a call whose error does not end the run
abbrev pub logged : Status String → Run → Run
logged _ rest = rest

-- `CreatePool`: a pool that is made and cannot be pinged is returned with the error, and `Run` leaves it.
unfoldable pub with_pool : Answers → Config → Run → Run
with_pool a cfg rest = elim (a.new_pool (connection_str cfg)) [
  | failed e ↦ fail "failed to connect database: failed to create pool: " e
  | done ↦ first opened_pool (elim a.ping [
    | failed e ↦ fail "failed to connect database: failed to ping database: " e
    | done ↦ deferred closed_pool rest
  ])
]

abbrev pub up_status : Up → Status String
up_status applied = done
up_status no_change = done
up_status (up_failed e) = failed e

-- `RunMigrations`
unfoldable pub run_migrations : Answers → Config → Run → Run
run_migrations a cfg rest =
    stage "failed to migrate database: failed to init migrate: "
      (a.new_migrate (String.◌++◌ "file://" cfg.migration_dir))
      (stage "failed to migrate database: failed to up migrate: " (up_status a.up) rest)

-- the `select`: a signal waits for the consumer and then shuts the server down
unfoldable pub wait_for : Answers → Run
wait_for a = elim a.ending [
  | server_failed e ↦ fail "HTTP server error: " e
  | signaled ↦
      first consumer_done
        (first shut_server (stage "failed to shutdown server: " a.shutdown ([], done)))
]

-- the limiters, the router and the server, behind the consumer
unfoldable pub serve_until : Answers → Config → Run
serve_until a cfg = stage "failed to create rate limiter: " (a.new_rate cfg.rate_limit) (
    stage "failed to create register rate limiter: " (a.new_rate cfg.rate_limit_register) (
      stage "failed to create router: failed to init static filesystem: " a.sub_fs
        (first (started_server (String.◌++◌ ":" cfg.http_port)) (wait_for a))))

unfoldable pub run : Answers → Run
run a = elim a.load [
  | err e ↦ fail "failed to load config: " e
  | ok cfg ↦ first caught_signals (
      deferred released_signals (
        with_pool a cfg (
          run_migrations a cfg (
            logged a.populate (
              first (opened_reader (reader_config cfg))
                (deferred closed_reader (first started_consumer (serve_until a cfg))))))))
]
