-- ===== src/System/Success.antt =====
-- When `Run` of internal/app/app.go returns without an error, and in what order it has gone on.
use gorder.Prelude.{String, ◌≡◌, refl, ap, ◌⊎◌, ◌↔◌, inl, inr, List, [], ◌∷◌, arith}
use Prim.Native.String
use gorder.Prelude.Result.{ok, Result-cases, Status, done, failed, Status-cases}
use gorder.Config.{Config}
use gorder.System.Run.{
  reader_config, connection_str, Up, applied, no_change, up_failed, up_status, signaled, Answers,
  Event, opened_pool, closed_pool, opened_reader, closed_reader, caught_signals, released_signals,
  started_consumer, consumer_done, started_server, shut_server, Run, stage, with_pool,
  run_migrations, wait_for, serve_until, run,
}
use gorder.System.Shutdown.{served, Ending-cases}

-- Each stage succeeds, migrations that have nothing to do included, and a signal ends the wait; what
-- `Populate` answers does not matter.
pub record Succeeds (a : Answers) (cfg : Config) : Type 0 where
  pub loaded : a.load ≡ ok cfg
  pub pooled : a.new_pool (connection_str cfg) ≡ done
  pub pinged : a.ping ≡ done
  pub migrating : a.new_migrate (String.◌++◌ "file://" cfg.migration_dir) ≡ done
  pub migrated : (a.up ≡ applied) ⊎ (a.up ≡ no_change)
  pub rate : a.new_rate cfg.rate_limit ≡ done
  pub register_rate : a.new_rate cfg.rate_limit_register ≡ done
  pub files : a.sub_fs ≡ done
  pub stopped : a.ending ≡ signaled
  pub shut : a.shutdown ≡ done

-- The order of a run without an error.
abbrev pub whole_run : Config → List Event
whole_run cfg =
    caught_signals
    ∷ opened_pool
    ∷ opened_reader (reader_config cfg)
    ∷ started_consumer
    ∷ started_server (String.◌++◌ ":" cfg.http_port)
    ∷ consumer_done
    ∷ shut_server
    ∷ closed_reader
    ∷ closed_pool
    ∷ released_signals
    ∷ []

-- A stage lets an error through, and only a success of its own.
stage-done :
    (context : String) (s : Status String) (r : Run)
    → (stage context s r).1 ≡ done
    → (s ≡ done) × (r.1 ≡ done)
stage-done context done r e = (refl, e)
stage-done context (failed x) r e = absurd (ground arith)

up_status-done : (u : Up) → up_status u ≡ done → (u ≡ applied) ⊎ (u ≡ no_change)
up_status-done applied _ = inl refl
up_status-done no_change _ = inr refl
up_status-done (up_failed e) h = absurd (ground arith)

Succeeds-run : (a : Answers) (cfg : Config) → Succeeds a cfg → run a ≡ (whole_run cfg, done)
unfolding run with_pool run_migrations serve_until wait_for
Succeeds-run a cfg h =
    let up : up_status a.up ≡ done = elim h.migrated [
      | inl e ↦ ap up_status e
      | inr e ↦ ap up_status e
    ] in
    rw
      (
        run, h.loaded, with_pool, h.pooled, h.pinged, run_migrations, h.migrating, up, serve_until,
        h.rate, h.register_rate, h.files, wait_for, h.stopped, h.shut,
      )
      refl

run-Succeeds : (a : Answers) → (run a).1 ≡ done → (cfg : Config) × Succeeds a cfg
unfolding run with_pool run_migrations serve_until wait_for
run-Succeeds a ended = elim (Result-cases a.load) [
  | inr (e, l) ↦
      let bad : failed (String.◌++◌ "failed to load config: " e) ≡ done = rw (run, l) at ended in
      absurd (ground arith)
  | inl (cfg, l) ↦ (cfg, go cfg l)
]
  where
    go : (cfg : Config) → a.load ≡ ok cfg → Succeeds a cfg
    go cfg l = elim (Status-cases (a.new_pool (connection_str cfg))) [
      | inr (e, n) ↦ absurd (ground arith)
      | inl n ↦ elim (Status-cases a.ping) [
        | inr (e, q) ↦ absurd (ground arith)
        | inl q ↦
            let in_pool : (served a cfg).1 ≡ done = rw (run, l, with_pool, n, q) at ended in
            let (migrating, up) = stage-done _ (a.new_migrate _) _ in_pool in
            let (ups, behind) = stage-done _ (up_status a.up) _ up in
            let (rate, limited) = stage-done _ (a.new_rate cfg.rate_limit) _ behind in
            let (register_rate, routed) =
              stage-done _ (a.new_rate cfg.rate_limit_register) _ limited in
            let (files, waited) = stage-done _ a.sub_fs _ routed in
            elim (Ending-cases a.ending) [
              | inr (e, p) ↦ absurd (ground arith)
              | inl p ↦
                  let shutting = rw (wait_for, p) at waited in
                  record {
                    loaded = l;
                    pooled = n;
                    pinged = q;
                    migrating = migrating;
                    migrated = up_status-done a.up ups;
                    rate = rate;
                    register_rate = register_rate;
                    files = files;
                    stopped = p;
                    shut = (stage-done _ a.shutdown _ shutting).0;
                  }
            ]
      ]
    ]

-- `Run` returns without an error exactly where the stages succeed, whether or not the cache could be
-- populated, and a signal ends the wait; it then has waited for the consumer before it shut the
-- server down, and closed the reader, the pool and the context of the signals after that.
pub run-done_iff :
    (a : Answers)
    → ((run a).1 ≡ done) ↔ ((cfg : Config) × Succeeds a cfg × (run a ≡ (whole_run cfg, done)))
run-done_iff a = (
  λ ended. let (cfg, h) = run-Succeeds a ended in (cfg, h, Succeeds-run a cfg h),
  λ (cfg, h, e). ap (λ (r : Run). r.1) e,
)
