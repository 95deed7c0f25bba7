-- ===== src/System/Shutdown.antt =====
-- What `Run` of internal/app/app.go opens, and that it closes it.
use gorder.Prelude.{
  String, ◌≡◌, refl, ◌⊎◌, inl, inr, List, [], ◌∷◌, ◌++◌, Option, none, some, ◌>>=◌, Option-cases,
}
use Prim.Native.String
use gorder.Prelude.Result.{ok, Result-cases, Status, done, failed, Status-cases}
use gorder.Config.{Config}
use gorder.System.Run.{
  reader_config, connection_str, up_status, Ending, signaled, server_failed, Answers, Event,
  opened_pool, closed_pool, opened_reader, closed_reader, caught_signals, released_signals,
  started_consumer, consumer_done, started_server, shut_server, Run, fail, first, deferred, stage,
  logged, with_pool, run_migrations, wait_for, serve_until, run,
}

pub data Resource : Type 0 where
  pool : Resource
  reader : Resource
  signals : Resource

-- Only what was opened last may be closed.
abbrev pub close : Resource → List Resource → Option (List Resource)
close pool (pool ∷ held) = some held
close reader (reader ∷ held) = some held
close signals (signals ∷ held) = some held
close _ _ = none

-- What is open after an event, the last one opened first.
abbrev pub after : Event → List Resource → Option (List Resource)
after opened_pool held = some (pool ∷ held)
after closed_pool held = close pool held
after (opened_reader _) held = some (reader ∷ held)
after closed_reader held = close reader held
after caught_signals held = some (signals ∷ held)
after released_signals held = close signals held
after _ held = some held

abbrev pub left_open : List Event → List Resource → Option (List Resource)
left_open [] held = some held
left_open (e ∷ events) held = do held' ← after e held; left_open events held'

left_open-append :
    (es fs : List Event) (held : List Resource)
    → left_open (es ++ fs) held ≡ (left_open es held >>= left_open fs)
left_open-append [] fs held = refl
left_open-append (e ∷ es) fs held = elim (Option-cases (after e held)) [
  | inl n ↦ rw (n) refl
  | inr (held', n) ↦ rw (n) (left_open-append es fs held')
]

-- Whatever is open, the run leaves that and nothing else open.
abbrev pub IsClosed : Run → Type 0
IsClosed r = (held : List Resource) → left_open r.0 held ≡ some held

fail-IsClosed : (context e : String) → IsClosed (fail context e)
fail-IsClosed context e held = refl

stage-IsClosed :
    (context : String) (s : Status String) (r : Run) → IsClosed r → IsClosed (stage context s r)
stage-IsClosed context done r h = h
stage-IsClosed context (failed e) r h = fail-IsClosed context e

-- An event that opens nothing.
first-IsClosed :
    (e : Event) (r : Run)
    → ((held : List Resource) → after e held ≡ some held)
    → IsClosed r
    → IsClosed (first e r)
first-IsClosed e r neutral h held = rw (neutral held) (h held)

-- What is opened first and closed by `defer`.
bracket-IsClosed :
    (e f : Event) (x : Resource) (r : Run)
    → ((held : List Resource) → after e held ≡ some (x ∷ held))
    → ((held : List Resource) → after f (x ∷ held) ≡ some held)
    → IsClosed r
    → IsClosed (first e (deferred f r))
bracket-IsClosed e f x r opens closes h held =
    rw (opens held, left_open-append, h (x ∷ held), closes held) refl

nothing-IsClosed : IsClosed ([], done)
nothing-IsClosed held = refl

pub Ending-cases : (e : Ending) → (e ≡ signaled) ⊎ ((x : String) × (e ≡ server_failed x))
Ending-cases signaled = inl refl
Ending-cases (server_failed x) = inr (x, refl)

wait_for-IsClosed : (a : Answers) → IsClosed (wait_for a)
unfolding wait_for
wait_for-IsClosed a = elim (Ending-cases a.ending) [
  | inr (e, p) ↦ rw (wait_for, p) (fail-IsClosed "HTTP server error: " e)
  | inl p ↦
      let shut : Run = stage "failed to shutdown server: " a.shutdown ([], done) in
      rw (wait_for, p)
        (first-IsClosed consumer_done (first shut_server shut) (λ held. refl)
          (first-IsClosed shut_server shut (λ held. refl)
            (stage-IsClosed "failed to shutdown server: " a.shutdown ([], done) nothing-IsClosed)))
]

serve_until-IsClosed : (a : Answers) (cfg : Config) → IsClosed (serve_until a cfg)
unfolding serve_until
serve_until-IsClosed a cfg = stage-IsClosed _ (a.new_rate cfg.rate_limit) _ (
    stage-IsClosed _ (a.new_rate cfg.rate_limit_register) _ (
      stage-IsClosed _ a.sub_fs _ (
        first-IsClosed (started_server (String.◌++◌ ":" cfg.http_port)) (wait_for a) (λ held. refl)
          (wait_for-IsClosed a))))

run_migrations-IsClosed :
    (a : Answers) (cfg : Config) (rest : Run) → IsClosed rest → IsClosed (run_migrations a cfg rest)
unfolding run_migrations
run_migrations-IsClosed a cfg rest h =
    stage-IsClosed _ (a.new_migrate _) _ (stage-IsClosed _ (up_status a.up) rest h)

-- `Run` once the pool answers
abbrev pub served : Answers → Config → Run
served a cfg = run_migrations a cfg (
    logged a.populate (
      first (opened_reader (reader_config cfg))
        (deferred closed_reader (first started_consumer (serve_until a cfg)))))

served-IsClosed : (a : Answers) (cfg : Config) → IsClosed (served a cfg)
served-IsClosed a cfg =
    run_migrations-IsClosed a cfg
      (first (opened_reader (reader_config cfg))
        (deferred closed_reader (first started_consumer (serve_until a cfg))))
      (bracket-IsClosed (opened_reader (reader_config cfg)) closed_reader reader
        (first started_consumer (serve_until a cfg)) (λ held. refl) (λ held. refl)
        (first-IsClosed started_consumer (serve_until a cfg) (λ held. refl)
          (serve_until-IsClosed a cfg)))

-- The pool is made, and the ping fails.
pub record IsUnreachable (a : Answers) : Type 0 where
  pub cfg : Config
  pub reason : String
  pub loaded : a.load ≡ ok cfg
  pub pooled : a.new_pool (connection_str cfg) ≡ done
  pub pinged : a.ping ≡ failed reason
  pub trace : (run a).0 ≡ caught_signals ∷ opened_pool ∷ released_signals ∷ []

-- `Run` closes what it opens, the pool, the reader and the signals' context, once each and in the
-- reverse order, however it ends; unless a pool is made and the ping fails: that pool stays open.
pub run-IsClosed : (a : Answers) → IsClosed (run a) ⊎ IsUnreachable a
unfolding run with_pool
run-IsClosed a = elim (Result-cases a.load) [
  | inr (e, l) ↦ inl (rw (run, l) (fail-IsClosed "failed to load config: " e))
  | inl (cfg, l) ↦ elim (Status-cases (a.new_pool (connection_str cfg))) [
    | inr (e, n) ↦ inl (
        rw (run, l, with_pool, n)
          (bracket-IsClosed caught_signals released_signals signals
            (fail "failed to connect database: failed to create pool: " e) (λ held. refl)
            (λ held. refl) (fail-IsClosed "failed to connect database: failed to create pool: " e)))
    | inl n ↦ elim (Status-cases a.ping) [
      | inr (e, q) ↦ inr (record {
        cfg = cfg;
        reason = e;
        loaded = l;
        pooled = n;
        pinged = q;
        trace = rw (run, l, with_pool, n, q) refl;
      })
      | inl q ↦ inl (
          rw (run, l, with_pool, n, q)
            (bracket-IsClosed caught_signals released_signals signals
              (first opened_pool (deferred closed_pool (served a cfg))) (λ held. refl)
              (λ held. refl)
              (bracket-IsClosed opened_pool closed_pool pool (served a cfg) (λ held. refl)
                (λ held. refl) (served-IsClosed a cfg))))
    ]
  ]
]
