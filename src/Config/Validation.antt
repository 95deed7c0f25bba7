-- ===== src/Config/Validation.antt =====
-- What `Load` guarantees of the configuration that it returns, and what it accepts.
use gorder.Prelude.{
  ◌&◌, ℕ, suc, zero, ◌≤◌, String, ◌≡◌, ◌≢◌, ◌⊎◌, ◌↔◌, refl, sym, ap, ◌∙◌, some, Bool, true, false,
  ◌||◌, str_eq, if◌then◌else◌, arith, Bool-cases, Option-cases, inl, inr, subst,
}
use text.Mathlib.TextEquality.{eq_iff}
use gorder.Prelude.Int.{ℤ, pos, negsuc}
use gorder.Prelude.Result.{Result, ok, err, Status, done, failed, Result-cases}
use gorder.Config.{
  Config, is_given, check, is_port, check_port, validate_configs, apply_defaults, Env, read_env,
  is_positive, load_env, load, LoadError, not_exist, unreadable,
}
use gorder.Config.Atoi.{atoi}

-- A text that `strconv.Atoi` reads as a number from 1024 to 65535.
pub record IsPort (raw : String) : Type 0 where
  pub port : ℕ
  pub read : atoi raw ≡ some (pos port)
  pub low : 1024 ≤ port
  pub high : port ≤ 65535

pub record IsValid (cfg : Config) : Type 0 where
  pub log_format : (cfg.log_format ≡ "text") ⊎ (cfg.log_format ≡ "json")
  pub jwt_secret : cfg.jwt_secret ≢ ""
  pub db_host : cfg.db_host ≢ ""
  pub db_user : cfg.db_user ≢ ""
  pub db_pass : cfg.db_pass ≢ ""
  pub db_name : cfg.db_name ≢ ""
  pub kafka_brokers : cfg.kafka_brokers ≢ ""
  pub kafka_topic : cfg.kafka_topic ≢ ""
  pub http_port : IsPort cfg.http_port
  pub db_port : IsPort cfg.db_port

is_given_iff : (s : String) → (is_given s ≡ true) ↔ (s ≢ "")
is_given_iff s = elim (Bool-cases (str_eq s "")) [
  | inl e ↦ ((λ g. absurd (ground arith)), λ n. absurd (n ((eq_iff s "").0 e)))
  | inr e ↦ ((λ _ p. let t = (eq_iff s "").1 p in ground arith), λ _. ground arith)
]

check_iff {ℓ κ} :
    {P : Type ℓ} {Q : Type κ} {good : Bool} {rest : Status String} (m : String)
    → (good ≡ true) ↔ P
    → (rest ≡ done) ↔ Q
    → (check good m rest ≡ done) ↔ (P × Q)
unfolding check
check_iff {good = true} m p q = ((λ e. (p.0 refl, q.0 e)), λ h. q.1 h.1)
check_iff {good = false} m p q =
    ((λ e. absurd (ground arith)), λ h. let good = p.1 h.0 in absurd (ground arith))

is_port_iff : (p : ℤ) → (is_port p ≡ true) ↔ ((n : ℕ) × (p ≡ pos n) × (1024 ≤ n) × (n ≤ 65535))
is_port_iff (negsuc k) = ((λ e. absurd (ground arith)), λ (n, e, _, _). absurd (ground arith))
is_port_iff (pos k) =
    ((λ e. (k, refl, ground arith, ground arith)), λ (n, e, low, high). ground arith)

check_port_iff {κ} :
    {Q : Type κ} {rest : Status String} (name raw : String)
    → (rest ≡ done) ↔ Q
    → (check_port name raw rest ≡ done) ↔ (IsPort raw × Q)
unfolding check_port
check_port_iff {rest = rest} name raw q = elim (Option-cases (atoi raw)) [
  | inl p ↦ ((λ e. absurd (ground arith)), λ (h, _). let r = h.read in absurd (ground arith))
  | inr (port, p) ↦
      let inner = check_iff {rest = rest} _ (is_port_iff port) q in
      (
        (λ e.
            let ((n, same, low, high), left) = inner.0 (rw (check_port, p) at e) in
            (record { port = n; read = p ∙ ap some same; low = low; high = high }, left)),
        λ (h, left).
            let same : port ≡ pos h.port = let r = h.read in ground arith in
            rw (check_port, p) (inner.1 ((h.port, same, h.low, h.high), left)),
      )
]

format_iff :
    (s : String) → ((str_eq s "text" || str_eq s "json") ≡ true) ↔ ((s ≡ "text") ⊎ (s ≡ "json"))
format_iff s = elim (Bool-cases (str_eq s "text")) [
  | inl e ↦ ((λ _. inl ((eq_iff s "text").0 e)), λ _. ground arith)
  | inr e ↦ (
    (λ g. let f : str_eq s "json" ≡ true = ground arith in inr ((eq_iff s "json").0 f)),
    λ h. elim h [
      | inl p ↦ let f = (eq_iff s "text").1 p in ground arith
      | inr p ↦ let f = (eq_iff s "json").1 p in ground arith
    ],
  )
]

-- `validateConfigs` accepts exactly the configurations with a known log format, the required
-- fields and two ports from 1024 to 65535.
pub validate_configs_iff : (cfg : Config) → (validate_configs cfg ≡ done) ↔ IsValid cfg
unfolding validate_configs
validate_configs_iff cfg =
    let (sound, complete) = check_iff _ (format_iff cfg.log_format) (
      check_iff _ (is_given_iff cfg.jwt_secret) (
        check_iff _ (is_given_iff cfg.db_host) (
          check_iff _ (is_given_iff cfg.db_user) (
            check_iff _ (is_given_iff cfg.db_pass) (
              check_iff _ (is_given_iff cfg.db_name) (
                check_iff _ (is_given_iff cfg.kafka_brokers) (
                  check_iff _ (is_given_iff cfg.kafka_topic) (
                    check_port_iff "HTTP_PORT" cfg.http_port (
                      check_port_iff {Q = Unit {0}} {rest = done} "DB_PORT" cfg.db_port
                        ((λ _. tt), λ _. refl)))))))))) in
    (
      (λ e.
          let (
            format,
            (secret, (host, (user, (pass, (name, (brokers, (topic, (http, (db, _))))))))),
          ) =
            sound e in
          record {
            log_format = format;
            jwt_secret = secret;
            db_host = host;
            db_user = user;
            db_pass = pass;
            db_name = name;
            kafka_brokers = brokers;
            kafka_topic = topic;
            http_port = http;
            db_port = db;
          }),
      λ v. complete (
          v.log_format & v.jwt_secret & v.db_host & v.db_user & v.db_pass & v.db_name
          & v.kafka_brokers & v.kafka_topic & v.http_port & v.db_port & tt),
    )

-- A variable of the environment, or what stands for it where it is missing or empty.
abbrev pub variable : Env → String → String → String
variable getenv name fallback = if str_eq (getenv name) "" then fallback else getenv name

-- The configuration that an environment is meant to give, variable by variable.
abbrev pub meant : Env → ℕ → Config
meant getenv capacity = record {
  http_port = variable getenv "HTTP_PORT" "8080";
  cache_capacity = pos capacity;
  log_format = variable getenv "LOG_FORMAT" "text";
  jwt_secret = getenv "JWT_SECRET";
  db_host = getenv "DB_HOST";
  db_port = variable getenv "DB_PORT" "5432";
  db_user = getenv "DB_USER";
  db_pass = getenv "DB_PASSWORD";
  db_name = getenv "DB_NAME";
  db_ssl_mode = variable getenv "DB_SSL_MODE" "disable";
  migration_dir = variable getenv "MIGRATION_DIR" "migrations";
  kafka_brokers = getenv "KAFKA_BROKERS";
  kafka_topic = getenv "KAFKA_TOPIC";
  rate_limit = variable getenv "RATE_LIMIT" "5-S";
  rate_limit_register = variable getenv "RATE_LIMIT_REGISTER" "3-M";
}

-- What `Load` makes of the environment.
pub record IsLoaded (getenv : Env) (cfg : Config) : Type 0 where
  pub capacity : ℕ
  pub capacity_lem : atoi (getenv "CACHE_CAPACITY") ≡ some (pos (suc capacity))
  pub same : cfg ≡ meant getenv (suc capacity)
  pub valid : IsValid cfg

is_positive-suc : (n : ℕ) → is_positive (pos (suc n)) ≡ true
is_positive-suc n = ground arith

positive : (z : ℤ) → ((n : ℕ) × (z ≡ pos (suc n))) ⊎ (is_positive z ≡ false)
positive (pos zero) = inr (ground arith)
positive (pos (suc n)) = inl (n, refl)
positive (negsuc n) = inr refl

ok_inj {ℓ κ} : {E : Type κ} {A : Type ℓ} {a b : A} → ◌≡◌ {A = Result E A} (ok a) (ok b) → a ≡ b
ok_inj e = cc

-- `Load` past the file returns a configuration exactly where the cache capacity is a positive number
-- and the environment with the defaults is valid; it is that one, each field from its variable or its
-- default.
pub load_env_iff : (getenv : Env) (cfg : Config) → (load_env getenv ≡ ok cfg) ↔ IsLoaded getenv cfg
unfolding load_env
load_env_iff getenv cfg = (sound, complete)
  where
    accepted :
        (n : ℕ)
        → atoi (getenv "CACHE_CAPACITY") ≡ some (pos (suc n))
        → (s : Status String)
        → validate_configs (apply_defaults (read_env getenv (pos (suc n)))) ≡ s
        → load_env getenv ≡ ok cfg
        → IsLoaded getenv cfg
    accepted n p done q e =
        let same : apply_defaults (read_env getenv (pos (suc n))) ≡ cfg =
          ok_inj (rw (load_env, p, is_positive-suc n, q) at e) in
        record {
          capacity = n;
          capacity_lem = p;
          same = sym same;
          valid = subst IsValid same ((validate_configs_iff _).0 q);
        }
    accepted n p (failed x) q e =
        let bad : ◌≡◌ {A = Result String Config} (err x) (ok cfg) =
          rw (load_env, p, is_positive-suc n, q) at e in
        absurd (ground arith)

    sound : load_env getenv ≡ ok cfg → IsLoaded getenv cfg
    sound e = elim (Option-cases (atoi (getenv "CACHE_CAPACITY"))) [
      | inl p ↦ absurd (ground arith)
      | inr (z, p) ↦ elim (positive z) [
        | inr bad ↦ absurd (ground arith)
        | inl (n, same) ↦ accepted n (p ∙ ap some same) _ refl e
      ]
    ]

    complete : IsLoaded getenv cfg → load_env getenv ≡ ok cfg
    complete h =
        let p = h.capacity_lem in
        let q = (validate_configs_iff _).1 (subst IsValid h.same h.valid) in
        rw (load_env, p, is_positive-suc h.capacity, q) (ap ok (sym h.same))

-- `Load` returns only what is valid, with a positive cache capacity: from the environment that
-- `Overload` leaves, or, where the file does not exist, from the one that was there.
pub load-IsLoaded :
    (overload : String → Env → Result LoadError Env) (path : String) (env : Env) (cfg : Config)
    → load overload path env ≡ ok cfg
    → ((env' : Env) × (overload path env ≡ ok env') × IsLoaded env' cfg)
      ⊎ ((overload path env ≡ err not_exist) × IsLoaded env cfg)
unfolding load
load-IsLoaded overload path env cfg e = elim (Result-cases (overload path env)) [
  | inl (env', p) ↦ inl (env', p, (load_env_iff env' cfg).0 (rw (load, p) at e))
  | inr (not_exist, p) ↦ inr (p, (load_env_iff env cfg).0 (rw (load, p) at e))
  | inr (unreadable x, p) ↦
      let bad : ◌≡◌ {A = Result String Config} (err "failed to load .env") (ok cfg) =
        rw (load, p) at e in
      absurd (ground arith)
]
