-- ===== src/Config.antt =====
-- internal/config/config.go. `godotenv.Overload` is a parameter, which returns the environment that
-- it leaves; `os.Getenv` is "" where a variable is missing.
pub mod Atoi
pub mod Validation
use Prim.Native.String
use gorder.Prelude.{
  String, Option, none, some, Bool, true, false, not, if◌then◌else◌, ◌&&◌, ◌||◌, str_eq, ltb,
}
use gorder.Prelude.Int.{ℤ, pos, negsuc}
use gorder.Prelude.Result.{Result, ok, err, Status, done, failed}
use gorder.Config.Atoi.{atoi}

pub record Config : Type 0 where
  pub http_port : String
  pub cache_capacity : ℤ
  pub log_format : String
  pub jwt_secret : String
  pub db_host : String
  pub db_port : String
  pub db_user : String
  pub db_pass : String
  pub db_name : String
  pub db_ssl_mode : String
  pub migration_dir : String
  pub kafka_brokers : String
  pub kafka_topic : String
  pub rate_limit : String
  pub rate_limit_register : String

abbrev pub is_given : String → Bool
is_given s = not (str_eq s "")

-- `if !ok { return fmt.Errorf(message) }`, and the rest
unfoldable pub check : Bool → String → Status String → Status String
check good message rest = if good then rest else failed message

abbrev pub is_port : ℤ → Bool
is_port (pos n) = not (ltb n 1024) && not (ltb 65535 n)
is_port (negsuc _) = false

unfoldable pub check_port : String → String → Status String → Status String
check_port name raw rest = elim (atoi raw) [
  | none ↦ failed (String.◌++◌ name " must be number")
  | some port ↦ check (is_port port) (String.◌++◌ name " must be between 1024 and 65535") rest
]

unfoldable pub validate_configs : Config → Status String
validate_configs cfg =
    check (str_eq cfg.log_format "text" || str_eq cfg.log_format "json")
      "LOG_FORMAT must be text or json"
      (check (is_given cfg.jwt_secret) "JWT_SECRET is required" (
        check (is_given cfg.db_host) "DB_HOST is required" (
          check (is_given cfg.db_user) "DB_USER is required" (
            check (is_given cfg.db_pass) "DB_PASSWORD is required" (
              check (is_given cfg.db_name) "DB_NAME is required" (
                check (is_given cfg.kafka_brokers) "KAFKA_BROKERS is required" (
                  check (is_given cfg.kafka_topic) "KAFKA_TOPIC is required" (
                    check_port "HTTP_PORT" cfg.http_port
                      (check_port "DB_PORT" cfg.db_port done)))))))))

abbrev pub or_default : String → String → String
or_default value default = if str_eq value "" then default else value

abbrev pub apply_defaults : Config → Config
apply_defaults cfg = record cfg {
  http_port = or_default cfg.http_port "8080";
  db_port = or_default cfg.db_port "5432";
  log_format = or_default cfg.log_format "text";
  db_ssl_mode = or_default cfg.db_ssl_mode "disable";
  migration_dir = or_default cfg.migration_dir "migrations";
  rate_limit = or_default cfg.rate_limit "5-S";
  rate_limit_register = or_default cfg.rate_limit_register "3-M";
}

abbrev pub Env : Type 0
Env = String → String

-- `os.IsNotExist`, and any other error
pub data LoadError : Type 0 where
  not_exist : LoadError
  unreadable : String → LoadError

-- the literal of `Load`
abbrev pub read_env : Env → ℤ → Config
read_env getenv cache_capacity = record {
  http_port = getenv "HTTP_PORT";
  cache_capacity = cache_capacity;
  log_format = getenv "LOG_FORMAT";
  jwt_secret = getenv "JWT_SECRET";
  db_host = getenv "DB_HOST";
  db_port = getenv "DB_PORT";
  db_user = getenv "DB_USER";
  db_pass = getenv "DB_PASSWORD";
  db_name = getenv "DB_NAME";
  db_ssl_mode = getenv "DB_SSL_MODE";
  migration_dir = getenv "MIGRATION_DIR";
  kafka_brokers = getenv "KAFKA_BROKERS";
  kafka_topic = getenv "KAFKA_TOPIC";
  rate_limit = getenv "RATE_LIMIT";
  rate_limit_register = getenv "RATE_LIMIT_REGISTER";
}

abbrev pub is_positive : ℤ → Bool
is_positive (pos n) = ltb 0 n
is_positive (negsuc _) = false

-- `Load` once the file has been read or passed over
unfoldable pub load_env : Env → Result String Config
load_env getenv = elim (atoi (getenv "CACHE_CAPACITY")) [
  | none ↦ err "CACHE_CAPACITY must be a number"
  | some capacity ↦
      if is_positive capacity
      then (elim (validate_configs (apply_defaults (read_env getenv capacity))) [
        | done ↦ ok (apply_defaults (read_env getenv capacity))
        | failed e ↦ err e
      ])
      else err "CACHE_CAPACITY must be more than 0"
]

unfoldable pub load : (String → Env → Result LoadError Env) → String → Env → Result String Config
load overload path env = elim (overload path env) [
  | ok env' ↦ load_env env'
  | err e ↦ elim e [ not_exist ↦ load_env env | unreadable _ ↦ err "failed to load .env" ]
]
