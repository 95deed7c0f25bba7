-- ===== src/Tests/Settings.antt =====
-- An environment with the required variables.
use gorder.Prelude.{String, ◌≡◌, ◌⊎◌, ◌↔◌, refl, if◌then◌else◌, str_eq}
use gorder.Prelude.Int.{pos}
use gorder.Prelude.Result.{Result, ok, err}
use gorder.Config.{
  Config, Env, LoadError, not_exist, apply_defaults, read_env, validate_configs, check, check_port,
  load_env, load,
}
use gorder.Config.Atoi.{atoi, magnitude, digits}
use gorder.Config.Validation.{IsLoaded, load_env_iff, load-IsLoaded}

abbrev pub variables : Env
variables name =
    if str_eq name "CACHE_CAPACITY"
    then "100"
    else if str_eq name "HTTP_PORT"
    then ""
    else if str_eq name "DB_PORT"
    then ""
    else if str_eq name "LOG_FORMAT"
    then "json"
    else "given"

abbrev pub settings : Config
settings = apply_defaults (read_env variables (pos 100))

load_env_iff_example : (load_env variables ≡ ok settings) ↔ IsLoaded variables settings
load_env_iff_example = load_env_iff variables settings

-- no file
abbrev pub overload : String → Env → Result LoadError Env
overload path env = err not_exist

pub loaded : load overload ".env" variables ≡ ok settings
unfolding load load_env validate_configs check check_port atoi magnitude digits
loaded = refl

load-IsLoaded_example :
    ((env' : Env) × (overload ".env" variables ≡ ok env') × IsLoaded env' settings)
    ⊎ ((overload ".env" variables ≡ err not_exist) × IsLoaded variables settings)
load-IsLoaded_example = load-IsLoaded overload ".env" variables settings loaded
