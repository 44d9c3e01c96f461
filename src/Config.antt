-- ===== src/Config.antt =====
-- configure.go: the settings that flags and environment variables make, and the request of the
-- command line. The package flag hands over which flags were passed, with their values; Getenv is a
-- function that answers the empty text for a variable that is not set.
pub mod Laws
use Prim.Native.Char.{Char}
use tobey.Common.{
  ℕ, String, List, [], Bool, true, false, not, ◌||◌, Option, none, some, ◌>>=◌, is_some,
  if◌then◌else◌, ◌==◌, string_eq, ◌≡◌, refl,
}
use tobey.Common.Int.{ℤ, pos, is_zero}
use tobey.Common.Split.{split}
use tobey.Common.Text.{contains}
use tobey.Console.{ConsoleRequest}

-- A flag is `none` unless it was passed, which is what isFlagPassed asks.
pub record Flags : Type 0 where
  pub daemon : Option Bool
  pub debug : Option Bool
  pub no_cache : Option Bool
  pub dynamic_config : Option Bool
  pub output_content_only : Option Bool
  pub workers : Option ℤ
  pub port : Option ℤ
  pub user_agent : Option String
  pub host : Option String
  pub telemetry : Option String
  pub urls : Option String
  pub output_dir : Option String
  pub ignores : Option String

pub record Settings : Type 0 where
  pub debug : Bool
  pub skip_cache : Bool
  pub listen_host : String
  pub listen_port : ℤ
  pub num_visit_workers : ℤ
  pub user_agent : String
  pub dynamic_config : Bool
  pub use_tracing : Bool
  pub use_metrics : Bool
  pub use_pulse : Bool

-- The variables of main.go, as they are initialised.
abbrev pub default_settings : Settings
default_settings = record {
  debug = false;
  skip_cache = false;
  listen_host = "";
  listen_port = pos 8080;
  num_visit_workers = pos 5;
  user_agent = "Tobey/0";
  dynamic_config = false;
  use_tracing = false;
  use_metrics = false;
  use_pulse = false;
}

-- The request that configure returns at first.
abbrev pub empty_request : ConsoleRequest
empty_request = record {
  request = record {
    run = "";
    url = "";
    urls = [];
    aliased_domains = [];
    ignore_paths = [];
    user_agent = "";
    auth_configs = [];
  };
  output_dir = "";
  output_content_only = false;
}

-- strings.ToLower and strconv.Atoi, `none` on an error.
pub record ConfigLib : Type 0 where
  pub to_lower : String → String
  pub atoi : String → Option ℤ

-- The value of a flag's variable behind flag.Parse.
abbrev pub value_of {ℓ} : {A : Type ℓ} → A → Option A → A
value_of default none = default
value_of default (some v) = v

abbrev pub passed {ℓ} : {A : Type ℓ} → Option A → Bool
passed flag = is_some flag

abbrev pub comma : Char
comma = ","

module _ (x : ConfigLib) where
  unfoldable pub is_forgiving_true : String → Bool
  is_forgiving_true v =
      let low = x.to_lower v in low == "true" || low == "yes" || low == "y" || low == "on"

  -- A setting that is on or off: the flag if it was passed, else the variable.
  unfoldable pub switch : Bool → Option Bool → String → Bool
  unfolding is_forgiving_true
  switch default flag v = if passed flag then value_of default flag else is_forgiving_true v

  -- The number in a variable; one that cannot be read is a panic, and so `none`.
  unfoldable pub number_from : ℤ → String → Option ℤ
  number_from current v = if v == "" then some current else x.atoi v

  unfoldable pub configure_host : Flags → (String → String) → Settings → String
  configure_host flags env g =
      if not (value_of g.listen_host flags.host == "")
      then value_of g.listen_host flags.host
      else if not (env "TOBEY_HOST" == "")
      then env "TOBEY_HOST"
      else g.listen_host

  unfoldable pub configure_port : Flags → (String → String) → Settings → Option ℤ
  unfolding number_from
  configure_port flags env g =
      if not (is_zero (value_of g.listen_port flags.port))
      then some (value_of g.listen_port flags.port)
      else number_from g.listen_port (env "TOBEY_PORT")

  unfoldable pub configure_workers : Flags → (String → String) → Settings → Option ℤ
  unfolding number_from
  configure_workers flags env g =
      if passed flags.workers
      then some (value_of g.num_visit_workers flags.workers)
      else number_from g.num_visit_workers (env "TOBEY_WORKERS")

  abbrev pub as_service : Flags → Bool
  as_service flags = value_of false flags.daemon

  -- UserAgent, where the flag's default is what it was before the variable was read.
  unfoldable pub configure_agent : Flags → (String → String) → Settings → String
  configure_agent flags env g =
      let from_env =
        if env "TOBEY_USER_AGENT" == "" then g.user_agent else env "TOBEY_USER_AGENT" in
      if passed flags.user_agent
      then (if as_service flags then from_env else value_of g.user_agent flags.user_agent)
      else from_env

  abbrev pub telemetry_of : Flags → (String → String) → String
  telemetry_of flags env =
      if passed flags.telemetry then value_of "" flags.telemetry else env "TOBEY_TELEMETRY"

  -- The returned request, as the flags set its fields.
  unfoldable pub configure_request : Flags → Settings → ConsoleRequest
  unfolding split
  configure_request flags g = record {
    request = record empty_request.request {
      urls = elim flags.urls [ none ↦ [] | some us ↦ split comma us ];
      ignore_paths = elim flags.ignores [ none ↦ [] | some ps ↦ split comma ps ];
      user_agent =
          if passed flags.user_agent
          then (if as_service flags then value_of g.user_agent flags.user_agent else "")
          else "";
    };
    output_dir = elim flags.output_dir [ none ↦ "" | some dir ↦ dir ];
    output_content_only = elim flags.output_content_only [ none ↦ false | some only ↦ only ];
  }

  unfoldable pub configure :
      Flags → (String → String) → Settings → Option (Bool × ConsoleRequest × Settings)
  unfolding switch configure_host configure_port configure_workers configure_agent configure_request
      contains
  configure flags env g = do
    port ← configure_port flags env g
    workers ← configure_workers flags env g
    some (
      as_service flags,
      configure_request flags g,
      record {
        debug = switch g.debug flags.debug (env "TOBEY_DEBUG");
        skip_cache = switch false flags.no_cache (env "TOBEY_SKIP_CACHE");
        listen_host = configure_host flags env g;
        listen_port = port;
        num_visit_workers = workers;
        user_agent = configure_agent flags env g;
        dynamic_config = switch g.dynamic_config flags.dynamic_config (env "TOBEY_DYNAMIC_CONFIG");
        use_tracing =
            contains (telemetry_of flags env) "traces"
            || contains (telemetry_of flags env) "tracing"
            || g.use_tracing;
        use_metrics = contains (telemetry_of flags env) "metrics" || g.use_metrics;
        use_pulse = contains (telemetry_of flags env) "pulse" || g.use_pulse;
      },
    )
