-- ===== src/Console.antt =====
-- The command line: ConsoleRequest of api.go, and cli of main.go up to the wait for the end of the
-- run. filepath.Abs and Getwd are parameters.
pub mod Laws
use tobey.Common.{
  ℕ, String, List, [], Bool, true, false, not, ◌&&◌, Option, none, some, ◌>>=◌, if◌then◌else◌, ◌==◌,
  string_eq,
}
use tobey.Common.Text.{has_prefix}
use tobey.Url.{UrlLib}
use tobey.Run.{Run}
use tobey.Api.{
  Request, UuidLib, get_run, get_urls, get_auth_configs, get_allow_domains, get_ignore_paths,
  get_user_agent, validate,
}

pub record ConsoleRequest : Type 0 where
  pub request : Request
  pub output_dir : String
  pub output_content_only : Bool

-- filepath.Abs and os.Getwd, `none` on an error.
pub record PathLib : Type 0 where
  pub abs : String → Option String
  pub getwd : Option String

-- What becomes of a run: (*RunManager).Add, and `go run.Start` with the URLs to start from.
pub record Crawls (W : Type 0) : Type 0 where
  pub add : Run → W → W
  pub start : Run → List String → W → W

abbrev pub or_empty : Option String → String
or_empty none = ""
or_empty (some s) = s

-- What cli works on: NewVisitorPool, whose visitors write their results below a directory, and what
-- becomes of the run. `none` is a panic.
pub record Workplace (W : Type 0) : Type 0 where
  pub open_pool : String → W → Option W
  pub crawls : Crawls W

-- How cli goes on: it exits with a code, or it waits.
pub data Outcome (W : Type 0) : Type 0 where
  exited : ℕ → Outcome W
  waiting : W → Outcome W

module _ (urls : UrlLib) (ids : UuidLib) (x : PathLib) where
  abbrev pub below : Option String → Option String → Bool
  below (some abs) (some wd) = has_prefix abs wd
  below _ _ = false

  -- (*ConsoleRequest).Validate: whether there are no violations.
  unfoldable pub validate_console : ConsoleRequest → Bool
  unfolding validate has_prefix
  validate_console req =
      if not (validate urls ids req.request)
      then false
      else if req.output_dir == ""
      then true
      else below (x.abs req.output_dir) x.getwd

  -- (*ConsoleRequest).GetOutputDir, which does not look at the error of Abs.
  unfoldable pub get_output_dir : ConsoleRequest → String
  get_output_dir req = or_empty (x.abs (if req.output_dir == "" then "." else req.output_dir))

  -- The run of cli; `default_agent` is the configured user agent.
  unfoldable pub console_run : String → ConsoleRequest → Option Run
  unfolding get_run get_urls get_auth_configs get_allow_domains get_user_agent
  console_run default_agent req = do
    id ← get_run ids req.request
    us ← get_urls urls true req.request
    some record {
      id = id;
      metadata = "";
      urls = us;
      auth_configs = get_auth_configs urls req.request;
      allow_domains = get_allow_domains urls req.request;
      ignore_paths = get_ignore_paths urls req.request;
      user_agent = get_user_agent urls default_agent req.request;
      result_reporter_dsn = "";
      output_content_only = req.output_content_only;
    }

  unfoldable pub cli : {W : Type 0} → Workplace W → String → ConsoleRequest → W → Option (Outcome W)
  unfolding validate_console get_output_dir console_run get_urls
  cli s default_agent req w = if not (validate_console req) then some (exited 1) else do
    w1 ← s.open_pool (get_output_dir req) w
    run ← console_run default_agent req
    us ← get_urls urls true req.request
    some (waiting (s.crawls.start run us (s.crawls.add run w1)))
