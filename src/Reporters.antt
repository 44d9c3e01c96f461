-- ===== src/Reporters.antt =====
-- internal/result and conns.go: where results and progress are reported to, as a DSN says.
pub mod Laws
pub mod Reports
pub mod Kept
pub mod Collecting
use tobey.Common.{
  ℕ, String, List, [], ◌∷◌, Bool, true, false, not, ◌&&◌, ◌||◌, Option, none, some, ◌>>=◌,
  if◌then◌else◌, ◌==◌, string_eq,
}
use tobey.Common.Text.{◌<>◌, has_prefix, trim_prefix}
use tobey.Url.{Url, UrlLib}
use Prim.Native.Char.{code}
use tobey.Common.{nat_eq}
use Prim.Native.String

-- The working directory, filepath.Abs, which fails only if there is none, and the values of a
-- query's parameters.
pub record PathLib : Type 0 where
  pub working_directory : Option String
  pub abs : String → Option String
  pub query_get : String → String → String

pub record DiskConfig : Type 0 where
  pub output_dir : String
  pub output_content_only : Bool

pub record S3Config : Type 0 where
  pub bucket : String
  pub prefix : String
  pub endpoint : String
  pub region : String
  pub use_path_style : Bool

pub data ConfigError : Type 0 where
  invalid_dsn outside_working_directory unsupported_type : ConfigError

pub data Result (A : Type 0) : Type 0 where
  ok : A → Result A
  err : ConfigError → Result A

-- strings.SplitN(s, "/", 2)
unfoldable pub split_once : String → String × Option String
split_once String.[] = ("", none)
split_once (String.◌∷◌ c s) =
    let (before, after) = split_once s in
    if code c == b'/' then ("", some s) else (String.◌∷◌ c before, after)

module _ (urls : UrlLib) (x : PathLib) where
  abbrev directory_of : Url → String
  directory_of u = if u.path == "" && not (u.host == "") then u.host else u.path

  abbrev disk_config : Bool → String → String → Result DiskConfig
  disk_config constrain_paths wd dir =
      if constrain_paths && not (has_prefix dir wd)
      then err outside_working_directory
      else ok record { output_dir = dir; output_content_only = false }

  unfoldable pub new_disk_config_from_dsn : String → Bool → Result DiskConfig
  unfolding has_prefix
  new_disk_config_from_dsn dsn constrain_paths = elim (urls.parse dsn) [
    | none ↦ err invalid_dsn
    | some u ↦ elim x.working_directory [
      | none ↦ err invalid_dsn
      | some wd ↦ elim (x.abs (directory_of u)) [
        | none ↦ err invalid_dsn
        | some dir ↦ disk_config constrain_paths wd dir
      ]
    ]
  ]

  unfoldable pub new_webhook_endpoint_from_dsn : String → Result String
  new_webhook_endpoint_from_dsn dsn = elim (urls.parse dsn) [
    | none ↦ err invalid_dsn
    | some u ↦ ok (u.scheme <> "://" <> u.host <> u.path)
  ]

  abbrev or_empty : Option String → String
  or_empty none = ""
  or_empty (some s) = s

  unfoldable pub new_s3_config_from_dsn : String → Result S3Config
  unfolding split_once trim_prefix
  new_s3_config_from_dsn dsn = elim (urls.parse dsn) [
    | none ↦ err invalid_dsn
    | some u ↦
        let (bucket, prefix) = split_once (trim_prefix u.path "/") in
        ok record {
          bucket = bucket;
          prefix = or_empty prefix;
          endpoint = x.query_get u.raw_query "endpoint";
          region = x.query_get u.raw_query "region";
          use_path_style = x.query_get u.raw_query "usePathStyle" == "true";
        }
  ]

-- The reporters of results, with what they report to.
pub data ResultReporter : Type 0 where
  disk : DiskConfig → ResultReporter
  webhook : String → ResultReporter
  s3 : S3Config → ResultReporter
  noop : ResultReporter

-- The reporters of progress; the factorial service with its scheme and host.
pub data ProgressReporter : Type 0 where
  console : ProgressReporter
  factorial : String → String → ProgressReporter
  memory : ProgressReporter
  silent : ProgressReporter

abbrev pub map_ok : {A B : Type 0} → (A → B) → Result A → Result B
map_ok f (ok a) = ok (f a)
map_ok f (err e) = err e

module _ (urls : UrlLib) (x : PathLib) where
  unfoldable pub create_result_reporter : Bool → String → Result ResultReporter
  unfolding new_disk_config_from_dsn new_webhook_endpoint_from_dsn new_s3_config_from_dsn
  create_result_reporter dynamic_config dsn =
      if dsn == ""
      then map_ok disk (new_disk_config_from_dsn urls x "disk://results" dynamic_config)
      else elim (urls.parse dsn) [
        | none ↦ err invalid_dsn
        | some u ↦
            if u.scheme == "disk"
            then map_ok disk (new_disk_config_from_dsn urls x dsn dynamic_config)
            else if u.scheme == "webhook"
            then map_ok webhook (new_webhook_endpoint_from_dsn urls x dsn)
            else if u.scheme == "s3" || u.scheme == "s3s"
            then map_ok s3 (new_s3_config_from_dsn urls x dsn)
            else if u.scheme == "noop"
            then ok noop
            else err unsupported_type
      ]

  unfoldable pub create_progress_reporter : String → Result ProgressReporter
  create_progress_reporter dsn = if dsn == "" then ok silent else elim (urls.parse dsn) [
    | none ↦ err invalid_dsn
    | some u ↦
        if u.scheme == "console"
        then ok console
        else if u.scheme == "factorial" || u.scheme == "factorials"
        then ok (factorial (if u.scheme == "factorials" then "https" else "http") u.host)
        else if u.scheme == "memory"
        then ok memory
        else if u.scheme == "noop"
        then ok silent
        else err unsupported_type
  ]
