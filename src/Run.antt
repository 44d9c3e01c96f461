-- ===== src/Run.antt =====
-- The data of run.go.
use tobey.Common.{String, List, Bool}
use tobey.Host.{AuthConfig}

-- `SerializableRun`; a `Run` adds to it the store, the robots and the sitemaps that all runs share.
pub record Run : Type 0 where
  pub id : String
  pub metadata : String
  pub urls : List String
  pub auth_configs : List AuthConfig
  pub allow_domains : List String
  pub ignore_paths : List String
  pub user_agent : String
  pub result_reporter_dsn : String
  pub output_content_only : Bool
