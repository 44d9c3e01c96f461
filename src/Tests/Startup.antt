-- ===== src/Tests/Startup.antt =====
-- The start of the service at concrete inputs.
use tobey.Common.{ℕ, true, none, some, is_some, ◌≡◌, refl}
use tobey.Url.{UrlLib}
use tobey.Config.{default_settings}
use tobey.Reporters.{PathLib}
use tobey.Service.Startup.{Outside, service}
use tobey.Tests.Libs

-- Every DSN names the directory of results.
abbrev urls : UrlLib
urls = record tobey.Tests.Libs.urls {
  parse = λ u.
      some record { scheme = "disk"; user = none; host = "results"; path = ""; raw_query = "" };
}

abbrev paths : PathLib
paths = record {
  working_directory = some "/srv/";
  abs = λ p. some ("/srv/results");
  query_get = λ q k. "";
}

-- Nothing is configured, and nothing would fail.
abbrev outside : Outside
outside = record {
  env = λ name. "";
  otel = record { resource = λ n. none; trace_exporter = none; metric_exporter = none };
  runtime_start = none;
  connect = λ dsn. none;
  instrument_tracing = none;
  instrument_metrics = none;
}

comes_up : is_some (service urls paths outside {L = ℕ} default_settings) ≡ true
unfolding service
comes_up = refl
