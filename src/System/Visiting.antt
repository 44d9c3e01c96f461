-- ===== src/System/Visiting.antt =====
-- GetClient and GetCollector of run.go, with the settings of NewCollector, and the visitor that
-- fetches pages through them. The transport, the cache and net/http's client, which follows
-- redirects as it is told, are parameters, and so are the reporters that a result goes to.
pub mod Laws
pub mod Once
use tobey.Common.{ℕ, String, List, [], ◌∷◌, ◌*◌, Bool, false, Option, none, some, ◌>>=◌, ◌≡◌}
use tobey.Failure.{Error}
use tobey.Headers.{Header}
use tobey.Host.{get_auth}
use tobey.HttpClient.{RoundTripper, with_middlewares}
use tobey.Run.{Run}
use tobey.Ctrlq.Job.{Carrier}
use tobey.Visitor.{Response}
use tobey.Url.{Url}
use tobey.Collector.{Collector, CollectorLib, check_redirect}
use tobey.Collector.Fetching.{FetchLib, Raw, Scraper, visit}
use tobey.System.{Libs, Tobey}
use tobey.System.Enqueue.{enqueue}

-- The settings that NewCollector makes a collector with.
unfoldable pub collector_defaults : Collector
collector_defaults = record {
  allow_domains = [];
  ignore_paths = [];
  user_agent = "";
  max_depth = 0;
  max_body_size = 10 * 1024 * 1024;
  max_redirects = 10;
  parse_http_error_response = false;
}

-- The collector that GetCollector sets up, where `max_redirects` is main.go's MaxRedirects.
unfoldable pub get_collector : ℕ → Run → Collector
unfolding collector_defaults
get_collector max_redirects run = record collector_defaults {
  user_agent = run.user_agent;
  allow_domains = run.allow_domains;
  ignore_paths = run.ignore_paths;
  max_redirects = max_redirects;
}

-- What a run's client works with, over a world W; A is what a transport answers.
pub record Wire (W : Type 0) : Type 1 where
  pub Sent : Type 0
  pub base64 : String → String
  pub cached : RoundTripper W Sent → RoundTripper W Sent
  pub default_transport : RoundTripper W Sent
  -- Do of a http.Client, from its CheckRedirect and its Transport
  pub client_do : (ℕ → Bool) → RoundTripper W Sent → RoundTripper W (Option Raw × Option Error)
  -- main.go's settings
  pub skip_cache : Bool
  pub max_redirects : ℕ

module _ {W : Type 0} (wire : Wire W) where
  open wire use {Sent}

  -- CreateCrawlerHTTPClient: the transport of the client.
  unfoldable pub create_crawler_http_client : Run → RoundTripper W Sent
  unfolding with_middlewares get_auth
  create_crawler_http_client run =
      with_middlewares wire.base64 wire.cached wire.skip_cache wire.default_transport
        (get_auth run.auth_configs) run.user_agent

  -- GetClient, under the redirect policy that NewCollector gives to the backend.
  unfoldable pub get_client : Run → RoundTripper W (Option Raw × Option Error)
  unfolding create_crawler_http_client check_redirect
  get_client run =
      wire.client_do (check_redirect (get_collector wire.max_redirects run))
        (create_crawler_http_client run)

module _ (x : Libs) (y : CollectorLib) (z : FetchLib) (wire : Wire (Tobey x))
    (collect : Run → Response → Tobey x → Tobey x) where
  open x use {urls}

  -- What the collector of a run is made with; the visits that it enqueues carry the tracing
  -- information of the job.
  abbrev pub scraper : Carrier → Run → Scraper urls y z (Tobey x)
  scraper carrier run = record {
    client_do = get_client wire run;
    enqueue = enqueue x y (get_collector wire.max_redirects run) run carrier;
    collect = collect run;
  }

  -- What `process` does with the collector of a job's run.
  unfoldable pub visit_run :
      Carrier → Run → String → Tobey x → Option (Tobey x × Option Response × Option Error)
  unfolding visit get_client get_collector enqueue
  visit_run carrier run =
      visit urls y z (scraper carrier run) (get_collector wire.max_redirects run)

  -- The libraries that a visitor uses, with a collector that is the program's own.
  abbrev pub crawler : Carrier → Libs
  crawler carrier = record x { visit = visit_run carrier }
