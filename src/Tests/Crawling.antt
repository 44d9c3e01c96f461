-- ===== src/Tests/Crawling.antt =====
-- A crawl from its start to a worker's second page, at concrete inputs.
use tobey.Common.{String, List, [], ◌∷◌, true, false, Option, none, some, ◌≡◌, refl}
use tobey.Failure.{Error}
use tobey.Run.{Run}
use tobey.Store.{create_store, has_seen_url}
use tobey.Ctrlq.Memory.{new_memory_visit_work_queue, open_queue, lazy_host_queue}
use tobey.Collector.{CollectorLib}
use tobey.Collector.Fetching.{FetchLib, Raw}
use tobey.Visitor.{Response, Event, job, Worker, waits, run}
use tobey.System.{Libs, Tobey, parts}
use tobey.System.Enqueue.{is_seen}
use tobey.System.Crawl.{start_run}
use tobey.System.Visiting.{Wire, get_collector, crawler}
use tobey.Tests.Libs.{page, page_url, get_or, run_named, parse}
use tobey.Tests.Collecting.{lib, ask, libs}

-- Every page is the same one, and names two more.
abbrev fetching : FetchLib
fetching = record {
  parse_whatwg = λ u. some u;
  to_lower = λ s. s;
  limit = λ n s. s;
  gunzip = λ s. some s;
  charset = record { to_lower = λ s. s; detect = λ b. none; encode_bytes = λ t b. some b };
  read_page = λ s. some (none, "http://a.org/b" ∷ "http://a.org/c" ∷ []);
}

abbrev html_page : Raw
html_page = record {
  status_code = 200;
  headers = ("Content-Type", "text/html; charset=utf-8" ∷ []) ∷ [];
  url = page_url;
  body = "<html>";
  uncompressed = false;
  took = 3;
}

abbrev wire : Wire (Tobey libs)
wire = record {
  Sent = Option Raw × Option Error;
  base64 = λ s. s;
  cached = λ t. t;
  default_transport = λ u h w. (w, (some html_page, none));
  client_do = λ follows t. t;
  skip_cache = false;
  max_redirects = 10;
}

abbrev collect : Run → Response → Tobey libs → Tobey libs
collect r res w = w

abbrev world : Tobey libs
world = record {
  queue = open_queue new_memory_visit_work_queue;
  progress = record { updates = []; stats = []; updated = 0 };
  runs = record { entries = some (run_named "r"); store = create_store };
  now = 7;
}

abbrev result : Option (Tobey libs × List String)
result =
    start_run libs lib ask (get_collector 10 (run_named "r")) (run_named "r") [] (page ∷ []) world

abbrev started : Tobey libs
started = (get_or (world, []) result).0

abbrev first_job : Event
first_job = job record {
  message = record { id = 1; run = "r"; url = page; created = 7; retries = 0; carrier = [] };
  context = [];
}

abbrev world_of : Worker (Tobey libs) → Tobey libs
world_of (waits w) = w
world_of other = world

abbrev worked : Tobey libs
worked = world_of (run (parts (crawler libs lib fetching wire collect [])) (first_job ∷ []) started)

third_page_seen : is_seen libs lib (run_named "r") "http://a.org/c" worked ≡ true
unfolding run start_run get_collector parts tobey.RunManager.get_run parse create_store
    lazy_host_queue open_queue new_memory_visit_work_queue tobey.Ctrlq.Memory.enqueue
    tobey.Ctrlq.Memory.trigger_recalc tobey.System.Visiting.visit_run
    tobey.Collector.Charset.fix_charset tobey.Ctrlq.Memory.take_rate_limit_headers
    tobey.Ctrlq.Memory.take_sample has_seen_url
third_page_seen = refl
