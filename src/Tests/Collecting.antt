-- ===== src/Tests/Collecting.antt =====
-- Collectors and their enqueue function at concrete inputs.
use mathlib.Core.List.{Memᴰ}
use mathlib.Core.Option.{some-injective}
use tobey.Common.{
  List, Option, ap, sym, ℕ, String, ◌+◌, ◌≡◌, ◌⊎◌, ◌↔◌, refl, [], ◌∷◌, true, false, not, ◌&&◌, ◌||◌,
  none, some, is_some, nat_eq, string_eq, ◌==◌,
}
use tobey.Common.Text.{has_suffix}
use tobey.Failure.{http_status}
use tobey.Url.{hostname}
use tobey.Store.{create_store}
use tobey.Visitor.{Response}
use tobey.Ctrlq.Memory.{new_memory_visit_work_queue, open_queue, publish, lazy_host_queue}
use tobey.Collector.{Collector, CollectorLib, is_visit_allowed}
use tobey.Collector.Allowlist.{OnList}
use tobey.Collector.Laws.{is_visit_allowed_iff}
use tobey.Collector.Fetching.{FetchLib, Raw, Scraper, backend_do, visit}
use tobey.Collector.Outcomes.{visit_answers}
use tobey.System.{Libs, Tobey}
use tobey.System.Enqueue.{enqueue, start, is_seen, is_probably_sitemap, is_probably_siteindex}
use tobey.System.Crawl.{Ask, LeavesAlone, start_run, start_run_covers}
use tobey.System.Enqueue.Laws.{enqueue-seen, enqueue_idempotent}
use tobey.Tests.Libs.{page, page_url, page_parses, urls, rates, lru, get_or, run_named, parse}

abbrev pub lib : CollectorLib
lib = record {
  matches_path = λ lines path. false;
  parse_ref = λ base ref. some ref;
  robots_check = λ agent url. some true;
}

abbrev pub collector : Collector
collector = record {
  allow_domains = "a.org" ∷ [];
  ignore_paths = [];
  user_agent = "tobey";
  max_depth = 0;
  max_body_size = 0;
  max_redirects = 2;
  parse_http_error_response = false;
}

is_visit_allowed_iff_example : (is_visit_allowed urls lib collector page ≡ none) ↔ (
    OnList ("a.org" ∷ []) "a.org"
    × ((has_suffix "/" "robots.txt" ≡ true)
        ⊎ (has_suffix "/" "sitemap.xml" ≡ true)
        ⊎ (has_suffix "/" "sitemap_index.xml" ≡ true)
        ⊎ (lib.matches_path [] "/" ≡ false))
    × (lib.robots_check "tobey" (urls.render page_url) ≡ some true))
unfolding hostname
is_visit_allowed_iff_example = is_visit_allowed_iff urls lib collector page page_url page_parses

abbrev fetching : FetchLib
fetching = record {
  parse_whatwg = λ u. some u;
  to_lower = λ s. s;
  limit = λ n s. s;
  gunzip = λ s. some s;
  charset = record { to_lower = λ s. s; detect = λ b. none; encode_bytes = λ t b. some b };
  read_page = λ s. none;
}

abbrev missing_page : Raw
missing_page = record {
  status_code = 404;
  headers = [];
  url = page_url;
  body = "no";
  uncompressed = false;
  took = 3;
}

abbrev not_found : Response
not_found = record { status_code = 404; headers = []; url = page; body = "no"; took = 3 }

abbrev scraper : Scraper urls lib fetching ℕ
scraper = record {
  client_do = λ url hdr w. (w + 1, (some missing_page, none));
  enqueue = λ u w. some (w + 10);
  collect = λ res w. w + 100;
}

missing_read : backend_do urls lib fetching collector missing_page ≡ (some not_found, none)
unfolding backend_do
missing_read = refl

visited :
    visit urls lib fetching scraper collector page 0
    ≡ some (1, some not_found, some (http_status 404))
unfolding visit parse
visited = refl

visit_answers_example : (is_some (some not_found) || is_some (some (http_status 404))) ≡ true
visit_answers_example =
    visit_answers urls lib fetching scraper collector page 0 1 (some not_found)
      (some (http_status 404)) visited

abbrev pub libs : Libs
libs = record {
  urls = urls;
  rates = rates;
  lru = lru;
  parse_seconds = λ v. 0;
  visit = λ r url w. none;
}

abbrev world : Tobey libs
world = record {
  queue = open_queue new_memory_visit_work_queue;
  progress = record { updates = []; stats = []; updated = 0 };
  runs = record { entries = none; store = create_store };
  now = 7;
}

abbrev enqueued : Tobey libs
enqueued = get_or world (enqueue libs lib collector (run_named "r") [] page world)

enqueues : enqueue libs lib collector (run_named "r") [] page world ≡ some enqueued
unfolding enqueue parse create_store lazy_host_queue open_queue new_memory_visit_work_queue
    tobey.Ctrlq.Memory.enqueue
enqueues = refl

enqueue-seen_example : is_seen libs lib (run_named "r") page enqueued ≡ (
    (not (is_some (is_visit_allowed urls lib collector page))
      && ((run_named "r").id == (run_named "r").id && page == page))
    || is_seen libs lib (run_named "r") page world)
enqueue-seen_example =
    enqueue-seen libs lib collector (run_named "r") (run_named "r") [] page page world enqueued
      enqueues

enqueue_idempotent_example :
    enqueue libs lib collector (run_named "r") [] page enqueued ≡ some enqueued
enqueue_idempotent_example =
    enqueue_idempotent libs lib collector (run_named "r") [] [] page world enqueued enqueues

-- Of every host one sitemap is known.
abbrev pub ask : Ask libs lib
ask base w = some (w, some ("http://a.org/map.xml" ∷ []))

abbrev result : Option (Tobey libs × List String)
result = start_run libs lib ask collector (run_named "r") [] (page ∷ []) world

abbrev started : Tobey libs
started = (get_or (world, []) result).0

-- One sitemap is left to be drained.
starts : result ≡ some (started, "http://a.org/map.xml" ∷ [])
unfolding start_run start parse create_store lazy_host_queue open_queue new_memory_visit_work_queue
    tobey.Ctrlq.Memory.trigger_recalc tobey.Ctrlq.Memory.enqueue is_probably_sitemap
    is_probably_siteindex
starts = refl

no_sitemap : (is_probably_sitemap page || is_probably_siteindex page) ≡ false
unfolding is_probably_sitemap is_probably_siteindex
no_sitemap = refl

page_allowed : is_visit_allowed urls lib collector page ≡ none
unfolding is_visit_allowed parse
page_allowed = refl

pub leaves_alone : LeavesAlone libs lib ask
leaves_alone = record {
  ask-runs = λ b w w' a e. ap (λ p. p.0.runs) (sym (some-injective (w, _) (w', a) e));
  ask-queue = λ b w w' a e. ap (λ p. p.0.queue) (sym (some-injective (w, _) (w', a) e));
}

start_run_covers_example : is_seen libs lib (run_named "r") page started ≡ true
start_run_covers_example =
    start_run_covers libs lib ask leaves_alone collector (run_named "r") [] (page ∷ []) page world
      started ("http://a.org/map.xml" ∷ []) starts (Memᴰ.head refl) no_sitemap page_allowed
