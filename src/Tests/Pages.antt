-- ===== src/Tests/Pages.antt =====
-- A page with one link, for the callbacks of NewCollector.
use tobey.Common.{
  String, ℕ, ◌+◌, [], ◌∷◌, false, none, some, Option, arith, string_eq, ◌==◌, ◌≡◌, refl,
}
use tobey.Visitor.{Response}
use tobey.Collector.{CollectorLib}
use tobey.Collector.Fetching.{FetchLib, Scraper}
use tobey.Collector.Fetching
use tobey.Collector.Callbacks.Handlers.{DocLib, new_collector}
use tobey.Collector.Callbacks.{handle_on_request, no_callbacks}
use tobey.Collector.Requests.{Request, Client, blank_request, fetch, visit_from, with_accept}
use tobey.Collector.Requests.Laws.{visit_from_deepest}
use tobey.Collector.Requests.Beside.{plain, without_request}
use tobey.Collector.Requests.Plain.{fetch-plain}
use tobey.Failure.{Error}
use tobey.Tests.Collecting.{collector}
use tobey.Tests.Libs.{parse, page, page_url, urls}

abbrev lib : CollectorLib
lib = record {
  matches_path = λ lines path. false;
  parse_ref = λ base ref. some ref;
  robots_check = λ agent url. none;
}

-- A page's text is the address of its link.
abbrev fetching : FetchLib
fetching = record {
  parse_whatwg = λ u. some u;
  to_lower = λ s. s;
  limit = λ n s. s;
  gunzip = λ s. some s;
  charset = record { to_lower = λ s. s; detect = λ b. none; encode_bytes = λ t b. some b };
  read_page = λ s. some (none, s ∷ []);
}

abbrev documents : DocLib
documents = record {
  Doc = String;
  to_lower = λ s. s;
  read_html = λ s. some s;
  find = λ doc selector. (λ k. doc) ∷ [];
  query_html = λ doc query. [];
  read_xml = λ s. none;
  query_xml = λ doc query. [];
  base_href = λ doc. none;
  base_query = λ doc. none;
  parse_from = λ url ref. none;
}

abbrev scraper : Scraper urls lib fetching ℕ
scraper = record {
  client_do = λ url hdr w. (w, (none, none));
  enqueue = λ u w. some (w + 10);
  collect = λ res w. w;
}

abbrev linked : Response
linked = record {
  status_code = 200;
  headers = ("Content-Type", "text/html" ∷ []) ∷ [];
  url = page;
  body = "http://a.org/b";
  took = 1;
}

-- A network on which every page holds one link.
abbrev answering : Scraper urls lib fetching ℕ
answering = record {
  client_do = λ url hdr w. (
    w + 1,
    (
      some record {
        status_code = 200;
        headers = ("Content-Type", "text/html" ∷ []) ∷ [];
        url = url;
        body = "http://a.org/b";
        uncompressed = false;
        took = 1;
      },
      none,
    ),
  );
  enqueue = λ u w. some (w + 10);
  collect = λ res w. w + 100;
}

abbrev client : Client urls lib fetching documents ℕ
client r w = answering.client_do r.url r.headers w

abbrev made : Request
made = blank_request "GET" page_url none [] "a.org" 1

abbrev fetched : Option (ℕ × Option Response × Option Error)
fetched = without_request urls lib fetching documents answering client (
    fetch urls lib fetching documents client collector
      (plain urls lib fetching documents answering client) made 3)

fetched_page : fetched ≡ some (114, some linked, none)
unfolding fetch new_collector parse
fetched_page = refl

no_post : ◌==◌ {A = String} "GET" "POST" ≡ false
no_post = refl

fetch-plain_example : fetched ≡ Fetching.fetch urls lib fetching answering collector page_url [] 3
fetch-plain_example =
    fetch-plain urls lib fetching documents answering client (λ body. refl) (λ t. refl) collector
      made 3 refl refl refl no_post (λ hdr v. refl)

quiet :
    handle_on_request {W = Request × ℕ} {Q = Unit {0}} no_callbacks tt
      (record made { headers = with_accept urls lib fetching documents client [] }, 3)
    ≡ some (record made { headers = with_accept urls lib fetching documents client [] }, 3)
unfolding handle_on_request
quiet = refl

visit_from_deepest_example :
    (err : Error) × (visit_from urls lib fetching documents client
        (record collector { max_depth = 1 })
        no_callbacks
        made
        "b"
        3
      ≡ some (3, none, some err))
visit_from_deepest_example =
    visit_from_deepest urls lib fetching documents client (record collector { max_depth = 1 })
      no_callbacks made "b" 3 (omega arith) (omega arith)
