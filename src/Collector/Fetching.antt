-- ===== src/Collector/Fetching.antt =====
-- How a collector fetches a page: scrape and fetch of collector.go, Do of httpbackend.go, and the
-- handle… functions of callbacks.go. It is the collector of NewCollector: one callback for the links
-- of a page, one that collects the result, and none that aborts. net/http's client, goquery,
-- compress/gzip and the decoding of charsets are parameters.
use tobey.Common.{
  ℕ, String, List, [], ◌∷◌, Bool, false, not, ◌&&◌, ◌||◌, Option, none, some, ◌>>=◌, ltb,
  if◌then◌else◌, ◌==◌, nat_eq, string_eq,
}
use tobey.Common.Text.{has_suffix, contains}
use tobey.Failure.{Error, http_status}
use tobey.Headers.{Header, get, set}
use tobey.Url.{Url, UrlLib}
use tobey.Visitor.{Response}
use tobey.Collector.Charset.{CharsetLib, fix_charset}
use tobey.Collector.{Collector, CollectorLib, request_check, link_target}

-- What net/http's client answers with; `uncompressed` if it undid a gzip encoding itself.
pub record Raw : Type 0 where
  pub status_code : ℕ
  pub headers : Header
  pub url : Url
  pub body : String
  pub uncompressed : Bool
  pub took : ℕ

pub record FetchLib : Type 0 where
  -- urlParser.Parse(u), rendered by Href(false)
  pub parse_whatwg : String → Option String
  pub to_lower : String → String
  -- The first bytes of a body.
  pub limit : ℕ → String → String
  pub gunzip : String → Option String
  pub charset : CharsetLib
  -- The base element's and the links' `href`, unless the page cannot be read.
  pub read_page : String → Option (Option String × List String)

-- handleOnError: `none` is a nil dereference, and then the error is what it returns.
unfoldable pub handle_on_error : Collector → Option Response → Option Error → Option (Option Error)
handle_on_error c res (some err) = some (some err)
handle_on_error c none none = none
handle_on_error c (some res) none =
    if res.status_code == 304
    then some none
    else if c.parse_http_error_response || ltb res.status_code 203
    then some none
    else some (some (http_status res.status_code))

module _ (urls : UrlLib) (x : CollectorLib) (y : FetchLib) where
  -- Whether (*HTTPBackend).Do puts a gzip reader on the body.
  unfoldable pub is_gzipped : Raw → Bool
  unfolding contains has_suffix get
  is_gzipped raw =
      let encoding = y.to_lower (get "Content-Encoding" raw.headers) in
      not raw.uncompressed
      && (contains encoding "gzip"
          || (encoding == "" && contains (y.to_lower (get "Content-Type" raw.headers)) "gzip")
          || has_suffix (y.to_lower raw.url.path) ".xml.gz")

  abbrev limited : Collector → String → String
  limited c body = if ltb 0 c.max_body_size then y.limit c.max_body_size body else body

  abbrev with_body : Raw → Option String → Option Response × Option Error
  with_body raw none = (none, some (Error.other "gzip"))
  with_body raw (some body) = (
    some record {
      status_code = raw.status_code;
      headers = raw.headers;
      url = urls.render raw.url;
      body = body;
      took = raw.took;
    },
    none,
  )

  -- (*HTTPBackend).Do, behind the client, which answers or fails.
  unfoldable pub backend_do : Collector → Raw → Option Response × Option Error
  unfolding is_gzipped
  backend_do c raw =
      let body = limited c raw.body in
      with_body raw (if is_gzipped raw then y.gunzip body else some body)

  -- What a scrape is made with. A world of `none` is a panic of the enqueue function.
  pub record Scraper (W : Type 0) : Type 0 where
    -- http.Client's Do, for a URL and its request headers
    pub client_do : Url → Header → W → W × (Option Raw × Option Error)
    pub enqueue : String → W → Option W
    pub collect : Response → W → W

  module _ {W : Type 0} (s : Scraper W) where
    abbrev pub enqueue_target : Option String → W → Option W
    enqueue_target none w = some w
    enqueue_target (some url) w = s.enqueue url w

    unfoldable pub follow_links : Url → Option Url → List String → W → Option W
    unfolding link_target
    follow_links url base [] w = some w
    follow_links url base (href ∷ hrefs) w = do
      w1 ← enqueue_target (link_target urls x url base href) w
      follow_links url base hrefs w1

    abbrev pub base_url : Url → Option String → Option Url
    base_url url none = none
    base_url url (some href) = do abs ← x.parse_ref (urls.render url) href; urls.parse abs

    -- handleOnHTML; a page that cannot be read is logged only.
    unfoldable pub handle_on_html : Url → Response → W → Option W
    unfolding follow_links contains get
    handle_on_html url res w =
        if not (contains (y.to_lower (get "Content-Type" res.headers)) "html")
        then some w
        else elim (y.read_page res.body) [
          | none ↦ some w
          | some (base, hrefs) ↦ follow_links url (base_url url base) hrefs w
        ]

    -- The end of fetch, behind the error callbacks. NewCollector leaves DetectCharset off, and no
    -- callback sets a request's ResponseCharacterEncoding.
    unfoldable pub hand_out : Url → Response → W → Option (W × Option Response × Option Error)
    unfolding handle_on_html
    hand_out url res w = elim (fix_charset y.charset false "" res) [
      | none ↦ some (w, some res, some (Error.other "charset"))
      | some fixed ↦ (do
        w1 ← handle_on_html url fixed w
        some (s.collect fixed w1, some fixed, none))
    ]

    abbrev pub fetched :
        Url → W → Option Response → Option Error → Option (W × Option Response × Option Error)
    fetched url w res (some err) = some (w, res, some err)
    fetched url w none none = none
    fetched url w (some res) none = hand_out url res w

    abbrev pub answered : Collector → Option Raw × Option Error → Option Response × Option Error
    answered c (some raw, none) = backend_do c raw
    answered c (_, err) = (none, err)

    -- The URL that links are relative to is that of the last request.
    abbrev pub last_url : Url → Option Raw → Url
    last_url url none = url
    last_url url (some raw) = raw.url

    -- From the client's answer on.
    unfoldable pub deliver :
        Collector
        → Url
        → W × (Option Raw × Option Error)
        → Option (W × Option Response × Option Error)
    unfolding backend_do handle_on_error hand_out
    deliver c url (w1, (raw, failure)) = do
      err ← handle_on_error c (answered c (raw, failure)).0 (answered c (raw, failure)).1
      fetched (last_url url raw) w1 (answered c (raw, failure)).0 err

    abbrev pub sent_header : Header → Header
    sent_header hdr = if get "Accept" hdr == "" then set "Accept" "*/*" hdr else hdr

    unfoldable pub fetch :
        Collector → Url → Header → W → Option (W × Option Response × Option Error)
    unfolding deliver
    fetch c url hdr w = deliver c url (s.client_do url (sent_header hdr) w)

    -- http.NewRequestWithContext parses the URL again; a request that is made is checked and sent.
    unfoldable pub request_url :
        Collector → Option Url → W → Option (W × Option Response × Option Error)
    unfolding fetch request_check set
    request_url c none w = some (w, none, some (Error.other "parse"))
    request_url c (some url) w = elim (request_check c 1) [
      | some err ↦ some (w, none, some err)
      | none ↦ fetch c url (set "User-Agent" c.user_agent []) w
    ]

    -- (*Collector).Visit: a scrape by GET, of depth 1, without headers of its own.
    unfoldable pub visit : Collector → String → W → Option (W × Option Response × Option Error)
    unfolding request_url
    visit c u w = elim (y.parse_whatwg u) [
      | none ↦ some (w, none, some (Error.other "parse"))
      | some href ↦ elim (urls.parse href) [
        | none ↦ some (w, none, some (Error.other "parse"))
        | some url ↦ request_url c (urls.parse (urls.render url)) w
      ]
    ]
