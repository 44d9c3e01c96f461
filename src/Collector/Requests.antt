-- ===== src/Collector/Requests.antt =====
-- request.go, and scrape and fetch of collector.go for requests of every method and depth, with every
-- kind of callback. Callbacks find the request in their world; they change its headers in place, and
-- what else they change of it does not reach the request that is sent. After a redirect the request
-- keeps its headers here. No collector of the program turns DetectCharset on.
pub mod Laws
pub mod Beside
pub mod Plain
use tobey.Common.{
  ℕ, String, suc, ◌+◌, List, [], ◌∷◌, Bool, true, false, not, ◌&&◌, Option, none, some, ◌>>=◌,
  is_some, if◌then◌else◌, ◌==◌, string_eq,
}
use tobey.Common.Dict.{lookup}
use tobey.Failure.{Error, aborted_after_headers}
use tobey.Headers.{Header, get, set, add}
use tobey.Url.{Url, UrlLib}
use tobey.Visitor.{Response}
use tobey.Collector.{Collector, CollectorLib, request_check, absolute_url}
use tobey.Collector.Charset.{fix_charset}
use tobey.Collector.Fetching.{FetchLib, Raw, handle_on_error, backend_do}
use tobey.Collector.Callbacks.{
  Callback, Callbacks, call_all, handle_on_request, handle_on_response, handle_on_response_headers,
  handle_on_scraped,
}
use tobey.Collector.Callbacks.Handlers.{DocLib, handle_on_html, handle_on_xml}

-- An io.Reader: what reading it to its end yields, or an error.
abbrev pub Body : Type 0
Body = Option String

pub record Request : Type 0 where
  pub url : Url
  pub headers : Header
  pub host : String
  pub depth : ℕ
  pub method : String
  pub body : Option Body
  pub response_character_encoding : String
  pub id : ℕ  -- uint32
  pub abort : Bool
  pub base_url : Option Url
  pub proxy_url : String

pub record SerializableRequest : Type 0 where
  pub url : String
  pub method : String
  pub depth : ℕ
  pub body : String
  pub id : ℕ
  pub headers : Header
  pub host : String

-- Abort
unfoldable pub abort : Request → Request
abort r = record r { abort = true }

-- A request with nothing but what the arguments say.
abbrev pub blank_request : String → Url → Option Body → Header → String → ℕ → Request
blank_request method url body hdr host depth = record {
  url = url;
  headers = hdr;
  host = host;
  depth = depth;
  method = method;
  body = body;
  response_character_encoding = "";
  id = 0;
  abort = false;
  base_url = none;
  proxy_url = "";
}

module _ (urls : UrlLib) (x : CollectorLib) (y : FetchLib) (d : DocLib) where
  -- New
  unfoldable pub new_request : Request → String → String → Option Body → Option Request
  new_request r method u body = do
    href ← y.parse_whatwg u
    url ← urls.parse href
    some (blank_request method url body [] r.host 0)

  abbrev serialize : Request → String → SerializableRequest
  serialize r body = record {
    url = urls.render r.url;
    method = r.method;
    depth = r.depth;
    body = body;
    id = r.id;
    headers = r.headers;
    host = r.host;
  }

  abbrev read_body : Option Body → Option String
  read_body none = some ""
  read_body (some body) = body

  -- Marshal, by a json.Marshal
  unfoldable pub marshal : (SerializableRequest → Option String) → Request → Option String
  marshal json r = do body ← read_body r.body; json (serialize r body)

  -- Sends, for a world W, a request as it is made and with its headers.
  abbrev pub Client : Type 0 → Type 0
  Client W = Request → W → W × (Option Raw × Option Error)

  module _ {W : Type 0} (client_do : Client W) where
    abbrev pub Live : Type 0
    Live = Request × W

    abbrev pub Calls : Type 0
    Calls = Callbacks Live (Unit {0})

    abbrev pub Outcome : Type 0
    Outcome = Live × Option Response × Option Error

    abbrev pub head_of : Raw → Response
    head_of raw = record {
      status_code = raw.status_code;
      headers = raw.headers;
      url = urls.render raw.url;
      body = "";
      took = 0;
    }

    -- The rest of (*HTTPBackend).Do, behind checkHeadersFunc.
    abbrev pub read_answer : Collector → Raw → Live → Outcome
    read_answer c raw (r, w) =
        if r.abort
        then ((r, w), none, some aborted_after_headers)
        else ((r, w), (backend_do urls x y c raw).0, (backend_do urls x y c raw).1)

    -- (*HTTPBackend).Do, from the client's answer on.
    unfoldable pub take_answer :
        Collector → Calls → Live → Option Raw × Option Error → Option Outcome
    unfolding backend_do handle_on_response_headers
    take_answer c cb (r, w) (some raw, none) = do
      live ← handle_on_response_headers cb (head_of raw) (record r { url = raw.url }, w)
      some (read_answer c raw live)
    take_answer c cb live (_, err) = some (live, none, err)

    abbrev pub or_blank : Request → Option Response → Response
    or_blank r (some res) = res
    or_blank r none = record {
      status_code = 0;
      headers = [];
      url = urls.render r.url;
      body = "";
      took = 0;
    }

    abbrev pub call_errors :
        Calls → Option Response → Option Error → Live → Option (Live × Option Error)
    call_errors cb res none live = some (live, none)
    call_errors cb res (some err) live = do
      live1 ← call_all cb.error (or_blank live.0 res, err) live
      some (live1, some err)

    -- handleOnError, with the callbacks
    unfoldable pub handle_errors :
        Collector → Calls → Option Response → Option Error → Live → Option (Live × Option Error)
    unfolding handle_on_error call_all
    handle_errors c cb res err live = do
      err1 ← handle_on_error c res err
      call_errors cb res err1 live

    -- What fetch does with a handler's answer: an error of it is handled, and else only logged.
    abbrev pub heed : Collector → Calls → Response → Live × Option Url × Bool → Option Live
    heed c cb res ((r, w), base, true) = some (record r { base_url = base }, w)
    heed c cb res ((r, w), base, false) = do
      (live, err) ←
          handle_errors c cb (some res) (some (Error.other "parse"))
            (record r { base_url = base }, w)
      some live

    abbrev pub page_error : Live × Option Url × Bool → Option Error
    page_error (live, base, true) = none
    page_error (live, base, false) = some (Error.other "parse")

    -- The handlers of a response whose charset is fixed.
    unfoldable pub handle_all : Collector → Calls → Response → Live → Option Outcome
    unfolding handle_on_response handle_on_html handle_on_xml handle_on_scraped handle_errors
    handle_all c cb res live = do
      live1 ← handle_on_response cb res live
      html ← handle_on_html urls x d cb live1.0.url live1.0.base_url res live1
      live2 ← heed c cb res html
      xml ← handle_on_xml urls x d cb live2.0.url live2.0.base_url res live2
      live3 ← heed c cb res xml
      live4 ← handle_on_scraped cb res live3
      some (live4, some res, page_error xml)

    -- Behind the error callbacks.
    unfoldable pub finish :
        Collector → Calls → Option Response → Live × Option Error → Option Outcome
    unfolding handle_all fix_charset
    finish c cb res (live, some err) = some (live, res, some err)
    finish c cb none (live, none) = none
    finish c cb (some res) (live, none) =
        elim (fix_charset y.charset false live.0.response_character_encoding res) [
          | none ↦ some (live, some res, some (Error.other "charset"))
          | some fixed ↦ handle_all c cb fixed live
        ]

    abbrev pub with_accept : Header → Header
    with_accept hdr = if get "Accept" hdr == "" then set "Accept" "*/*" hdr else hdr

    abbrev pub with_type : String → Header → Header
    with_type method hdr =
        if method == "POST" && get "Content-Type" hdr == ""
        then add "Content-Type" "application/x-www-form-urlencoded" hdr
        else hdr

    -- From backend.Do on; `sent` is the request that the client gets.
    unfoldable pub send : Collector → Calls → Request → Live → Option Outcome
    unfolding take_answer handle_errors finish
    send c cb sent (r, w) = do
      let (w1, answer) = client_do sent w
      (live, res, err) ← take_answer c cb (r, w1) answer
      handled ← handle_errors c cb res err live
      finish c cb res handled

    -- An aborted request is not sent.
    abbrev pub unless_aborted : Collector → Calls → Request → Live → Option Outcome
    unless_aborted c cb made (r, w) =
        let hdr = with_type made.method r.headers in
        if r.abort
        then some ((r, w), none, none)
        else send c cb (record made { headers = hdr }) (record r { headers = hdr }, w)

    -- fetch, of a request that was just made
    unfoldable pub fetch : Collector → Calls → Request → W → Option Outcome
    unfolding handle_on_request send
    fetch c cb made w = do
      live ← handle_on_request cb tt (record made { headers = with_accept made.headers }, w)
      unless_aborted c cb made live

    abbrev pub with_agent : Collector → Header → Header
    with_agent c hdr =
        if is_some (lookup "User-Agent" hdr) then hdr else set "User-Agent" c.user_agent hdr

    abbrev pub host_of : Url → Header → String
    host_of url hdr = if get "Host" hdr == "" then url.host else get "Host" hdr

    -- A request that http.NewRequestWithContext made, or not.
    abbrev pub check_and_fetch :
        Collector
        → Calls
        → Option Url
        → String
        → ℕ
        → Option Body
        → Header
        → W
        → Option (W × Option Response × Option Error)
    check_and_fetch c cb none method depth body hdr w = some (w, none, some (Error.other "parse"))
    check_and_fetch c cb (some url) method depth body hdr w = elim (request_check c depth) [
      | some err ↦ some (w, none, some err)
      | none ↦ (do
        (live, res, err) ← fetch c cb (blank_request method url body hdr (host_of url hdr) depth) w
        some (live.1, res, err))
    ]

    -- scrape, of a valid method; http.NewRequestWithContext parses the URL again. A nil header is an
    -- empty one.
    unfoldable pub scrape :
        Collector
        → Calls
        → String
        → String
        → ℕ
        → Option Body
        → Header
        → W
        → Option (W × Option Response × Option Error)
    unfolding fetch request_check lookup set
    scrape c cb u method depth body hdr w = elim (do href ← y.parse_whatwg u; urls.parse href) [
      | none ↦ some (w, none, some (Error.other "parse"))
      | some url ↦
          check_and_fetch c cb (urls.parse (urls.render url)) method depth body (with_agent c hdr) w
    ]

    -- Visit of a request
    unfoldable pub visit_from :
        Collector → Calls → Request → String → W → Option (W × Option Response × Option Error)
    unfolding scrape absolute_url
    visit_from c cb r u w =
        scrape c cb (absolute_url urls x r.url r.base_url u) "GET" (r.depth + 1) none [] w

    -- Do of a request
    unfoldable pub submit :
        Collector → Calls → Request → W → Option (W × Option Response × Option Error)
    unfolding scrape
    submit c cb r w = scrape c cb (urls.render r.url) r.method r.depth r.body r.headers w
