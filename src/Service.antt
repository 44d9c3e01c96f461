-- ===== src/Service.antt =====
-- The service: the pool of visitors of visitorpool.go, and the two routers of
-- routes.go. JSON and Unicode's white space are parameters.
pub mod Laws
pub mod Startup
use Prim.Native.Char.{Char}
use tobey.Common.{
  ℕ, String, zero, suc, ◌+◌, List, [], ◌∷◌, ◌++◌, Bool, true, false, not, ◌||◌, Option, none, some,
  ◌>>=◌, ltb, if◌then◌else◌, length, map, ◌⊎◌, inl, inr,
}
use tobey.Common.Int.{ℤ, pos, negsuc}
use tobey.Common.Split.{split}
use tobey.Common.Text.{has_prefix}
use tobey.Url.{UrlLib}
use tobey.Api.{Request, UuidLib, new_run, get_urls, validate}
use tobey.Console.{Crawls}

-- Of a visitor, the number that it is told apart by.
pub record VisitorPool : Type 0 where
  pub start_workers_num : ℤ
  pub workers : List ℕ

-- The loop of NewVisitorPool, of which k turns are to come.
unfoldable pub start_workers : ℕ → ℕ → List ℕ → List ℕ
start_workers zero i workers = workers
start_workers (suc k) i workers = start_workers k (suc i) (workers ++ i ∷ [])

-- `make` panics on a negative capacity.
unfoldable pub new_visitor_pool : ℤ → Option VisitorPool
unfolding start_workers
new_visitor_pool (negsuc n) = none
new_visitor_pool (pos n) = some record { start_workers_num = pos n; workers = start_workers n 0 [] }

abbrev pub fewer_than : ℕ → ℤ → Bool
fewer_than n (pos m) = ltb n m
fewer_than n (negsuc m) = false

-- The error tells how many workers there are, and how many were started.
unfoldable pub is_healthy : VisitorPool → Bool × Option (ℕ × ℤ)
is_healthy p =
    if fewer_than (length p.workers) p.start_workers_num
    then (false, some (length p.workers, p.start_workers_num))
    else (true, none)

-- The handler of GET /healthz.
unfoldable pub health_status : VisitorPool → ℕ
unfolding is_healthy
health_status p = if not (is_healthy p).0 then 503 else 200

-- APIRequest
pub record ApiRequest : Type 0 where
  pub request : Request
  pub run_metadata : String
  pub result_reporter_dsn : String

-- bytes.TrimSpace; json.Unmarshal into a request, or an error's text.
pub record WebLib : Type 0 where
  pub trim_space : String → String
  pub unmarshal : String → ApiRequest ⊎ String

-- An APIError with status 400, or an APIResponse with status 200 and the run's id.
pub data Answer : Type 0 where
  bad_request accepted : String → Answer

abbrev pub newline : Char
newline = "\n"

abbrev pub of_urls : List String → ApiRequest
of_urls us = record {
  request = record {
    run = "";
    url = "";
    urls = us;
    aliased_domains = [];
    ignore_paths = [];
    user_agent = "";
    auth_configs = [];
  };
  run_metadata = "";
  result_reporter_dsn = "";
}

module _ (urls : UrlLib) (ids : UuidLib) (x : WebLib) where
  -- What the handler of POST / reads in a body.
  unfoldable pub read_body : String → ApiRequest ⊎ String
  unfolding has_prefix split
  read_body body =
      if has_prefix body "http://" || has_prefix body "https://"
      then inl (of_urls (map x.trim_space (split newline (x.trim_space body))))
      else x.unmarshal body

  module _ {W : Type 0} (s : Crawls W) (default_agent : String) where
    unfoldable pub accept : ApiRequest → W → Option (W × Answer)
    unfolding validate new_run get_urls
    accept req w =
        if not (validate urls ids req.request) then some (w, bad_request "Invalid request.") else do
          run ← new_run urls ids default_agent req.run_metadata req.result_reporter_dsn req.request
          let w1 = s.add run w
          us ← get_urls urls true req.request
          some (s.start run us w1, accepted run.id)

    abbrev pub respond : ApiRequest ⊎ String → W → Option (W × Answer)
    respond (inl req) w = accept req w
    respond (inr message) w = some (w, bad_request message)

    -- The handler of POST /.
    unfoldable pub post : String → W → Option (W × Answer)
    unfolding read_body accept
    post body w = respond (read_body body) w
