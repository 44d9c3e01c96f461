-- ===== src/Tests/Service.antt =====
-- The settings, the command line and the API at concrete inputs.
use tobey.Common.{
  ℕ, String, ◌+◌, List, [], ◌∷◌, ◌++◌, true, false, none, some, ◌≡◌, refl, if◌then◌else◌, inl, inr,
  ◌≢◌, eq_iff,
}
use tobey.Common.Int.{pos}
use tobey.Common.Split.{join, free_of}
use tobey.Common.Text.{◌<>◌, has_prefix}
use tobey.Headers.{Header}
use tobey.Host.{AuthConfig, get_auth, new_host_from_url}
use tobey.HttpClient.{RoundTripper, with_middlewares}
use tobey.HttpClient.Laws.{values, no_credentials}
use tobey.Api.{Request, UuidLib}
use tobey.Console.{ConsoleRequest, PathLib, Crawls, Workplace}
use tobey.Config.{Flags, ConfigLib, default_settings, configure}
use tobey.Config.Laws.{AllPassed, flags_decide}
use tobey.Service.{WebLib, newline, of_urls, read_body, post}
use tobey.Service.Laws.{Answered, post_answers, read_lines}
use tobey.Tests.Libs.{page, page_url, urls}

abbrev ids : UuidLib
ids = record { parse = λ s. some s; fresh = "new" }

abbrev paths : PathLib
paths = record { abs = λ p. some ("/home/" <> p); getwd = some "/home/" }

-- The events that the world has seen.
abbrev log : Crawls (List String)
log = record { add = λ run w. run.id ∷ w; start = λ run us w. us ++ w }

abbrev place : Workplace (List String)
place = record { open_pool = λ dir w. some (dir ∷ w); crawls = log }

abbrev request : Request
request = record {
  run = "";
  url = "";
  urls = page ∷ [];
  aliased_domains = [];
  ignore_paths = [];
  user_agent = "";
  auth_configs = [];
}

abbrev console : ConsoleRequest
console = record { request = request; output_dir = "out"; output_content_only = true }

abbrev web : WebLib
web = record { trim_space = λ s. s; unmarshal = λ s. inr "no JSON" }

post_answers_example :
    Answered urls ids web log "tobey"
      (read_body urls ids web page)
      []
      (post urls ids web log "tobey" page [])
post_answers_example = post_answers urls ids web log "tobey" page []

read_lines_example :
    read_body urls ids web (join newline (page ∷ "http://b.org/" ∷ []))
    ≡ inl (of_urls (page ∷ "http://b.org/" ∷ []))
unfolding join free_of has_prefix
read_lines_example =
    read_lines urls ids web page ("http://b.org/" ∷ []) refl refl ((refl, refl), ((refl, refl), tt))

abbrev config : ConfigLib
config = record { to_lower = λ s. s; atoi = λ s. none }

abbrev no_flags : Flags
no_flags = record {
  daemon = none;
  debug = none;
  no_cache = none;
  dynamic_config = none;
  output_content_only = none;
  workers = none;
  port = none;
  user_agent = none;
  host = none;
  telemetry = none;
  urls = none;
  output_dir = none;
  ignores = none;
}

abbrev all_flags : Flags
all_flags = record no_flags {
  debug = some true;
  no_cache = some true;
  dynamic_config = some false;
  workers = some (pos 3);
  port = some (pos 80);
  user_agent = some "x";
  host = some "localhost";
  telemetry = some "";
}

abbrev unset : String → String
unset name = ""

all_passed : AllPassed config all_flags default_settings
all_passed = record {
  debug = refl;
  no_cache = refl;
  host = refl;
  port = refl;
  workers = refl;
  agent = refl;
  dynamic = refl;
  telemetry = refl;
}

flags_decide_example :
    configure config all_flags (λ name. "yes") default_settings
    ≡ configure config all_flags unset default_settings
flags_decide_example =
    flags_decide config all_flags (λ name. "yes") unset default_settings all_passed refl

abbrev secret : AuthConfig
secret = record {
  host = record { name = "b.org"; port = ""; preferred_scheme = "http" };
  method = "basic";
  username = "u";
  password = "p";
}

-- A transport that hands back the headers that it is sent.
abbrev echo : RoundTripper ℕ Header
echo u h w = (w + 1, h)

-- The address of the test is on a.org.
other_host :
    (new_host_from_url page_url).name ≡ secret.host.name
    → (new_host_from_url page_url).port ≢ secret.host.port
unfolding new_host_from_url
other_host e = cc ((eq_iff "a.org" "b.org").1 e)

no_credentials_example :
    (sent : Header) × ((with_middlewares
          (λ s. s)
          (λ t. t)
          true
          echo
          (get_auth (secret ∷ []))
          "tobey"
          page_url
          []
          0
        ≡ (if true then echo else echo) page_url sent 0)
      × (values "Authorization" sent ≡ values "Authorization" []))
no_credentials_example =
    no_credentials (λ s. s) (λ t. t) true echo (secret ∷ []) "tobey" page_url [] 0 (other_host, tt)
