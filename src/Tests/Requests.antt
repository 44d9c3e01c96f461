-- ===== src/Tests/Requests.antt =====
-- Requests, robots.txt files, sitemaps, hosts and reporters at concrete inputs.
use tobey.Common.{
  String, ◌≡◌, refl, List, [], ◌∷◌, map, true, false, none, some, is_some, arith, nat_eq, string_eq,
}
use tobey.Common.Text.{◌<>◌}
use tobey.Url.{Url, Userinfo, UrlLib}
use tobey.Host.{AuthConfig, Host, get_auth}
use tobey.Api.{Request, all_urls, get_urls}
use tobey.Api.Cleaning.{cleaned, get_urls-cleaned, get_urls_panics}
use tobey.Robots
use tobey.Robots.{RobotsLib, cache_key}
use tobey.Reporters.{PathLib, DiskConfig, ok, new_disk_config_from_dsn}
use tobey.Tests.Libs.{page, page_url, urls, hashes, parse}

abbrev request : List String → Request
request us = record {
  run = "";
  url = "";
  urls = us;
  aliased_domains = [];
  ignore_paths = [];
  user_agent = "";
  auth_configs = [];
}

parsed : is_some (parse page) ≡ true
unfolding parse
parsed = refl

get_urls-cleaned_example :
    get_urls urls true (request (page ∷ []))
    ≡ some (map (cleaned urls) (all_urls (request (page ∷ []))))
get_urls-cleaned_example = get_urls-cleaned urls (request (page ∷ [])) (parsed, tt)

unparsed : parse "ftp" ≡ none
unfolding parse
unparsed = refl

get_urls_panics_example : get_urls urls true (request ("ftp" ∷ page ∷ [])) ≡ none
get_urls_panics_example =
    get_urls_panics urls (request ("ftp" ∷ page ∷ [])) 0 (omega arith) unparsed

abbrev owner : Userinfo
owner = record { username = "u"; password = none }

abbrev owned : Url
owned = record page_url { user = some owner }

abbrev owned_urls : UrlLib
owned_urls = record urls { parse = λ u. some owned }

abbrev host : Host
host = record { name = "a.org"; port = ""; preferred_scheme = "http" }

abbrev config : AuthConfig
config = record { host = host; method = "basic"; username = "u"; password = "p" }

config_found : get_auth (config ∷ []) host ≡ some config
unfolding get_auth
config_found = refl

abbrev robots : RobotsLib
robots = record {
  Data = String;
  fetch = λ auth agent url. some (some url, none);
  test_agent = λ robot agent u. some true;
  sitemaps = λ robot. some [];
  hex = λ b. "key";
}

fetched :
    Robots.get urls robots hashes host (λ h. none) "tobey" []
    ≡ some (("key", some "http://a.org/robots.txt") ∷ [], some "http://a.org/robots.txt", none)
unfolding Robots.get
fetched = refl

same_key :
    cache_key urls robots hashes host (λ h. none) ≡ cache_key urls robots hashes host (λ h. none)
same_key = refl

abbrev paths : PathLib
paths = record {
  working_directory = some "/srv";
  abs = λ p. some ("/srv" <> p);
  query_get = λ q k. "";
}

abbrev disk_config : DiskConfig
disk_config = record { output_dir = "/srv/"; output_content_only = false }

accepted : new_disk_config_from_dsn urls paths page true ≡ ok disk_config
unfolding new_disk_config_from_dsn parse
accepted = refl
