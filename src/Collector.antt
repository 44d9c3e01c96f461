-- ===== src/Collector.antt =====
-- internal/collector/collector.go, and of callbacks.go and request.go what an enqueued link and a
-- failed fetch go through. robots.txt is asked through a function that the collector is made with;
-- the gitignore-like patterns and the WHATWG URL parser are parameters.
pub mod Laws
pub mod Allowlist
pub mod Fetching
pub mod Outcomes
pub mod Keeping
pub mod Requests
pub mod Elements
pub mod Charset
pub mod Callbacks
use tobey.Common.{
  ℕ, String, List, [], ◌∷◌, Bool, true, false, not, ◌&&◌, ◌||◌, Option, none, some, ltb, leb,
  if◌then◌else◌, ◌==◌, nat_eq, string_eq, any,
}
use tobey.Common.Text.{◌<>◌, has_prefix, has_suffix, trim_prefix}
use tobey.Failure.{
  Error, check_internal, forbidden_domain, forbidden_path, robots_txt_blocked, max_depth,
}
use tobey.Url.{Url, UrlLib, hostname}

pub record CollectorLib : Type 0 where
  -- CompileIgnoreLines(lines...).MatchesPath(path)
  pub matches_path : List String → String → Bool
  -- urlParser.ParseRef(base, ref), rendered by Href(false)
  pub parse_ref : String → String → Option String
  -- The robots check of NewCollector: `none` is an error.
  pub robots_check : String → String → Option Bool

-- The settings of a collector.
pub record Collector : Type 0 where
  pub allow_domains : List String
  pub ignore_paths : List String
  pub user_agent : String
  pub max_depth : ℕ
  pub max_body_size : ℕ
  pub max_redirects : ℕ
  pub parse_http_error_response : Bool

abbrev pub well_known_files : List String
well_known_files = "robots.txt" ∷ "sitemap.xml" ∷ "sitemap_index.xml" ∷ []

-- `checkDomain` of IsVisitAllowed.
unfoldable pub check_domain : Collector → String → Bool
unfolding trim_prefix
check_domain c host =
    let naked = trim_prefix host "www." in
    any (λ allowed. allowed == naked || allowed == "www." <> naked) c.allow_domains

unfoldable pub request_check : Collector → ℕ → Option Error
request_check c depth =
    if ltb 0 c.max_depth && ltb c.max_depth depth then some Error.max_depth else none

-- The function of CheckRedirectFunc, where `via` counts the requests made: whether the redirect is
-- followed. The client does not ask before the first request, so `via` is not 0.
unfoldable pub check_redirect : Collector → ℕ → Bool
check_redirect c via = not (ltb 0 c.max_redirects && leb c.max_redirects via)

module _ (urls : UrlLib) (x : CollectorLib) where
  -- `checkPath` of IsVisitAllowed.
  unfoldable pub check_path : Collector → String → Bool
  unfolding has_suffix
  check_path c path =
      if any (has_suffix path) well_known_files
      then true
      else not (x.matches_path c.ignore_paths path)

  abbrev robots_answer : Option Bool → Option Error
  robots_answer none = some check_internal
  robots_answer (some false) = some robots_txt_blocked
  robots_answer (some true) = none

  -- IsVisitAllowed: `none` allows the visit.
  unfoldable pub is_visit_allowed : Collector → String → Option Error
  unfolding check_domain check_path hostname
  is_visit_allowed c url = elim (urls.parse url) [
    | none ↦ some check_internal
    | some p ↦
        if not (check_domain c (hostname p))
        then some forbidden_domain
        else if not (check_path c p.path)
        then some forbidden_path
        else robots_answer (x.robots_check c.user_agent (urls.render p))
  ]

  -- AbsoluteURL of a request, of which `base_url` is none or what the page's base element says.
  unfoldable pub absolute_url : Url → Option Url → String → String
  unfolding has_prefix
  absolute_url url base_url ref =
      if has_prefix ref "#"
      then ""
      else elim (x.parse_ref (urls.render (elim base_url [ none ↦ url | some b ↦ b ])) ref) [
        | none ↦ ""
        | some abs ↦ abs
      ]

  -- What the callback for `a[href]` hands to the enqueue function.
  unfoldable pub link_target : Url → Option Url → String → Option String
  unfolding absolute_url has_prefix
  link_target url base_url href = elim (urls.parse (absolute_url url base_url href)) [
    | none ↦ none
    | some u ↦ if has_prefix u.scheme "http" then some (urls.render u) else none
  ]
