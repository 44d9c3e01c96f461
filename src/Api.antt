-- ===== src/Api.antt =====
-- api.go, and the handler of POST / in routes.go. net/url, google/uuid and path/filepath are
-- parameters.
pub mod Cleaning
pub mod Laws
use tobey.Common.{
  ℕ, String, suc, zero, ◌+◌, ◌-◌, List, [], ◌∷◌, ◌++◌, Bool, true, false, not, ◌&&◌, Option, none,
  some, ◌>>=◌, ltb, if◌then◌else◌, ◌==◌, string_eq, get_elem?, set, length, map,
}
use tobey.Common.Text.{◌<>◌, has_prefix}
use tobey.Url.{Url, Userinfo, UrlLib, hostname}
use tobey.Host.{AuthConfig, new_host_from_url}
use tobey.Run.{Run}

-- A list that is nil counts as an empty one: nothing below tells them apart.
pub record Request : Type 0 where
  pub run : String
  pub url : String
  pub urls : List String
  pub aliased_domains : List String
  pub ignore_paths : List String
  pub user_agent : String
  pub auth_configs : List AuthConfig

-- uuid.Parse, rendered again, and a new UUID.
pub record UuidLib : Type 0 where
  pub parse : String → Option String
  pub fresh : String

unfoldable pub get_run : UuidLib → Request → Option String
get_run ids req = if req.run == "" then some ids.fresh else ids.parse req.run

abbrev pub all_urls : Request → List String
all_urls req = (if req.url == "" then [] else req.url ∷ []) ++ req.urls

-- slices.Delete(urls, i, i+1) on the array that the loop goes on reading: what is behind i moves
-- down, and the last place is cleared.
unfoldable pub delete_at : List String → ℕ → List String
delete_at [] i = []
delete_at (u ∷ us) zero = us ++ "" ∷ []
delete_at (u ∷ us) (suc i) = u ∷ delete_at us i

abbrev pub take : ℕ → List String → List String
take zero us = []
take (suc n) [] = []
take (suc n) (u ∷ us) = u ∷ take n us

abbrev pub at : List String → ℕ → String
at us i = elim (get_elem? us i) [ none ↦ "" | some u ↦ u ]

module _ (lib : UrlLib) where
  abbrev pub without_user : Url → String
  without_user p = lib.render (record p { user = none })

  -- The loop of GetURLs(true): its range is the array that `urls` had at first, of which `len`
  -- places are left; k turns are to come. A write or a deletion behind `len` panics.
  unfoldable pub clean : ℕ → ℕ → List String → ℕ → Option (List String)
  unfolding delete_at
  clean zero i array len = some (take len array)
  clean (suc k) i array len = elim (ltb i len) [
    | false ↦ none
    | true ↦ elim (lib.parse (at array i)) [
      | none ↦ clean k (suc i) (delete_at array i) (len - 1)
      | some p ↦ clean k (suc i) (set array i (without_user p)) len
    ]
  ]

  unfoldable pub get_urls : Bool → Request → Option (List String)
  unfolding clean
  get_urls cleaned req =
      if cleaned
      then clean (length (all_urls req)) 0 (all_urls req) (length (all_urls req))
      else some (all_urls req)

  unfoldable pub hostnames : List String → List String
  unfolding hostname
  hostnames [] = []
  hostnames (u ∷ us) =
      let rest = hostnames us in elim (lib.parse u) [ none ↦ rest | some p ↦ hostname p ∷ rest ]

  unfoldable pub get_allow_domains : Request → List String
  unfolding hostnames
  get_allow_domains req = hostnames (all_urls req) ++ req.aliased_domains

  abbrev pub get_ignore_paths : Request → List String
  get_ignore_paths req = req.ignore_paths

  abbrev pub password : Userinfo → String
  password user = elim user.password [ none ↦ "" | some p ↦ p ]

  abbrev pub embedded : Option Url → List AuthConfig
  embedded none = []
  embedded (some p) = elim p.user [
    | none ↦ []
    | some user ↦
        record {
          method = "basic";
          host = new_host_from_url p;
          username = user.username;
          password = password user;
        }
        ∷ []
  ]

  -- The loop of GetAuthConfigs.
  unfoldable pub url_configs : List String → List AuthConfig
  unfolding new_host_from_url
  url_configs [] = []
  url_configs (u ∷ us) = embedded (lib.parse u) ++ url_configs us

  unfoldable pub get_auth_configs : Request → List AuthConfig
  unfolding url_configs
  get_auth_configs req = req.auth_configs ++ url_configs (all_urls req)

  abbrev pub all_request_uris : List String → Bool
  all_request_uris [] = true
  all_request_uris (u ∷ us) = lib.parse_request_uri u && all_request_uris us

  unfoldable pub validate : UuidLib → Request → Bool
  validate ids req =
      (if req.run == "" then true else elim (ids.parse req.run) [ none ↦ false | some id ↦ true ])
      && (if req.url == "" then true else lib.parse_request_uri req.url)
      && all_request_uris req.urls

  -- `default_agent` is the configured user agent.
  unfoldable pub get_user_agent : String → Request → String
  get_user_agent default_agent req = if req.user_agent == "" then default_agent else req.user_agent

  -- The run that the handler of POST / makes of a valid request.
  unfoldable pub new_run : UuidLib → String → String → String → Request → Option Run
  unfolding get_run get_urls get_auth_configs get_allow_domains get_user_agent
  new_run ids default_agent metadata dsn req = do
    id ← get_run ids req
    urls ← get_urls true req
    some record {
      id = id;
      metadata = metadata;
      urls = urls;
      auth_configs = get_auth_configs req;
      allow_domains = get_allow_domains req;
      ignore_paths = get_ignore_paths req;
      user_agent = get_user_agent default_agent req;
      result_reporter_dsn = dsn;
      output_content_only = false;
    }
