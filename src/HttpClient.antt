-- ===== src/HttpClient.antt =====
-- httpclient.go: the layers that a crawler's client puts around its transport. The transport itself
-- and the cache of gregjones/httpcache are parameters; tracing is left out.
pub mod Laws
use tobey.Common.{String, List, Bool, Option, none, some, if◌then◌else◌}
use tobey.Headers.{Header, add}
use tobey.Url.{Url}
use tobey.Host.{Host, AuthConfig, new_host_from_url, get_header}

-- RoundTrip, which answers an A, for a request's URL and headers.
abbrev pub RoundTripper : Type 0 → Type 0 → Type 0
RoundTripper W A = Url → Header → W → W × A

abbrev pub with_header : String → Option String → Header → Header
with_header name none h = h
with_header name (some value) h = add name value h

-- The function that withMiddlewares gives to its AuthTransport.
unfoldable pub get_header_fn : (String → String) → (Host → Option AuthConfig) → Url → Option String
unfolding new_host_from_url get_header
get_header_fn base64 get_auth u = elim (get_auth (new_host_from_url u)) [
  | none ↦ none
  | some ac ↦ get_header base64 ac
]

module _ {W A : Type 0} where
  -- (*AuthTransport).RoundTrip
  unfoldable pub auth_round_trip : (Url → Option String) → RoundTripper W A → RoundTripper W A
  unfolding add
  auth_round_trip get_header_fn t u h w = t u (with_header "Authorization" (get_header_fn u) h) w

  -- (*UserAgentTransport).RoundTrip
  unfoldable pub user_agent_round_trip : String → RoundTripper W A → RoundTripper W A
  unfolding add
  user_agent_round_trip ua t u h w = t u (add "User-Agent" ua h) w

  module _ (base64 : String → String) (cached : RoundTripper W A → RoundTripper W A) where
    unfoldable pub with_middlewares :
        Bool → RoundTripper W A → (Host → Option AuthConfig) → String → RoundTripper W A
    unfolding user_agent_round_trip auth_round_trip get_header_fn
    with_middlewares skip_cache t get_auth ua =
        user_agent_round_trip ua
          (auth_round_trip (get_header_fn base64 get_auth) (if skip_cache then t else cached t))
