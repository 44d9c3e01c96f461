-- ===== src/Host.antt =====
-- host.go, and of api.go and httpclient.go the authentication of a host. crypto/sha256,
-- encoding/base64 and fmt's "%#v" are parameters.
pub mod Laws
use tobey.Common.{
  ℕ, String, ◌++◌, List, [], ◌∷◌, Bool, ◌&&◌, Option, none, some, is_some, if◌then◌else◌, ◌==◌,
  string_eq,
}
use tobey.Common.Text.{◌<>◌, trim_left}
use tobey.Url.{Url, UrlLib, hostname, port}
use tobey.Ctrlq.Hosts.{bytes}

-- `Host` and the `SerializableHost` that it embeds.
pub record Host : Type 0 where
  pub name : String
  pub port : String
  pub preferred_scheme : String

pub record AuthConfig : Type 0 where
  pub host : Host
  pub method : String
  pub username : String
  pub password : String

unfoldable pub get_hostname_from_url : UrlLib → String → String
unfolding hostname trim_left
get_hostname_from_url urls u = elim (urls.parse u) [
  | none ↦ ""
  | some p ↦ trim_left (hostname p) "www."
]

unfoldable pub new_host_from_url : Url → Host
unfolding hostname port
new_host_from_url u = record { name = hostname u; port = port u; preferred_scheme = u.scheme }

unfoldable pub to_string : Host → String
to_string h = if h.port == "" then h.name else h.name <> ":" <> h.port

-- (*AuthConfig).Matches, for a configuration with a host: where the host is nil the code panics.
unfoldable pub matches : AuthConfig → Host → Bool
matches ac h = h.name == ac.host.name && h.port == ac.host.port

-- (*Run).getAuthFn, over the configurations of a run.
unfoldable pub get_auth : List AuthConfig → Host → Option AuthConfig
unfolding matches
get_auth [] h = none
get_auth (ac ∷ acs) h = if matches ac h then some ac else get_auth acs h

-- NoAuthFn
abbrev pub no_auth : Host → Option AuthConfig
no_auth h = none

unfoldable pub is_private_host : Host → (Host → Option AuthConfig) → Bool
is_private_host h auth = is_some (auth h)

-- (*AuthConfig).GetHeader; `base64` is StdEncoding.EncodeToString.
unfoldable pub get_header : (String → String) → AuthConfig → Option String
get_header base64 ac =
    if ac.method == "basic"
    then some ("Basic " <> base64 (ac.username <> ":" <> ac.password))
    else none

-- `sum` is the digest of all that was written to a hash; `show` is fmt's "%#v".
pub record HashLib : Type 0 where
  pub sum : List ℕ → List ℕ
  pub show : AuthConfig → String

module _ (x : HashLib) where
  -- (*AuthConfig).Hash: `sha256.New().Sum(b)` is b, then the digest of nothing.
  unfoldable pub auth_hash : AuthConfig → List ℕ
  unfolding bytes
  auth_hash ac = bytes (x.show ac) ++ x.sum []

  unfoldable pub hash_without_auth : Host → List ℕ
  unfolding bytes
  hash_without_auth h = x.sum (bytes h.name ++ bytes h.port)

  abbrev auth_bytes : Option AuthConfig → List ℕ
  auth_bytes none = []
  auth_bytes (some ac) = auth_hash ac

  -- Also (*Host).Hash.
  unfoldable pub hash_with_auth : Host → (Host → Option AuthConfig) → List ℕ
  hash_with_auth h auth = x.sum (hash_without_auth h ++ auth_bytes (auth h))
