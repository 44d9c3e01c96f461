-- ===== src/Url.antt =====
-- Go's net/url. `url.Parse`, `url.ParseRequestURI` and `(*URL).String` are parameters; the parts of
-- a parsed URL and its methods Hostname and Port are defined here, as in the Go library.
use Prim.Native.Char.{code}
use tobey.Common.{
  String, Bool, true, ◌&&◌, Option, none, some, leb, if◌then◌else◌, ◌==◌, nat_eq, string_eq, ◌≡◌,
  refl,
}
use tobey.Common.Text.{has_prefix, has_suffix}

pub record Userinfo : Type 0 where
  pub username : String
  pub password : Option String

pub record Url : Type 0 where
  pub scheme : String
  pub user : Option Userinfo
  pub host : String
  pub path : String
  pub raw_query : String

-- `parse` and `parse_request_uri` answer `none` and false on an error.
pub record UrlLib : Type 0 where
  pub parse : String → Option Url
  pub parse_request_uri : String → Bool
  pub render : Url → String

-- The text before and behind the last colon.
last_colon : String → Option (String × String)
last_colon String.[] = none
last_colon (String.◌∷◌ c s) = elim (last_colon s) [
  | some (before, behind) ↦ some (String.◌∷◌ c before, behind)
  | none ↦ if code c == b':' then some ("", s) else none
]

all_digits : String → Bool
all_digits String.[] = true
all_digits (String.◌∷◌ c s) = leb b'0' (code c) && leb (code c) b'9' && all_digits s

drop_last : String → String
drop_last String.[] = ""
drop_last (String.◌∷◌ c s) = let rest = drop_last s in if s == "" then "" else String.◌∷◌ c rest

drop_first : String → String
drop_first String.[] = ""
drop_first (String.◌∷◌ c s) = s

-- `[::1]` loses its brackets.
strip_brackets : String → String
unfolding drop_first drop_last has_prefix has_suffix
strip_brackets host =
    if has_prefix host "[" && has_suffix host "]" then drop_last (drop_first host) else host

split_host_port : String → String × String
unfolding last_colon all_digits strip_brackets
split_host_port host = elim (last_colon host) [
  | none ↦ (strip_brackets host, "")
  | some (before, port) ↦
      if all_digits port then (strip_brackets before, port) else (strip_brackets host, "")
]

unfoldable pub hostname : Url → String
unfolding split_host_port
hostname u = (split_host_port u.host).0

unfoldable pub port : Url → String
unfolding split_host_port
port u = (split_host_port u.host).1

abbrev at : String → Url
at host = record { scheme = "http"; user = none; host = host; path = "/"; raw_query = "" }

hostnames :
    (hostname (at "a.org:80") ≡ "a.org")
    × (port (at "a.org:80") ≡ "80")
    × (hostname (at "[::1]:8") ≡ "::1")
    × (hostname (at "a:b") ≡ "a:b")
unfolding hostname port
hostnames = (refl, refl, refl, refl)
