-- ===== src/Robots.antt =====
-- robots.go. temoto/robotstxt and the client that fetches a robots.txt are parameters.
pub mod Laws
use tobey.Common.{ℕ, String, List, [], ◌∷◌, Bool, true, false, Option, none, some, ◌>>=◌, string_eq}
use tobey.Common.Text.{◌<>◌, has_suffix}
use tobey.Common.Dict.{lookup, insert}
use tobey.Failure.{Error}
use tobey.Url.{Url, UrlLib}
use tobey.Host.{Host, AuthConfig, HashLib, new_host_from_url, to_string, hash_with_auth}

unfoldable pub is_probably_robots : String → Bool
unfolding has_suffix
is_probably_robots url = has_suffix url "/robots.txt"

pub record RobotsLib : Type 1 where
  pub Data : Type 0
  -- The client's Get, of which an answer is turned into cache by FromResponse, with the error of
  -- that. `none` is an error of the client, and cache that is `none` a nil pointer.
  pub fetch : (Host → Option AuthConfig) → String → String → Option (Option Data × Option Error)
  -- TestAgent of what may be a nil pointer: `none` is a panic.
  pub test_agent : Option Data → String → String → Option Bool
  pub sitemaps : Option Data → Option (List String)
  -- fmt's "%x"
  pub hex : List ℕ → String

module _ (urls : UrlLib) (x : RobotsLib) (hashes : HashLib) where
  open x use {Data}

  -- The field `data`.
  abbrev pub Robots : Type 0
  Robots = List (String × Option Data)

  abbrev pub Auth : Type 0
  Auth = Host → Option AuthConfig

  unfoldable pub robots_url : Host → String
  unfolding to_string
  robots_url h = h.preferred_scheme <> "://" <> to_string h <> "/robots.txt"

  unfoldable pub cache_key : Host → Auth → String
  unfolding hash_with_auth
  cache_key h auth = x.hex (hash_with_auth hashes h auth)

  -- What is fetched is kept, even with an error. If the client fails there is no response, whose
  -- body `get` then closes: a panic.
  unfoldable pub get : Host → Auth → String → Robots → Option (Robots × Option Data × Option Error)
  unfolding robots_url cache_key lookup insert
  get h auth agent cache = elim (lookup (cache_key h auth) cache) [
    | some robot ↦ some (cache, robot, none)
    | none ↦ (do
      (robot, err) ← x.fetch auth agent (robots_url h)
      some (insert (cache_key h auth) robot cache, robot, err))
  ]

  -- `none` for the answer is the error of a URL that does not parse.
  unfoldable pub check :
      String → Auth → String → Robots → Option (Robots × Option Bool × Option Error)
  unfolding get new_host_from_url
  check u auth agent cache = elim (urls.parse u) [
    | none ↦ some (cache, none, none)
    | some p ↦ (do
      (cache1, robot, err) ← get (new_host_from_url p) auth agent cache
      allowed ← x.test_agent robot agent u
      some (cache1, some allowed, err))
  ]

  abbrev listed : Robots → Option Data → Option Error → Option (Robots × Option (List String))
  listed cache robot (some err) = some (cache, none)
  listed cache robot none = do us ← x.sitemaps robot; some (cache, some us)

  -- `none` for the answer is an error.
  unfoldable pub sitemaps : String → Auth → String → Robots → Option (Robots × Option (List String))
  unfolding get new_host_from_url
  sitemaps u auth agent cache = elim (urls.parse u) [
    | none ↦ some (cache, none)
    | some p ↦ (do
      (cache1, robot, err) ← get (new_host_from_url p) auth agent cache
      listed cache1 robot err)
  ]
