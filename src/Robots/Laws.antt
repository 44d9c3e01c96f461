-- ===== src/Robots/Laws.antt =====
-- How the robots.txt of a host is cached.
use tobey.Common.{
  if◌then◌else◌, String, Option, none, some, ◌>>=◌, ◌≡◌, ◌∙◌, sym, ap, inl, inr, Option-cases,
  >>=-eq-some, string_eq, eq_refl,
}
use mathlib.Core.Option.{some-injective}
use tobey.Common.Dict.{lookup, insert, lookup-insert}
use tobey.Failure.{Error}
use tobey.Url.{UrlLib}
use tobey.Host.{Host, HashLib}
use tobey.Robots.{RobotsLib, Robots, Auth, cache_key, robots_url, get}

module _ (urls : UrlLib) (x : RobotsLib) (hashes : HashLib) where
  get_cached :
      (h : Host) (auth : Auth urls x hashes) (agent : String) (cache : Robots urls x hashes)
      (robot : Option x.Data)
      → lookup (cache_key urls x hashes h auth) cache ≡ some robot
      → get urls x hashes h auth agent cache ≡ some (cache, robot, none)
  unfolding get
  get_cached h auth agent cache robot e = rw (e, get)

  get_missing :
      (h : Host) (auth : Auth urls x hashes) (agent : String) (cache cache' : Robots urls x hashes)
      (robot : Option x.Data) (err : Option Error)
      → lookup (cache_key urls x hashes h auth) cache ≡ none
      → get urls x hashes h auth agent cache ≡ some (cache', robot, err)
      → lookup (cache_key urls x hashes h auth) cache' ≡ some robot
  unfolding get
  get_missing h auth agent cache cache' robot err missing e =
      let step : (x.fetch auth agent (robots_url urls x hashes h) >>= λ r.
      some (insert (cache_key urls x hashes h auth) r.0 cache, r.0, r.1))
          ≡ some (cache', robot, err) =
        rw (missing, get) at e in
      let (r, _, put) = >>=-eq-some (x.fetch auth agent (robots_url urls x hashes h)) _ step in
      let same =
        some-injective (insert (cache_key urls x hashes h auth) r.0 cache, r.0, r.1)
          (cache', robot, err) put in
      ap (lookup (cache_key urls x hashes h auth)) (sym (ap (λ z. z.0) same))
      ∙ lookup-insert (cache_key urls x hashes h auth) (cache_key urls x hashes h auth) r.0 cache
      ∙ ap (λ b. if b then some r.0 else lookup (cache_key urls x hashes h auth) cache)
          (eq_refl (cache_key urls x hashes h auth))
      ∙ ap some (ap (λ z. z.1) same)

  -- The robots.txt of a host is fetched once for a key: whoever asks for it next with the same
  -- key, for whatever agent, gets the same data, with no error and no change of the cache.
  pub get_again :
      (h h' : Host) (auth auth' : Auth urls x hashes) (agent agent' : String)
      (cache cache' : Robots urls x hashes) (robot : Option x.Data) (err : Option Error)
      → cache_key urls x hashes h' auth' ≡ cache_key urls x hashes h auth
      → get urls x hashes h auth agent cache ≡ some (cache', robot, err)
      → get urls x hashes h' auth' agent' cache' ≡ some (cache', robot, none)
  get_again h h' auth auth' agent agent' cache cache' robot err same e =
      get_cached h' auth' agent' cache' robot (
        ap (λ k. lookup k cache') same
        ∙ (elim (Option-cases (lookup (cache_key urls x hashes h auth) cache)) [
          | inl missing ↦ get_missing h auth agent cache cache' robot err missing e
          | inr (r, there) ↦
              let same =
                some-injective (cache, r, none) (cache', robot, err)
                  (sym (get_cached h auth agent cache r there) ∙ e) in
              ap (lookup (cache_key urls x hashes h auth)) (sym (ap (λ z. z.0) same))
              ∙ there
              ∙ ap some (ap (λ z. z.1) same)
        ]))
