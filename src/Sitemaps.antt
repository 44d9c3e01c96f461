-- ===== src/Sitemaps.antt =====
-- sitemap.go: which sitemaps a run starts with.
pub mod Laws
pub mod Drain
use tobey.Common.{
  ℕ, String, List, [], ◌∷◌, ◌++◌, Bool, true, false, Option, none, some, ◌>>=◌, if◌then◌else◌, ◌==◌,
  string_eq, any,
}
use tobey.Common.Text.{◌<>◌}
use tobey.Url.{Url, UrlLib}

module _ (urls : UrlLib) where
  abbrev pub base_of : Url → String
  base_of p = p.scheme <> "://" <> p.host

  abbrev pub add_base : String → List String → List String
  add_base base bases = if any (λ b. b == base) bases then bases else bases ++ base ∷ []

  -- The first loop of Discover.
  unfoldable pub collect_bases : List String → List String → List String
  collect_bases [] bases = bases
  collect_bases (u ∷ us) bases = elim (urls.parse u) [
    | none ↦ collect_bases us bases
    | some p ↦ collect_bases us (add_base (base_of p) bases)
  ]

-- The sitemaps that are taken for a base, from the answer of robots.Sitemaps, `none` on an error.
unfoldable pub sitemaps_of : String → Option (List String) → List String
sitemaps_of base none = (base <> "/sitemap.xml") ∷ []
sitemaps_of base (some []) = (base <> "/sitemap.xml") ∷ []
sitemaps_of base (some (u ∷ us)) = u ∷ us

-- `ask` is (*Robots).Sitemaps for the run's agent and credentials.
module _ {R : Type 0} (urls : UrlLib) (ask : String → R → Option (R × Option (List String))) where
  -- The second loop.
  unfoldable pub collect_sitemaps : List String → R → Option (R × List String)
  unfolding sitemaps_of
  collect_sitemaps [] robots = some (robots, [])
  collect_sitemaps (base ∷ bases) robots = do
    (robots1, answer) ← ask base robots
    (robots2, rest) ← collect_sitemaps bases robots1
    some (robots2, sitemaps_of base answer ++ rest)

  unfoldable pub discover : List String → R → Option (R × List String)
  unfolding collect_bases collect_sitemaps
  discover us robots = collect_sitemaps (collect_bases urls us []) robots
