-- ===== src/Collector/Laws.antt =====
-- Which visits a collector allows.
use tobey.Common.{
  ℕ, String, ◌≡◌, ◌≤◌, ◌<◌, List, [], ◌∷◌, true, false, none, some, string_eq, nat_eq, arith, ◌⊎◌,
  length, ◌+◌, suc, ◌↔◌,
}
use tobey.Common.Text.{trim_prefix-append, ◌<>◌, has_prefix, has_suffix}
use tobey.Url.{Url, UrlLib, hostname}
use tobey.Collector.Allowlist.{OnList, check_domain-OnList, trim_prefix_absent}
use tobey.Collector.{
  Collector, CollectorLib, check_domain, check_path, check_redirect, is_visit_allowed,
}

-- A host with `www.` in front is on the allowlist just when the host without is.
pub check_domain_www :
    (c : Collector) (naked : String)
    → has_prefix naked "www." ≡ false
    → check_domain c ("www." <> naked) ≡ check_domain c naked
unfolding check_domain has_prefix
check_domain_www c naked e = rw (trim_prefix-append "www." naked, trim_prefix_absent naked "www." e)

check_path-Path :
    (urls : UrlLib) (x : CollectorLib) (c : Collector) (path : String)
    → (check_path urls x c path ≡ true) ↔ (
        (has_suffix path "robots.txt" ≡ true)
        ⊎ (has_suffix path "sitemap.xml" ≡ true)
        ⊎ (has_suffix path "sitemap_index.xml" ≡ true)
        ⊎ (x.matches_path c.ignore_paths path ≡ false))
unfolding check_path
check_path-Path urls x c path = (λ h. ground arith, λ h. ground arith)

-- Of a URL that parses to p, a visit is allowed just when
--   * the host, without a leading www., is an entry of the allowlist, or is so with www. in front,
--   * the path ends in robots.txt, sitemap.xml or sitemap_index.xml, or is not ignored, and
--   * robots.txt allows it.
pub is_visit_allowed_iff :
    (urls : UrlLib) (x : CollectorLib) (c : Collector) (url : String) (p : Url)
    → urls.parse url ≡ some p
    → (is_visit_allowed urls x c url ≡ none) ↔ (
        OnList c.allow_domains (hostname p)
        × ((has_suffix p.path "robots.txt" ≡ true)
            ⊎ (has_suffix p.path "sitemap.xml" ≡ true)
            ⊎ (has_suffix p.path "sitemap_index.xml" ≡ true)
            ⊎ (x.matches_path c.ignore_paths p.path ≡ false))
        × (x.robots_check c.user_agent (urls.render p) ≡ some true))
unfolding is_visit_allowed
is_visit_allowed_iff urls x c url p e =
    rw (e, is_visit_allowed)
      (
        λ allowed. (
          (check_domain-OnList c (hostname p)).0 (ground arith),
          (check_path-Path urls x c p.path).0 (ground arith),
          ground arith,
        ),
        λ (on_list, path, robots). rw (
          (check_domain-OnList c (hostname p)).1 on_list,
          (check_path-Path urls x c p.path).1 path,
          robots,
        ),
      )

-- An empty allowlist allows nothing.
pub empty_allowlist :
    (urls : UrlLib) (x : CollectorLib) (c : Collector) (url : String)
    → c.allow_domains ≡ []
    → is_visit_allowed urls x c url ≡ none
    → ⊥
unfolding is_visit_allowed check_domain
empty_allowlist urls x c url e allowed = ground (arith, allowed)

-- The requests of a chain of redirects, when `via` were made: a client asks before each redirect.
abbrev pub requests : Collector → List String → ℕ → ℕ
requests c [] via = via
requests c (target ∷ targets) via = elim (check_redirect c via) [
  | true ↦ requests c targets (suc via)
  | false ↦ via
]

-- With a limit of at least one, a chain of redirects never makes more requests than the limit, and
-- without a limit, which is 0, it makes all of them.
pub redirects_bounded :
    (c : Collector) (targets : List String) (via : ℕ)
    → (0 < c.max_redirects → via ≤ c.max_redirects → requests c targets via ≤ c.max_redirects)
      × (c.max_redirects ≡ 0 → requests c targets via ≡ via + length targets)
unfolding check_redirect
redirects_bounded c [] via = ground arith
redirects_bounded c (t ∷ ts) via = ground (arith, redirects_bounded c ts (suc via))
