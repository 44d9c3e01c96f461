-- ===== src/Sitemaps/Laws.antt =====
-- Which sites are asked for their sitemaps.
use mathlib.Core.List.{Memᴰ}
use tobey.Common.{
  String, ◌≤◌, List, [], ◌∷◌, ◌++◌, Bool, true, false, not, Option, none, some, ◌≡◌, ◌∙◌, refl, sym,
  ap, inl, inr, Option-cases, Bool-cases, arith, >>=-eq-some, string_eq, ◌==◌, any, length,
  length-append, eq_iff, ◌&&◌, ◌||◌,
}
use mathlib.Core.Option.{some-injective}
use tobey.Url.{Url, UrlLib}
use tobey.Sitemaps.{base_of, add_base, collect_bases, sitemaps_of, collect_sitemaps, discover}

-- Each text stands in the list once.
abbrev pub unique : List String → Bool
unique [] = true
unique (u ∷ us) = not (any (λ v. v == u) us) && unique us

any-append :
    (u : String) (us vs : List String)
    → any (λ v. v == u) (us ++ vs) ≡ (any (λ v. v == u) us || any (λ v. v == u) vs)
any-append u [] vs = refl
any-append u (w ∷ us) vs = ground (arith, any-append u us vs)

any-mem : (u : String) (us : List String) → any (λ v. v == u) us ≡ true → Memᴰ u us
any-mem u [] e = cc e
any-mem u (w ∷ us) e = elim (Bool-cases (w == u)) [
  | inl same ↦ Memᴰ.head (sym ((eq_iff w u).0 same))
  | inr other ↦ Memᴰ.tail (any-mem u us (rw (other, any) at e))
]

unique-snoc :
    (us : List String) (u : String)
    → any (λ v. v == u) us ≡ false
    → unique us ≡ true
    → unique (us ++ u ∷ []) ≡ true
unique-snoc [] u new h = refl
unique-snoc (w ∷ us) u new h =
    ground (arith, any-append w us (u ∷ []), unique-snoc us u, eq_iff w u, eq_iff u w)

mem-append : (u : String) (us vs : List String) → Memᴰ u us → Memᴰ u (us ++ vs)
mem-append u [] vs m = elim m [ ]
mem-append u (w ∷ us) vs (Memᴰ.head e) = Memᴰ.head e
mem-append u (w ∷ us) vs (Memᴰ.tail m) = Memᴰ.tail (mem-append u us vs m)

mem-snoc : (u : String) (us : List String) → Memᴰ u (us ++ u ∷ [])
mem-snoc u [] = Memᴰ.head refl
mem-snoc u (w ∷ us) = Memᴰ.tail (mem-snoc u us)

module _ (urls : UrlLib) where
  unique-add_base :
      (base : String) (bases : List String)
      → unique bases ≡ true
      → unique (add_base urls base bases) ≡ true
  unique-add_base base bases h = elim (Bool-cases (any (λ b. b == base) bases)) [
    | inl known ↦ rw known h
    | inr new ↦ rw new (unique-snoc bases base new h)
  ]

  mem-add_base :
      (b base : String) (bases : List String) → Memᴰ b bases → Memᴰ b (add_base urls base bases)
  mem-add_base b base bases m = elim (Bool-cases (any (λ b. b == base) bases)) [
    | inl known ↦ rw known m
    | inr new ↦ rw new (mem-append b bases (base ∷ []) m)
  ]

  added : (base : String) (bases : List String) → Memᴰ base (add_base urls base bases)
  added base bases = elim (Bool-cases (any (λ b. b == base) bases)) [
    | inl known ↦ rw known (any-mem base bases known)
    | inr new ↦ rw new (mem-snoc base bases)
  ]

  unique-collect_bases :
      (us bases : List String) → unique bases ≡ true → unique (collect_bases urls us bases) ≡ true
  unfolding collect_bases
  unique-collect_bases [] bases h = h
  unique-collect_bases (u ∷ us) bases h = elim (Option-cases (urls.parse u)) [
    | inl bad ↦ rw (bad, collect_bases) (unique-collect_bases us bases h)
    | inr (p, ok) ↦
        rw (ok, collect_bases)
          (unique-collect_bases us (add_base urls (base_of urls p) bases)
            (unique-add_base (base_of urls p) bases h))
  ]

  kept : (us bases : List String) (b : String) → Memᴰ b bases → Memᴰ b (collect_bases urls us bases)
  unfolding collect_bases
  kept [] bases b m = m
  kept (u ∷ us) bases b m = elim (Option-cases (urls.parse u)) [
    | inl bad ↦ rw (bad, collect_bases) (kept us bases b m)
    | inr (p, ok) ↦ rw (ok, collect_bases) (kept us _ b (mem-add_base b (base_of urls p) bases m))
  ]

  covers :
      (us bases : List String) (u : String) (p : Url)
      → Memᴰ u us
      → urls.parse u ≡ some p
      → Memᴰ (base_of urls p) (collect_bases urls us bases)
  unfolding collect_bases
  covers [] bases u p m ok = elim m [ ]
  covers (v ∷ us) bases u p (Memᴰ.head same) ok =
      let at : urls.parse v ≡ some p = ap urls.parse (sym same) ∙ ok in
      rw (at, collect_bases)
        (kept us (add_base urls (base_of urls p) bases) (base_of urls p)
          (added (base_of urls p) bases))
  covers (v ∷ us) bases u p (Memᴰ.tail m) ok = elim (Option-cases (urls.parse v)) [
    | inl bad ↦ rw (bad, collect_bases) (covers us bases u p m ok)
    | inr (q, good) ↦
        rw (good, collect_bases) (covers us (add_base urls (base_of urls q) bases) u p m ok)
  ]

  -- Discover asks the site of every URL that parses, and no site twice.
  pub sites_asked_once :
      (us : List String)
      → (unique (collect_bases urls us []) ≡ true)
        × ((u : String) (p : Url)
            → Memᴰ u us
            → urls.parse u ≡ some p
            → Memᴰ (base_of urls p) (collect_bases urls us []))
  sites_asked_once us = (unique-collect_bases us [] refl, covers us [])

module _ {R : Type 0} (urls : UrlLib) (ask : String → R → Option (R × Option (List String))) where
  sitemaps_of-nonempty :
      (base : String) (answer : Option (List String)) → 1 ≤ length (sitemaps_of base answer)
  unfolding sitemaps_of
  sitemaps_of-nonempty base none = omega arith
  sitemaps_of-nonempty base (some []) = omega arith
  sitemaps_of-nonempty base (some (u ∷ us)) = omega arith

  collect_sitemaps-length :
      (bases : List String) (r r' : R) (found : List String)
      → collect_sitemaps urls ask bases r ≡ some (r', found)
      → length bases ≤ length found
  unfolding collect_sitemaps
  collect_sitemaps-length [] r r' found e = ground arith
  collect_sitemaps-length (base ∷ bases) r r' found e =
      let ((r1, answer), _, rest) = >>=-eq-some (ask base r) _ e in
      let ((r2, more), got, last) = >>=-eq-some (collect_sitemaps urls ask bases r1) _ rest in
      let ih = collect_sitemaps-length bases r1 r2 more got in
      let same =
        ap (λ z. z.1) (some-injective (r2, sitemaps_of base answer ++ more) (r', found) last) in
      rw (sym same, length-append (sitemaps_of base answer) more)
        (omega (arith, sitemaps_of-nonempty base answer))

  -- For every site that is asked, Discover comes up with a sitemap: with the ones it names, or with
  -- the well-known location.
  pub discover_finds :
      (us : List String) (r r' : R) (found : List String)
      → discover urls ask us r ≡ some (r', found)
      → length (collect_bases urls us []) ≤ length found
  unfolding discover
  discover_finds us r r' found e = collect_sitemaps-length (collect_bases urls us []) r r' found e
