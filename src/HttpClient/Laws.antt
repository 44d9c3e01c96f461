-- ===== src/HttpClient/Laws.antt =====
-- What the layers add to a request.
use tobey.Common.{
  String, List, [], ◌∷◌, ◌++◌, Bool, true, false, Option, none, some, if◌then◌else◌, ◌==◌,
  string_eq, ◌≡◌, refl, sym, ap, ◌∙◌, eq_iff, All, All-mono, ◌≢◌, Bool-cases, Option-cases, inl,
  inr, arith,
}
use mathlib.Core.List.{append-nil}
use tobey.Common.Dict.{lookup, insert, lookup-insert}
use tobey.Headers.{Header, add}
use tobey.Url.{Url}
use tobey.Host.{Host, AuthConfig, new_host_from_url, get_auth, matches}
use tobey.HttpClient.{RoundTripper, with_header, get_header_fn, with_middlewares}

abbrev or_nil : Option (List String) → List String
or_nil none = []
or_nil (some vs) = vs

-- All the values of a header.
abbrev pub values : String → Header → List String
values name h = or_nil (lookup name h)

abbrev pub if_named : String → String → List String → List String
if_named n name vs = if n == name then vs else []

abbrev pub listed : Option String → List String
listed none = []
listed (some v) = v ∷ []

-- What a lookup finds in place of `old`, behind what was added under the key.
grown :
    (same : Bool) (vs : List String) (v : String) (old : Option (List String))
    → (same ≡ true → or_nil old ≡ vs)
    → or_nil (if same then some (vs ++ v ∷ []) else old)
      ≡ or_nil old ++ (if same then v ∷ [] else [])
grown true vs v old h = ap (λ us. us ++ v ∷ []) (sym (h refl))
grown false vs v old h = sym (append-nil (or_nil old))

values-insert :
    (n value name : String) (vs : List String) (h : Header)
    → or_nil (lookup n h) ≡ vs
    → values name (insert n (vs ++ value ∷ []) h) ≡ values name h ++ if_named n name (value ∷ [])
values-insert n value name vs h old =
    ap or_nil (lookup-insert n name (vs ++ value ∷ []) h)
    ∙ grown (n == name) vs value (lookup name h)
        λ same. ap (λ j. values j h) (sym ((eq_iff n name).0 same)) ∙ old

values-add :
    (n value name : String) (h : Header)
    → values name (add n value h) ≡ values name h ++ if_named n name (value ∷ [])
unfolding add
values-add n value name h = elim (Option-cases (lookup n h)) [
  | inl new ↦ rw (new, add) (values-insert n value name [] h (rw new))
  | inr (vs, known) ↦ rw (known, add) (values-insert n value name vs h (rw known))
]

if_named-nil : (n name : String) → if_named n name [] ≡ []
if_named-nil n name = ground arith

values-with_header :
    (n name : String) (v : Option String) (h : Header)
    → values name (with_header n v h) ≡ values name h ++ if_named n name (listed v)
values-with_header n name none h = sym (rw (if_named-nil n name) (append-nil (values name h)))
values-with_header n name (some v) h = values-add n v name h

-- The credentials that the run's configurations give to a URL.
abbrev pub credentials : (String → String) → List AuthConfig → Url → List String
credentials base64 acs u = listed (get_header_fn base64 (get_auth acs) u)

module _ {W A : Type 0} (base64 : String → String)
    (cached : RoundTripper W A → RoundTripper W A) where
  -- A request reaches the cache, or without one the transport, with the headers that it was made with
  -- and with two additions: the user agent, behind what agents it had, and the credentials that the
  -- run has for the URL's host and port, if there are any.
  pub headers_sent :
      (skip_cache : Bool) (t : RoundTripper W A) (acs : List AuthConfig) (ua : String) (u : Url)
      (h : Header) (w : W)
      → (sent : Header) × ((with_middlewares base64 cached skip_cache t (get_auth acs) ua u h w
            ≡ (if skip_cache then t else cached t) u sent w)
          × ((name : String)
              → values name sent
                ≡ (values name h ++ if_named "User-Agent" name (ua ∷ []))
                  ++ if_named "Authorization" name (credentials base64 acs u)))
  unfolding with_middlewares
  headers_sent skip_cache t acs ua u h w = (
    with_header "Authorization" (get_header_fn base64 (get_auth acs) u) (add "User-Agent" ua h),
    (
      refl,
      λ name.
          values-with_header "Authorization" name (get_header_fn base64 (get_auth acs) u)
            (add "User-Agent" ua h)
          ∙ ap (λ vs. vs ++ if_named "Authorization" name (credentials base64 acs u))
              (values-add "User-Agent" ua name h),
    ),
  )

  nobody_matches :
      (acs : List AuthConfig) (h : Host)
      → All (λ ac. matches ac h ≡ false) acs
      → get_auth acs h ≡ none
  unfolding get_auth
  nobody_matches [] h none_does = refl
  nobody_matches (ac ∷ acs) h (not_this, others) = rw not_this (nobody_matches acs h others)

  apart-matches :
      (ac : AuthConfig) (h : Host)
      → (h.name ≡ ac.host.name → h.port ≢ ac.host.port)
      → matches ac h ≡ false
  unfolding matches
  apart-matches ac h apart = elim (Bool-cases (h.name == ac.host.name)) [
    | inr other ↦ rw other
    | inl same ↦ elim (Bool-cases (h.port == ac.host.port)) [
      | inr other ↦ rw (same, other)
      | inl also ↦
          absurd (apart ((eq_iff h.name ac.host.name).0 same) ((eq_iff h.port ac.host.port).0 also))
    ]
  ]

  -- No credentials leave for a host that they were not configured for: if no configuration of a run
  -- has the name and the port of a URL's host, the request has the Authorization header that it was made
  -- with.
  pub no_credentials :
      (skip_cache : Bool) (t : RoundTripper W A) (acs : List AuthConfig) (ua : String) (u : Url)
      (h : Header) (w : W)
      → All
          (λ ac.
            (new_host_from_url u).name ≡ ac.host.name → (new_host_from_url u).port ≢ ac.host.port)
          acs
      → (sent : Header) × ((with_middlewares base64 cached skip_cache t (get_auth acs) ua u h w
            ≡ (if skip_cache then t else cached t) u sent w)
          × (values "Authorization" sent ≡ values "Authorization" h))
  unfolding get_header_fn
  no_credentials skip_cache t acs ua u h w nobody =
      let (sent, (e, vs)) = headers_sent skip_cache t acs ua u h w in
      let nothing : credentials base64 acs u ≡ [] = rw (
        nobody_matches acs (new_host_from_url u)
            (All-mono _ _ (λ ac e. apart-matches ac (new_host_from_url u) e) acs nobody),
        get_header_fn,
      ) in
      (sent, (e, vs "Authorization" ∙ rw nothing (append-nil _ ∙ append-nil _)))
