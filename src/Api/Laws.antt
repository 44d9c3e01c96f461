-- ===== src/Api/Laws.antt =====
-- What a request yields for its run.
use mathlib.Core.List.{Memᴰ}
use tobey.Common.{
  String, ◌≡◌, refl, ap, sym, ◌∙◌, List, [], ◌∷◌, ◌++◌, some, inl, inr, string_eq, Option-cases,
}
use tobey.Url.{Url, Userinfo, UrlLib, hostname}
use tobey.Host.{new_host_from_url}
use tobey.Api.{
  Request, all_urls, hostnames, get_allow_domains, embedded, password, url_configs,
  get_auth_configs,
}

mem-left : {A : Type 0} (a : A) (xs ys : List A) → Memᴰ a xs → Memᴰ a (xs ++ ys)
mem-left a [] ys m = elim m [ ]
mem-left a (x ∷ xs) ys (Memᴰ.head e) = Memᴰ.head e
mem-left a (x ∷ xs) ys (Memᴰ.tail m) = Memᴰ.tail (mem-left a xs ys m)

mem-right : {A : Type 0} (a : A) (xs ys : List A) → Memᴰ a ys → Memᴰ a (xs ++ ys)
mem-right a [] ys m = m
mem-right a (x ∷ xs) ys m = Memᴰ.tail (mem-right a xs ys m)

module _ (lib : UrlLib) where
  mem-hostnames :
      (us : List String) (u : String) (p : Url)
      → Memᴰ u us
      → lib.parse u ≡ some p
      → Memᴰ (hostname p) (hostnames lib us)
  unfolding hostnames
  mem-hostnames [] u p m ok = elim m [ ]
  mem-hostnames (v ∷ us) u p (Memᴰ.head same) ok =
      let at : lib.parse v ≡ some p = ap lib.parse (sym same) ∙ ok in
      rw (at, hostnames) (Memᴰ.head refl)
  mem-hostnames (v ∷ us) u p (Memᴰ.tail m) ok = elim (Option-cases (lib.parse v)) [
    | inl bad ↦ rw (bad, hostnames) (mem-hostnames us u p m ok)
    | inr (q, good) ↦ rw (good, hostnames) (Memᴰ.tail (mem-hostnames us u p m ok))
  ]

  -- The host of every URL of a request that parses is on the allowlist of its run.
  pub targets_allowed :
      (req : Request) (u : String) (p : Url)
      → Memᴰ u (all_urls req)
      → lib.parse u ≡ some p
      → Memᴰ (hostname p) (get_allow_domains lib req)
  unfolding get_allow_domains
  targets_allowed req u p m ok =
      mem-left (hostname p) (hostnames lib (all_urls req)) req.aliased_domains
        (mem-hostnames (all_urls req) u p m ok)

  mem-url_configs :
      (us : List String) (u : String) (p : Url) (user : Userinfo)
      → Memᴰ u us
      → lib.parse u ≡ some p
      → p.user ≡ some user
      → Memᴰ
          (record {
            host = new_host_from_url p;
            method = "basic";
            username = user.username;
            password = password lib user;
          })
          (url_configs lib us)
  unfolding url_configs
  mem-url_configs [] u p user m ok named = elim m [ ]
  mem-url_configs (v ∷ us) u p user (Memᴰ.head same) ok named =
      let at : lib.parse v ≡ some p = ap lib.parse (sym same) ∙ ok in
      rw (at, url_configs, named) (Memᴰ.head refl)
  mem-url_configs (v ∷ us) u p user (Memᴰ.tail m) ok named =
      mem-right _ (embedded lib (lib.parse v)) (url_configs lib us)
        (mem-url_configs us u p user m ok named)

  -- The user info of every URL of a request that parses becomes credentials of its run, for the
  -- host and port of that URL.
  pub user_info_kept :
      (req : Request) (u : String) (p : Url) (user : Userinfo)
      → Memᴰ u (all_urls req)
      → lib.parse u ≡ some p
      → p.user ≡ some user
      → Memᴰ
          (record {
            host = new_host_from_url p;
            method = "basic";
            username = user.username;
            password = password lib user;
          })
          (get_auth_configs lib req)
  unfolding get_auth_configs
  user_info_kept req u p user m ok named =
      mem-right _ req.auth_configs (url_configs lib (all_urls req))
        (mem-url_configs (all_urls req) u p user m ok named)
