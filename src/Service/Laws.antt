-- ===== src/Service/Laws.antt =====
-- The pool's health, and what the API answers.
use tobey.Common.{
  ℕ, String, zero, suc, ◌+◌, List, [], ◌∷◌, ◌++◌, true, false, some, ltb, length, map, ◌≡◌, refl,
  ap, arith, All, Bool-cases, Option-cases, inl, inr, Returns, length-append, ◌⊎◌, All-mono, ◌≢◌,
  Option, is_some, none, sym, ◌∙◌, ◌==◌, ◌&&◌, if◌then◌else◌, Bool, ◌↔◌, string_eq, eq_iff,
}
use tobey.Common.Int.{pos}
use tobey.Common.Split.{join, free_of, split-join}
use tobey.Common.Text.{has_prefix}
use tobey.Url.{UrlLib}
use tobey.Run.{Run}
use tobey.Api.{
  Request, UuidLib, new_run, get_urls, get_auth_configs, get_allow_domains, validate,
  all_request_uris,
}
use tobey.Console.{Crawls}
use tobey.Service.{
  start_workers, new_visitor_pool, health_status, ApiRequest, WebLib, Answer, bad_request, accepted,
  newline, of_urls, read_body, respond, accept, post,
}

length-start_workers : (k i : ℕ) (ws : List ℕ) → length (start_workers k i ws) ≡ k + length ws
unfolding start_workers
length-start_workers zero i ws = omega arith
length-start_workers (suc k) i ws =
    omega (arith, length-start_workers k (suc i) (ws ++ i ∷ []), length-append ws (i ∷ []))

ltb_irrefl : (n : ℕ) → ltb n n ≡ false
ltb_irrefl n = ground arith

-- A pool that was started with a number of workers, negative numbers apart, has that many and its
-- health check is answered with status 200. No code removes a worker from the pool, so that the
-- answer stays the same when workers have ended.
pub pool_healthy :
    (n : ℕ)
    → Returns (λ p. (length p.workers ≡ n) × (health_status p ≡ 200)) (new_visitor_pool (pos n))
unfolding new_visitor_pool health_status
pool_healthy n =
    let counted : length (start_workers n 0 []) ≡ n = omega (arith, length-start_workers n 0 []) in
    (counted, rw (counted, health_status, ltb_irrefl n))

map_fixed : (f : String → String) (us : List String) → All (λ v. f v ≡ v) us → map f us ≡ us
map_fixed f [] h = refl
map_fixed f (u ∷ us) (e, h) = rw (e, map_fixed f us h)

true-false : true ≡ false → ⊥
true-false e = cc e

-- The test of a field that may be empty.
abbrev unless_empty : String → Bool → Bool
unless_empty a b = if a == "" then true else b

unless_empty_iff : (a : String) (b : Bool) → (unless_empty a b ≡ true) ↔ (a ≢ "" → b ≡ true)
unless_empty_iff a b = elim (Bool-cases (a == "")) [
  | inl empty ↦ (λ h n. elim (n ((eq_iff a "").0 empty)) [ ], λ h. rw empty refl)
  | inr other ↦ (
    λ h n. sym (rw other refl) ∙ h,
    λ h. rw other (h (λ e. true-false (sym ((eq_iff a "").1 e) ∙ other))),
  )
]

all_three : (a b c : Bool) → (a && b && c) ≡ true → (a ≡ true) × (b ≡ true) × (c ≡ true)
all_three a b c h = ground arith

module _ (urls : UrlLib) (ids : UuidLib) (x : WebLib) where
  -- URLs on lines of their own, the first of them with http://, are read as they were written, if
  -- none holds a line break or has white space around it.
  pub read_lines :
      (u : String) (us : List String)
      → has_prefix (join newline (u ∷ us)) "http://" ≡ true
      → x.trim_space (join newline (u ∷ us)) ≡ join newline (u ∷ us)
      → All (λ v. (free_of newline v ≡ true) × (x.trim_space v ≡ v)) (u ∷ us)
      → read_body urls ids x (join newline (u ∷ us)) ≡ inl (of_urls (u ∷ us))
  unfolding read_body
  read_lines u us http trimmed lines =
      rw (http, trimmed, split-join newline u us (All-mono _ _ (λ v p. p.0) (u ∷ us) lines))
        (ap (λ ws. inl (of_urls ws))
          (map_fixed x.trim_space (u ∷ us) (All-mono _ _ (λ v p. p.1) (u ∷ us) lines)))

  -- What a request needs: an id that parses, if it names a run, and URLs that url.ParseRequestURI
  -- takes.
  unfoldable pub IsValid : Request → Type 0
  IsValid req =
      (req.run ≢ "" → is_some (ids.parse req.run) ≡ true)
      × (req.url ≢ "" → urls.parse_request_uri req.url ≡ true)
      × All (λ u. urls.parse_request_uri u ≡ true) req.urls

  get_run-known :
      (req : Request)
      → IsValid req
      → (id : String) × ((if req.run == "" then some ids.fresh else ids.parse req.run) ≡ some id)
  unfolding IsValid
  get_run-known req (named, single, rest) = elim (Bool-cases (req.run == "")) [
    | inl unnamed ↦ (ids.fresh, rw unnamed refl)
    | inr other ↦ elim (Option-cases (ids.parse req.run)) [
      | inl bad ↦
          let parsed = named (λ e. true-false (sym ((eq_iff req.run "").1 e) ∙ other)) in
          elim (true-false (sym parsed ∙ ap is_some bad)) [ ]
      | inr (id, good) ↦ (id, rw (other, good) refl)
    ]
  ]

  all_request_uris-All :
      (us : List String)
      → all_request_uris urls us ≡ true
      → All (λ u. urls.parse_request_uri u ≡ true) us
  all_request_uris-All [] h = tt
  all_request_uris-All (u ∷ us) h = (ground arith, all_request_uris-All us (ground arith))

  All-all_request_uris :
      (us : List String)
      → All (λ u. urls.parse_request_uri u ≡ true) us
      → all_request_uris urls us ≡ true
  All-all_request_uris [] h = refl
  All-all_request_uris (u ∷ us) (h, hs) = rw h (All-all_request_uris us hs)

  validate-IsValid : (req : Request) → validate urls ids req ≡ true → IsValid req
  unfolding validate IsValid
  validate-IsValid req h =
      let (named, single, rest) =
        all_three (unless_empty req.run _) (unless_empty req.url _) (all_request_uris urls req.urls)
          h in
      (
        (unless_empty_iff req.run _).0 named,
        (unless_empty_iff req.url _).0 single,
        all_request_uris-All req.urls rest,
      )

  IsValid-validate : (req : Request) → IsValid req → validate urls ids req ≡ true
  unfolding validate IsValid
  IsValid-validate req (named, single, rest) =
      rw
        (
          (unless_empty_iff req.run _).1 named,
          (unless_empty_iff req.url _).1 single,
          All-all_request_uris req.urls rest,
        )
        refl

  module _ {W : Type 0} (s : Crawls W) (default_agent : String) where
    -- The run of a request with cleaned URLs `us`.
    abbrev run_of : ApiRequest → String → List String → Run
    run_of req id us = record {
      id = id;
      metadata = req.run_metadata;
      urls = us;
      auth_configs = get_auth_configs urls req.request;
      allow_domains = get_allow_domains urls req.request;
      ignore_paths = req.request.ignore_paths;
      user_agent = if req.request.user_agent == "" then default_agent else req.request.user_agent;
      result_reporter_dsn = req.result_reporter_dsn;
      output_content_only = false;
    }

    -- What comes of a valid request: a panic of GetURLs, or the run that it asks for, added and
    -- started with the cleaned URLs.
    abbrev pub Taken : ApiRequest → W → Option (W × Answer) → Type 0
    Taken req w r =
        ((get_urls urls true req.request ≡ none) × (r ≡ none))
        ⊎ (id : String) × (us : List String) × (((if req.request.run == ""
                then some ids.fresh
                else ids.parse req.request.run)
              ≡ some id)
            × (get_urls urls true req.request ≡ some us)
            × (r ≡ some (s.start (run_of req id us) us (s.add (run_of req id us) w), accepted id)))

    abbrev pub Answered : ApiRequest ⊎ String → W → Option (W × Answer) → Type 0
    Answered (inr message) w r = r ≡ some (w, bad_request message)
    Answered (inl req) w r =
        ((IsValid req.request → ⊥) × (r ≡ some (w, bad_request "Invalid request.")))
        ⊎ IsValid req.request × Taken req w r

    accept-Taken :
        (req : ApiRequest) (w : W)
        → validate urls ids req.request ≡ true
        → Taken req w (accept urls ids x s default_agent req w)
    unfolding accept new_run
    accept-Taken req w ok =
        let (id, known) = get_run-known req.request (validate-IsValid req.request ok) in
        elim (Option-cases (get_urls urls true req.request)) [
          | inl bad ↦ inl (bad, rw (ok, known, bad) refl)
          | inr (us, good) ↦ inr (id, us, (known, good, rw (ok, known, good) refl))
        ]

    respond-Answered :
        (d : ApiRequest ⊎ String) (w : W) → Answered d w (respond urls ids x s default_agent d w)
    unfolding accept
    respond-Answered (inl req) w = elim (Bool-cases (validate urls ids req.request)) [
      | inl ok ↦ inr (validate-IsValid req.request ok, accept-Taken req w ok)
      | inr bad ↦ inl (λ v. true-false (sym (IsValid-validate req.request v) ∙ bad), rw bad refl)
    ]
    respond-Answered (inr message) w = refl

    -- A body that cannot be read is answered with its error, and a request in it that is not valid,
    -- that is, one that names a run by no UUID or has a URL that url.ParseRequestURI refuses, with
    -- status 400; both change nothing. A valid request panics where the cleaning of its URLs does.
    -- For any other, the run of its id, or of a fresh one, with its cleaned URLs, its metadata, its
    -- DSN and its user agent, or the configured one, is added, started with these URLs, and the
    -- answer has its id.
    pub post_answers :
        (body : String) (w : W)
        → Answered (read_body urls ids x body) w (post urls ids x s default_agent body w)
    unfolding post
    post_answers body w = respond-Answered (read_body urls ids x body) w
