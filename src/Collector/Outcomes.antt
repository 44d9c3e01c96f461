-- ===== src/Collector/Outcomes.antt =====
-- What comes of a visit.
use tobey.Common.{
  String, ◌≡◌, ◌≢◌, ◌≤◌, refl, sym, subst, [], true, false, ◌||◌, Option, none, some, arith,
  is_some, inl, inr, Option-cases, nat_eq, Returns, Returns-bind, Returns-any, Returns-some,
}
use tobey.Failure.{Error, http_status}
use tobey.Headers.{Header, set}
use tobey.Url.{Url, UrlLib}
use tobey.Visitor.{Response}
use tobey.Collector.{Collector, CollectorLib, request_check}
use tobey.Collector.Charset.{fix_charset}
use tobey.Collector.Fetching.{
  FetchLib, Raw, Scraper, handle_on_error, backend_do, hand_out, fetched, answered, sent_header,
  deliver, request_url, fetch, visit, handle_on_html, last_url,
}

handle_on_error-failed :
    (c : Collector) (res : Response)
    → c.parse_http_error_response ≡ false
    → 203 ≤ res.status_code
    → res.status_code ≢ 304
    → handle_on_error c (some res) none ≡ some (some (http_status res.status_code))
unfolding handle_on_error
handle_on_error-failed c res strict high fresh = ground (arith, strict)

module _ (urls : UrlLib) (x : CollectorLib) (y : FetchLib) {W : Type 0}
    (s : Scraper urls x y W) where
  abbrev pub Answers : W × Option Response × Option Error → Type 0
  Answers (w, res, err) = (is_some res || is_some err) ≡ true

  hand_out-Answers :
      (url : Url) (res : Response) (w : W) → Returns Answers (hand_out urls x y s url res w)
  unfolding hand_out
  hand_out-Answers url res w = elim (Option-cases (fix_charset y.charset false "" res)) [
    | inl bad ↦ rw (bad, hand_out) refl
    | inr (fixed, ok) ↦
        rw (ok, hand_out)
          (Returns-bind (λ _. Unit {0}) Answers (handle_on_html urls x y s url fixed w) _
            (Returns-any _) λ w1 _. refl)
  ]

  fetched-Answers :
      (url : Url) (w : W) (res : Option Response) (err : Option Error)
      → Returns Answers (fetched urls x y s url w res err)
  fetched-Answers url w none (some err) = refl
  fetched-Answers url w (some res) (some err) = refl
  fetched-Answers url w none none = tt
  fetched-Answers url w (some res) none = hand_out-Answers url res w

  deliver-Answers :
      (c : Collector) (url : Url) (r : W × (Option Raw × Option Error))
      → Returns Answers (deliver urls x y s c url r)
  unfolding deliver
  deliver-Answers c url (w, (raw, failure)) =
      let (res, err) = answered urls x y s c (raw, failure) in
      Returns-bind (λ _. Unit {0}) Answers (handle_on_error c res err) _ (Returns-any _)
        λ err' _. fetched-Answers (last_url urls x y s url raw) w res err'

  request_url-Answers :
      (c : Collector) (url : Option Url) (w : W) → Returns Answers (request_url urls x y s c url w)
  unfolding request_url fetch
  request_url-Answers c none w = refl
  request_url-Answers c (some url) w = elim (Option-cases (request_check c 1)) [
    | inl shallow ↦
        rw (shallow, request_url)
          (deliver-Answers c url
            (s.client_do url (sent_header urls x y s (set "User-Agent" c.user_agent [])) w))
    | inr (err, deep) ↦ rw (deep, request_url) refl
  ]

  visit-Answers : (c : Collector) (u : String) (w : W) → Returns Answers (visit urls x y s c u w)
  unfolding visit
  visit-Answers c u w = elim (Option-cases (y.parse_whatwg u)) [
    | inl bad ↦ rw (bad, visit) refl
    | inr (href, good) ↦ elim (Option-cases (urls.parse href)) [
      | inl bad ↦ rw (good, bad, visit) refl
      | inr (url, parsed) ↦
          rw (good, parsed, visit) (request_url-Answers c (urls.parse (urls.render url)) w)
    ]
  ]

  -- A visit that returns has a response or an error, so that a worker can always go on with it.
  pub visit_answers :
      (c : Collector) (u : String) (w w' : W) (res : Option Response) (err : Option Error)
      → visit urls x y s c u w ≡ some (w', res, err)
      → (is_some res || is_some err) ≡ true
  visit_answers c u w w' res err e =
      Returns-some Answers (visit urls x y s c u w) (visit-Answers c u w) e

  deliver-failed :
      (c : Collector) (url : Url) (raw : Raw) (res : Response) (w : W) (err : Error)
      → backend_do urls x y c raw ≡ (some res, none)
      → handle_on_error c (some res) none ≡ some (some err)
      → deliver urls x y s c url (w, (some raw, none)) ≡ some (w, some res, some err)
  unfolding deliver
  deliver-failed c url raw res w err done failed = rw (done, failed)

  -- Of a page whose status is 203 or more, and not 304, no link is followed and nothing collected,
  -- unless error responses are to be parsed: the world is as the client left it.
  pub failed_page_not_followed :
      (c : Collector) (url : Url) (hdr : Header) (raw : Raw) (res : Response) (w w1 : W)
      → c.parse_http_error_response ≡ false
      → s.client_do url (sent_header urls x y s hdr) w ≡ (w1, (some raw, none))
      → backend_do urls x y c raw ≡ (some res, none)
      → 203 ≤ res.status_code
      → res.status_code ≢ 304
      → fetch urls x y s c url hdr w ≡ some (w1, some res, some (http_status res.status_code))
  unfolding fetch
  failed_page_not_followed c url hdr raw res w w1 strict did done high fresh =
      subst
        (λ r. deliver urls x y s c url r ≡ some (w1, some res, some (http_status res.status_code)))
        (sym did)
        (deliver-failed c url raw res w1 (http_status res.status_code) done
          (handle_on_error-failed c res strict high fresh))
