-- ===== src/Collector/Keeping.antt =====
-- Invariants of a visit, from those of the client, of the enqueue function and of the collect
-- function that its collector was made with.
use tobey.Common.{
  String, List, [], ◌∷◌, ◌≡◌, Option, none, some, false, not, inl, inr, Option-cases, Bool-cases,
  Returns, Returns-any, Returns-bind, Returns-some,
}
use tobey.Common.Text.{contains}
use tobey.Failure.{Error}
use tobey.Headers.{Header, get, set}
use tobey.Url.{Url, UrlLib}
use tobey.Visitor.{Response}
use tobey.Collector.{Collector, CollectorLib, request_check, link_target}
use tobey.Collector.Charset.{fix_charset}
use tobey.Collector.Fetching.{
  FetchLib, Raw, Scraper, handle_on_error, hand_out, fetched, answered, sent_header, deliver,
  request_url, fetch, visit, handle_on_html, last_url, base_url, follow_links,
}

module _ (urls : UrlLib) (x : CollectorLib) (y : FetchLib) {W : Type 0} (s : Scraper urls x y W)
    (P : W → Type 0)
    (sends : (url : Url) (hdr : Header) (w : W) → P w → P (s.client_do url hdr w).0)
    (enqueues : (url : String) (w : W) → P w → Returns P (s.enqueue url w))
    (collects : (res : Response) (w : W) → P w → P (s.collect res w)) where
  abbrev Kept : W × Option Response × Option Error → Type 0
  Kept (w, res, err) = P w

  follow_links-Kept :
      (url : Url) (base : Option Url) (hrefs : List String) (w : W)
      → P w
      → Returns P (follow_links urls x y s url base hrefs w)
  unfolding follow_links
  follow_links-Kept url base [] w h = h
  follow_links-Kept url base (href ∷ hrefs) w h =
      elim (Option-cases (link_target urls x url base href)) [
        | inl no_target ↦ rw (no_target, follow_links) (follow_links-Kept url base hrefs w h)
        | inr (target, found) ↦
            rw (found, follow_links)
              (Returns-bind P P (s.enqueue target w) _ (enqueues target w h)
                λ w1 h1. follow_links-Kept url base hrefs w1 h1)
      ]

  handle_on_html-Kept :
      (url : Url) (res : Response) (w : W) → P w → Returns P (handle_on_html urls x y s url res w)
  unfolding handle_on_html
  handle_on_html-Kept url res w h =
      elim (Bool-cases (not (contains (y.to_lower (get "Content-Type" res.headers)) "html"))) [
        | inl other ↦ rw (other, handle_on_html) h
        | inr html ↦ elim (Option-cases (y.read_page res.body)) [
          | inl bad ↦ rw (html, bad, handle_on_html) h
          | inr ((base, hrefs), ok) ↦
              rw (html, ok, handle_on_html)
                (follow_links-Kept url (base_url urls x y s url base) hrefs w h)
        ]
      ]

  hand_out-Kept :
      (url : Url) (res : Response) (w : W) → P w → Returns Kept (hand_out urls x y s url res w)
  unfolding hand_out
  hand_out-Kept url res w h = elim (Option-cases (fix_charset y.charset false "" res)) [
    | inl bad ↦ rw (bad, hand_out) h
    | inr (fixed, ok) ↦
        rw (ok, hand_out)
          (Returns-bind P Kept (handle_on_html urls x y s url fixed w) _
            (handle_on_html-Kept url fixed w h) λ w1 h1. collects fixed w1 h1)
  ]

  fetched-Kept :
      (url : Url) (w : W) (res : Option Response) (err : Option Error)
      → P w
      → Returns Kept (fetched urls x y s url w res err)
  fetched-Kept url w none (some err) h = h
  fetched-Kept url w (some res) (some err) h = h
  fetched-Kept url w none none h = tt
  fetched-Kept url w (some res) none h = hand_out-Kept url res w h

  deliver-Kept :
      (c : Collector) (url : Url) (r : W × (Option Raw × Option Error))
      → P r.0
      → Returns Kept (deliver urls x y s c url r)
  unfolding deliver
  deliver-Kept c url (w, (raw, failure)) h =
      let (res, err) = answered urls x y s c (raw, failure) in
      Returns-bind (λ _. Unit {0}) Kept (handle_on_error c res err) _ (Returns-any _)
        λ err' _. fetched-Kept (last_url urls x y s url raw) w res err' h

  request_url-Kept :
      (c : Collector) (url : Option Url) (w : W)
      → P w
      → Returns Kept (request_url urls x y s c url w)
  unfolding request_url fetch
  request_url-Kept c none w h = h
  request_url-Kept c (some url) w h = elim (Option-cases (request_check c 1)) [
    | inl shallow ↦
        rw (shallow, request_url)
          (let hdr = sent_header urls x y s (set "User-Agent" c.user_agent []) in
            deliver-Kept c url (s.client_do url hdr w) (sends url hdr w h))
    | inr (err, deep) ↦ rw (deep, request_url) h
  ]

  pub visits_keep :
      (c : Collector) (u : String) (w : W) → P w → Returns Kept (visit urls x y s c u w)
  unfolding visit
  visits_keep c u w h = elim (Option-cases (y.parse_whatwg u)) [
    | inl bad ↦ rw (bad, visit) h
    | inr (href, good) ↦ elim (Option-cases (urls.parse href)) [
      | inl bad ↦ rw (good, bad, visit) h
      | inr (url, parsed) ↦
          rw (good, parsed, visit) (request_url-Kept c (urls.parse (urls.render url)) w h)
    ]
  ]

  -- What the client, the enqueue function and the collect function keep, a visit keeps.
  pub visit-Kept :
      (c : Collector) (u : String) (w w' : W) (res : Option Response) (err : Option Error)
      → P w
      → visit urls x y s c u w ≡ some (w', res, err)
      → P w'
  visit-Kept c u w w' res err h e =
      Returns-some Kept (visit urls x y s c u w) (visits_keep c u w h) e
