-- ===== src/Collector/Requests/Beside.antt =====
-- The callbacks of the collector that NewCollector sets up, over a world beside a request.
use tobey.Common.{
  String, List, [], ◌∷◌, Bool, ◌≡◌, ◌∙◌, refl, sym, ap, true, false, Option, none, some, ◌>>=◌,
  >>=-cong, >>=-assoc, Option-cases, Bool-cases, inl, inr, string_eq,
}
use tobey.Common.Text.{contains}
use tobey.Failure.{Error}
use tobey.Headers.{get}
use tobey.Url.{Url, UrlLib}
use tobey.Visitor.{Response}
use tobey.Collector.{Collector, CollectorLib, link_target}
use tobey.Collector.Fetching.{
  FetchLib, Raw, Scraper, follow_links, enqueue_target, base_url, handle_on_error, backend_do,
  hand_out, fetched, answered, deliver, last_url,
}
use tobey.Collector.Fetching
use tobey.Collector.Callbacks.{call_all, handle_on_scraped}
use tobey.Collector.Callbacks.Handlers.{DocLib, handle_on_xml, new_collector}
use tobey.Collector.Callbacks.Laws.{world_of}
use tobey.Collector.Requests.{
  Request, Client, Calls, Outcome, call_errors, handle_errors, heed, page_error,
}

module _ (urls : UrlLib) (x : CollectorLib) (y : FetchLib) (d : DocLib) {W : Type 0}
    (s : Scraper urls x y W) (client_do : Client urls x y d W) where
  -- The scraper's functions, beside a request.
  abbrev pub beside : Scraper urls x y (Request × W)
  beside = record {
    client_do = λ url hdr rw. ((rw.0, (s.client_do url hdr rw.1).0), (s.client_do url hdr rw.1).1);
    enqueue = λ u rw. (do w1 ← s.enqueue u rw.1; some (rw.0, w1));
    collect = λ res rw. (rw.0, s.collect res rw.1);
  }

  abbrev pub plain : Calls urls x y d client_do
  plain = new_collector urls x d beside.enqueue beside.collect

  unfoldable pub lifted : Request → Option W → Option (Request × W)
  lifted r m = do w1 ← m; some (r, w1)

  targets :
      (r : Request) (t : Option String) (w : W)
      → enqueue_target urls x y beside t (r, w) ≡ lifted r (enqueue_target urls x y s t w)
  unfolding lifted
  targets r none w = refl
  targets r (some u) w = refl

  links :
      (r : Request) (url : Url) (base : Option Url) (hrefs : List String) (w : W)
      → follow_links urls x y beside url base hrefs (r, w)
        ≡ lifted r (follow_links urls x y s url base hrefs w)
  unfolding lifted follow_links
  links r url base [] w = refl
  links r url base (href ∷ hrefs) w =
      let m = enqueue_target urls x y s (link_target urls x url base href) w in
      ap (λ o. o >>= λ v. follow_links urls x y beside url base hrefs v)
        (targets r (link_target urls x url base href) w)
      ∙ >>=-assoc m _ _
      ∙ >>=-cong m _ _ (λ v. links r url base hrefs v)
      ∙ sym (>>=-assoc m _ _)

  pub pages :
      (r : Request) (url : Url) (res : Response) (w : W)
      → Fetching.handle_on_html urls x y beside url res (r, w)
        ≡ lifted r (Fetching.handle_on_html urls x y s url res w)
  unfolding lifted Fetching.handle_on_html
  pages r url res w =
      elim (Bool-cases (contains (y.to_lower (get "Content-Type" res.headers)) "html")) [
        | inr other ↦ rw (other, Fetching.handle_on_html) refl
        | inl html ↦ elim (Option-cases (y.read_page res.body)) [
          | inl bad ↦ rw (html, bad, Fetching.handle_on_html) refl
          | inr ((base, hrefs), ok) ↦
              rw (html, ok, Fetching.handle_on_html)
                (links r url (base_url urls x y s url base) hrefs w)
        ]
      ]

  call_errors-plain :
      (res : Option Response) (err : Option Error) (live : Request × W)
      → call_errors urls x y d client_do plain res err live ≡ some (live, err)
  unfolding new_collector call_all
  call_errors-plain res none live = refl
  call_errors-plain res (some err) live = refl

  pub errors_only_logged :
      (c : Collector) (res : Option Response) (err : Option Error) (live : Request × W)
      → handle_errors urls x y d client_do c plain res err live
        ≡ (do err1 ← handle_on_error c res err; some (live, err1))
  unfolding handle_errors
  errors_only_logged c res err live =
      >>=-cong (handle_on_error c res err) _ _ λ err1. call_errors-plain res err1 live

  heeds :
      (c : Collector) (res : Response) (h : (Request × W) × Option Url × Bool)
      → heed urls x y d client_do c plain res h ≡ some (record h.0.0 { base_url = h.1 }, h.0.1)
  unfolding handle_on_error
  heeds c res ((r, w), base, true) = refl
  heeds c res ((r, w), base, false) =
      rw
        (errors_only_logged c (some res) (some (Error.other "parse"))
          (record r { base_url = base }, w))
        refl

  -- What is left of a fetch, for a world without the request.
  abbrev pub without_request :
      Option (Outcome urls x y d client_do) → Option (W × Option Response × Option Error)
  without_request o = do (live, res, err) ← o; some (live.1, res, err)

  abbrev pub collected : Response → Option W → Option (W × Option Response × Option Error)
  collected res m = do w1 ← m; some (s.collect res w1, some res, none)

  pub all_behind :
      (c : Collector) (res : Response) (m : Option ((Request × W) × Option Url × Bool))
      → without_request (do
        html ← m
        live2 ← heed urls x y d client_do c plain res html
        xml ← handle_on_xml urls x d plain live2.0.url live2.0.base_url res live2
        live3 ← heed urls x y d client_do c plain res xml
        live4 ← handle_on_scraped plain res live3
        some (live4, some res, page_error urls x y d client_do xml))
        ≡ collected res (do rw ← m >>= world_of; some rw.1)
  unfolding handle_on_xml handle_on_scraped new_collector
  all_behind c res none = refl
  all_behind c res (some ((r, w), base, ok)) = rw (heeds c res ((r, w), base, ok)) refl

  pub collected-lifted :
      (res : Response) (r : Request) (m : Option W)
      → collected res (do rw ← lifted r m; some rw.1) ≡ collected res m
  unfolding lifted
  collected-lifted res r none = refl
  collected-lifted res r (some w) = refl
