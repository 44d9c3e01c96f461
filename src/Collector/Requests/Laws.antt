-- ===== src/Collector/Requests/Laws.antt =====
-- Depth and abortion of the requests of collector.go and request.go.
use tobey.Common.{
  ℕ, String, ◌+◌, ◌<◌, ◌≤◌, ◌≡◌, refl, [], Option, none, some, ◌>>=◌, arith, Option-cases, inl, inr,
}
use tobey.Failure.{Error}
use tobey.Headers.{Header}
use tobey.Url.{Url, UrlLib}
use tobey.Visitor.{Response}
use tobey.Collector.{Collector, CollectorLib, request_check, absolute_url}
use tobey.Collector.Fetching.{FetchLib}
use tobey.Collector.Callbacks.{handle_on_request, on_request}
use tobey.Collector.Callbacks.Laws.{call_all-snoc}
use tobey.Collector.Callbacks.Handlers.{DocLib}
use tobey.Collector.Requests.{
  Body, Request, abort, Client, Live, Calls, with_accept, fetch, scrape, check_and_fetch,
  visit_from,
}

deep :
    (c : Collector) (depth : ℕ)
    → 0 < c.max_depth
    → c.max_depth < depth
    → request_check c depth ≡ some Error.max_depth
unfolding request_check
deep c depth limited below = ground arith

module _ (urls : UrlLib) (x : CollectorLib) (y : FetchLib) (d : DocLib) {W : Type 0}
    (client_do : Client urls x y d W) where
  abbrev Refused : W → Option (W × Option Response × Option Error) → Type 0
  Refused w o = (err : Error) × (o ≡ some (w, none, some err))

  check_and_fetch_deep :
      (c : Collector) (cb : Calls urls x y d client_do) (url : Option Url) (method : String)
      (depth : ℕ) (body : Option Body) (hdr : Header) (w : W)
      → 0 < c.max_depth
      → c.max_depth < depth
      → Refused w (check_and_fetch urls x y d client_do c cb url method depth body hdr w)
  check_and_fetch_deep c cb none method depth body hdr w limited below = (Error.other "parse", refl)
  check_and_fetch_deep c cb (some url) method depth body hdr w limited below =
      (Error.max_depth, rw (deep c depth limited below, check_and_fetch) refl)

  -- Where a collector has a maximum depth, a scrape below it ends with an error and without a
  -- response, and changes nothing: no request is sent and no callback is run.
  pub scrape_too_deep :
      (c : Collector) (cb : Calls urls x y d client_do) (u method : String) (depth : ℕ)
      (body : Option Body) (hdr : Header) (w : W)
      → 0 < c.max_depth
      → c.max_depth < depth
      → (err : Error) × (scrape urls x y d client_do c cb u method depth body hdr w
          ≡ some (w, none, some err))
  unfolding scrape
  scrape_too_deep c cb u method depth body hdr w limited below =
      elim (Option-cases (do href ← y.parse_whatwg u; urls.parse href)) [
        | inl bad ↦ (Error.other "parse", rw (bad, scrape) refl)
        | inr (url, good) ↦
            rw (good, scrape)
              (check_and_fetch_deep c cb (urls.parse (urls.render url)) method depth body _ w
                limited below)
      ]

  -- A request at the maximum depth leads no further: what it is told to visit ends with an error, and
  -- changes nothing.
  pub visit_from_deepest :
      (c : Collector) (cb : Calls urls x y d client_do) (r : Request) (u : String) (w : W)
      → 0 < c.max_depth
      → c.max_depth ≤ r.depth
      → (err : Error) × (visit_from urls x y d client_do c cb r u w ≡ some (w, none, some err))
  unfolding visit_from
  visit_from_deepest c cb r u w limited deepest =
      scrape_too_deep c cb (absolute_url urls x r.url r.base_url u) "GET" (r.depth + 1) none [] w
        limited (omega (arith, deepest))

  -- The callback that aborts.
  abbrev pub abort_callback :
      Unit {0} → Live urls x y d client_do → Option (Live urls x y d client_do)
  abort_callback u (r, w) = some (abort r, w)

  -- Where the last callback for requests aborts, a fetch sends nothing, whatever the client: if the
  -- callbacks before it return, the fetch leaves the world as they do, and answers with neither a
  -- response nor an error.
  pub abort_sends_nothing :
      (c : Collector) (cb : Calls urls x y d client_do) (made : Request) (w : W) (r : Request)
      (w1 : W)
      → handle_on_request cb tt
          (record made { headers = with_accept urls x y d client_do made.headers }, w)
        ≡ some (r, w1)
      → fetch urls x y d client_do c (on_request abort_callback cb) made w
        ≡ some ((abort r, w1), none, none)
  unfolding fetch handle_on_request on_request abort
  abort_sends_nothing c cb made w r w1 before =
      rw
        (
          call_all-snoc cb.request abort_callback tt
              (record made { headers = with_accept urls x y d client_do made.headers }, w),
          before,
        )
        refl
