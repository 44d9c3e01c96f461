-- ===== src/Collector/Requests/Plain.antt =====
-- Requests by GET of the collector that NewCollector sets up.
use tobey.Common.{
  String, Bool, if◌then◌else◌, ◌&&◌, ◌≡◌, ◌∙◌, refl, ap, false, Option, none, some, ◌>>=◌,
  string_eq, ◌==◌,
}
use tobey.Failure.{Error, aborted_after_headers}
use tobey.Headers.{Header, get, add}
use tobey.Url.{UrlLib}
use tobey.Visitor.{Response}
use tobey.Collector.{Collector, CollectorLib}
use tobey.Collector.Charset.{fix_charset}
use tobey.Collector.Fetching.{
  FetchLib, Raw, Scraper, follow_links, enqueue_target, base_url, handle_on_error, backend_do,
  hand_out, fetched, answered, deliver, last_url,
}
use tobey.Collector.Fetching
use tobey.Collector.Callbacks.{
  call_all, handle_on_response, handle_on_response_headers, handle_on_request,
}
use tobey.Collector.Callbacks.Handlers.{DocLib, handle_on_html, new_collector}
use tobey.Collector.Callbacks.Laws.{ReadsPage, world_of, handle_on_html-follow_links}
use tobey.Collector.Requests.Beside.{
  plain, beside, without_request, collected, pages, errors_only_logged, all_behind,
  collected-lifted, lifted,
}
use tobey.Collector.Requests.{
  Request, Client, Outcome, handle_errors, handle_all, finish, fetch, take_answer, read_answer,
  send, with_accept, with_type,
}

module _ (urls : UrlLib) (x : CollectorLib) (y : FetchLib) (d : DocLib) {W : Type 0}
    (s : Scraper urls x y W) (client_do : Client urls x y d W) where
  module _ (page : ReadsPage urls x d y (beside urls x y d s client_do))
      (lower : (t : String) → y.to_lower t ≡ d.to_lower t) where
    handles :
        (c : Collector) (r : Request) (res : Response) (w : W)
        → r.base_url ≡ none
        → (without_request urls x y d s client_do)
            (handle_all urls x y d client_do c (plain urls x y d s client_do) res (r, w))
          ≡ (collected urls x y d s client_do) res (Fetching.handle_on_html urls x y s r.url res w)
    unfolding handle_all handle_on_response new_collector lifted
    handles c r res w fresh =
        (all_behind urls x y d s client_do) c res
          (handle_on_html urls x d (plain urls x y d s client_do) r.url r.base_url res (r, w))
        ∙ ap (λ o. (collected urls x y d s client_do) res (do rw ← o; some rw.1))
            (ap
                (λ b.
                  handle_on_html urls x d (plain urls x y d s client_do) r.url b res (r, w)
                  >>= world_of)
                fresh
              ∙ handle_on_html-follow_links urls x d y (beside urls x y d s client_do) (Unit {0})
                  (beside urls x y d s client_do).collect r.url res (r, w) page lower
              ∙ (pages urls x y d s client_do) r r.url res w)
        ∙ (collected-lifted urls x y d s client_do) res r
            (Fetching.handle_on_html urls x y s r.url res w)

    fixed_or_not :
        Collector → Request → Response → W → Option Response → Option (Outcome urls x y d client_do)
    fixed_or_not c r res w o = elim o [
      | none ↦ some ((r, w), some res, some (Error.other "charset"))
      | some fixed ↦ handle_all urls x y d client_do c (plain urls x y d s client_do) fixed (r, w)
    ]

    by_charset :
        (c : Collector) (r : Request) (res : Response) (w : W) (o : Option Response)
        → r.base_url ≡ none
        → (without_request urls x y d s client_do) (fixed_or_not c r res w o) ≡ elim o [
          | none ↦ some (w, some res, some (Error.other "charset"))
          | some fixed ↦
              (collected urls x y d s client_do) fixed
                (Fetching.handle_on_html urls x y s r.url fixed w)
        ]
    unfolding fixed_or_not
    by_charset c r res w none fresh = refl
    by_charset c r res w (some fixed) fresh = handles c r fixed w fresh

    finishes :
        (c : Collector) (r : Request) (res : Option Response) (err : Option Error) (w : W)
        → r.base_url ≡ none
        → r.response_character_encoding ≡ ""
        → (without_request urls x y d s client_do)
            (finish urls x y d client_do c (plain urls x y d s client_do) res ((r, w), err))
          ≡ fetched urls x y s r.url w res err
    unfolding finish hand_out fixed_or_not
    finishes c r none (some err) w fresh auto = refl
    finishes c r (some res) (some err) w fresh auto = refl
    finishes c r none none w fresh auto = refl
    finishes c r (some res) none w fresh auto =
        ap
          (λ e.
            (without_request urls x y d s client_do)
              (fixed_or_not c r res w (fix_charset y.charset false e res)))
          auto
        ∙ by_charset c r res w (fix_charset y.charset false "" res) fresh

    then_finishes :
        (c : Collector) (r : Request) (res : Option Response) (err : Option Error) (w : W)
        → r.base_url ≡ none
        → r.response_character_encoding ≡ ""
        → (without_request urls x y d s client_do) (do
          handled ←
              handle_errors urls x y d client_do c (plain urls x y d s client_do) res err (r, w)
          finish urls x y d client_do c (plain urls x y d s client_do) res handled)
          ≡ (do err1 ← handle_on_error c res err; fetched urls x y s r.url w res err1)
    then_finishes c r res err w fresh auto =
        ap
          (λ o.
            (without_request urls x y d s client_do)
              (o >>= finish urls x y d client_do c (plain urls x y d s client_do) res))
          ((errors_only_logged urls x y d s client_do) c res err (r, w))
        ∙ behind_error (handle_on_error c res err)
      where
        behind_error :
            (o : Option (Option Error))
            → (without_request urls x y d s client_do) (do
              handled ← (do err1 ← o; some ((r, w), err1))
              finish urls x y d client_do c (plain urls x y d s client_do) res handled)
              ≡ (do err1 ← o; fetched urls x y s r.url w res err1)
        behind_error none = refl
        behind_error (some err1) = finishes c r res err1 w fresh auto

    read_live :
        (c : Collector) (raw : Raw) (r : Request) (w : W)
        → r.abort ≡ false
        → read_answer urls x y d client_do c raw (r, w)
          ≡ ((r, w), (backend_do urls x y c raw).0, (backend_do urls x y c raw).1)
    read_live c raw r w live =
        ap
          (λ b.
            if b
            then ((r, w), none, some aborted_after_headers)
            else ((r, w), (backend_do urls x y c raw).0, (backend_do urls x y c raw).1))
          live

    -- From the client's answer on.
    delivers :
        (c : Collector) (r : Request) (w : W) (raw : Option Raw) (failure : Option Error)
        → r.abort ≡ false
        → r.base_url ≡ none
        → r.response_character_encoding ≡ ""
        → (without_request urls x y d s client_do) (do
          (live, res, err) ←
              take_answer urls x y d client_do c
                (plain urls x y d s client_do)
                (r, w)
                (raw, failure)
          handled ← handle_errors urls x y d client_do c (plain urls x y d s client_do) res err live
          finish urls x y d client_do c (plain urls x y d s client_do) res handled)
          ≡ deliver urls x y s c r.url (w, (raw, failure))
    unfolding take_answer deliver handle_on_response_headers new_collector call_all
    delivers c r w (some raw) none live fresh auto =
        ap
          (λ (o : Outcome urls x y d client_do). (without_request urls x y d s client_do) (do
            handled ←
                handle_errors urls x y d client_do c (plain urls x y d s client_do) o.1 o.2 o.0
            finish urls x y d client_do c (plain urls x y d s client_do) o.1 handled))
          (read_live c raw (record r { url = raw.url }) w live)
        ∙ then_finishes c (record r { url = raw.url }) (backend_do urls x y c raw).0
            (backend_do urls x y c raw).1 w fresh auto
    delivers c r w (some raw) (some err) live fresh auto =
        then_finishes c r none (some err) w fresh auto
    delivers c r w none failure live fresh auto = then_finishes c r none failure w fresh auto

    typed :
        (method : String) (hdr : Header)
        → (method == "POST") ≡ false
        → with_type urls x y d client_do method hdr ≡ hdr
    typed method hdr other =
        ap
          (λ b.
            if b && get "Content-Type" hdr == ""
            then add "Content-Type" "application/x-www-form-urlencoded" hdr
            else hdr)
          other

    sends :
        (c : Collector) (r : Request) (w : W)
        → r.abort ≡ false
        → r.base_url ≡ none
        → r.response_character_encoding ≡ ""
        → client_do r w ≡ s.client_do r.url r.headers w
        → (without_request urls x y d s client_do)
            (send urls x y d client_do c (plain urls x y d s client_do) r (r, w))
          ≡ deliver urls x y s c r.url (s.client_do r.url r.headers w)
    unfolding send
    sends c r w live fresh auto alike =
        ap
          (λ a. (without_request urls x y d s client_do) (do
            (now, res, err) ←
                take_answer urls x y d client_do c (plain urls x y d s client_do) (r, a.0) a.1
            handled ←
                handle_errors urls x y d client_do c (plain urls x y d s client_do) res err now
            finish urls x y d client_do c (plain urls x y d s client_do) res handled))
          alike
        ∙ (let (w1, (raw, failure)) = s.client_do r.url r.headers w in
            delivers c r w1 raw failure live fresh auto)

    abbrev with_headers : Request → Header → Request
    with_headers r hdr = record r { headers = hdr }

    abbrev aborted_or_sent :
        Collector → Request → Header → W → Bool → Option (Outcome urls x y d client_do)
    aborted_or_sent c made hdr w b =
        let r = with_headers made (with_type urls x y d client_do made.method hdr) in
        if b
        then some ((with_headers made hdr, w), none, none)
        else send urls x y d client_do c (plain urls x y d s client_do) r (r, w)

    -- With the callbacks of NewCollector, and for a request other than a POST that is not aborted, has
    -- no base URL and no charset of its own, a fetch with callbacks of every kind comes to the same
    -- world and answers the same as the fetch that is written out for that collector, if the client
    -- answers both alike and the page is read alike.
    pub fetch-plain :
        (c : Collector) (made : Request) (w : W)
        → made.abort ≡ false
        → made.base_url ≡ none
        → made.response_character_encoding ≡ ""
        → (made.method == "POST") ≡ false
        → ((hdr : Header) (v : W)
            → client_do (record made { headers = hdr }) v ≡ s.client_do made.url hdr v)
        → (without_request urls x y d s client_do)
            (fetch urls x y d client_do c (plain urls x y d s client_do) made w)
          ≡ Fetching.fetch urls x y s c made.url made.headers w
    unfolding fetch send Fetching.fetch handle_on_request new_collector call_all
    fetch-plain c made w live fresh auto other alike =
        let hdr = with_accept urls x y d client_do made.headers in
        ap (λ b. (without_request urls x y d s client_do) (aborted_or_sent c made hdr w b)) live
        ∙ ap
            (λ h. (without_request urls x y d s client_do) (
              send urls x y d client_do c (plain urls x y d s client_do) (with_headers made h)
                (with_headers made h, w)))
            (typed made.method hdr other)
        ∙ sends c (with_headers made hdr) w live fresh auto (alike hdr w)
