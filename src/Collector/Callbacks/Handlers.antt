-- ===== src/Collector/Callbacks/Handlers.antt =====
-- handleOnHTML and handleOnXML of callbacks.go, and the callbacks of NewCollector. goquery, htmlquery
-- and xmlquery are parameters.
use tobey.Common.{
  ℕ, String, suc, List, [], ◌∷◌, Bool, true, false, not, ◌||◌, Option, none, some, ◌>>=◌,
  if◌then◌else◌, string_eq,
}
use tobey.Common.Text.{contains, has_suffix}
use tobey.Headers.{get}
use tobey.Url.{Url, UrlLib}
use tobey.Visitor.{Response}
use tobey.Collector.{CollectorLib, link_target}
use tobey.Collector.Callbacks.{
  Callback, Element, Callbacks, no_callbacks, on_html, on_scraped, on_error,
}

-- A document, and what is found in it: the attributes of the elements that a selector or an xpath
-- query selects.
pub record DocLib : Type 1 where
  pub Doc : Type 0
  pub to_lower : String → String
  -- goquery, by a selector, and htmlquery and xmlquery, by a query; `none` is an error.
  pub read_html : String → Option Doc
  pub find : Doc → String → List (String → String)
  pub query_html : Doc → String → List (String → String)
  pub read_xml : String → Option Doc
  pub query_xml : Doc → String → List (String → String)
  -- Attr("href") of Find("base[href]"), and the href of FindOne("//base")
  pub base_href : Doc → Option String
  pub base_query : Doc → Option String
  -- (*URL).Parse
  pub parse_from : Url → String → Option Url

module _ (urls : UrlLib) (x : CollectorLib) (d : DocLib) where
  open d use {Doc}

  -- The request's base URL behind what the page says of it: it stays where that cannot be parsed.
  unfoldable pub new_base : Url → Option String → Option Url → Option Url
  new_base url none base = base
  new_base url (some href) base =
      elim (do abs ← x.parse_ref (urls.render url) href; urls.parse abs) [
        | none ↦ base
        | some b ↦ some b
      ]

  abbrev pub new_base_of_query : Url → Option String → Option Url → Option Url
  new_base_of_query url none base = base
  new_base_of_query url (some href) base = elim (d.parse_from url href) [
    | none ↦ base
    | some b ↦ some b
  ]

  abbrev content_type : Response → String
  content_type res = d.to_lower (get "Content-Type" res.headers)

  unfoldable pub is_xml_file : Url → Bool
  unfolding has_suffix
  is_xml_file url =
      has_suffix (d.to_lower url.path) ".xml" || has_suffix (d.to_lower url.path) ".xml.gz"

  module _ {W : Type 0} where
    unfoldable pub call_each :
        Callback W Element → Url → Option Url → ℕ → List (String → String) → W → Option W
    call_each f url base i [] w = some w
    call_each f url base i (n ∷ ns) w = do
      w1 ← f (record { attr = n; index = i; url = url; base_url = base }) w
      call_each f url base (suc i) ns w1

    unfoldable pub call_found :
        (String → List (String → String))
        → List (String × Callback W Element)
        → Url
        → Option Url
        → W
        → Option W
    unfolding call_each
    call_found found [] url base w = some w
    call_found found ((selector, f) ∷ cs) url base w = do
      w1 ← call_each f url base 0 (found selector) w
      call_found found cs url base w1

    abbrev is_empty : List (String × Callback W Element) → Bool
    is_empty [] = true
    is_empty (c ∷ cs) = false

    abbrev html_read :
        List (String × Callback W Element)
        → Url
        → Option Url
        → W
        → Option Doc
        → Option (W × Option Url × Bool)
    html_read cs url base w none = some (w, base, false)
    html_read cs url base w (some doc) = do
      w1 ← call_found (d.find doc) cs url (new_base url (d.base_href doc) base) w
      some (w1, new_base url (d.base_href doc) base, true)

    -- handleOnHTML: the world, the request's base URL, and whether there was no error.
    unfoldable pub handle_on_html :
        {Q : Type 0}
        → Callbacks W Q
        → Url
        → Option Url
        → Response
        → W
        → Option (W × Option Url × Bool)
    unfolding call_found new_base get contains
    handle_on_html c url base res w =
        if is_empty c.html || not (contains (content_type res) "html")
        then some (w, base, true)
        else html_read c.html url base w (d.read_html res.body)

    abbrev query_read :
        List (String × Callback W Element)
        → Url
        → Option Url
        → W
        → Option Doc
        → Option (W × Option Url × Bool)
    query_read cs url base w none = some (w, base, false)
    query_read cs url base w (some doc) = do
      w1 ← call_found (d.query_html doc) cs url (new_base_of_query url (d.base_query doc) base) w
      some (w1, new_base_of_query url (d.base_query doc) base, true)

    abbrev xml_read :
        List (String × Callback W Element)
        → Url
        → Option Url
        → W
        → Option Doc
        → Option (W × Option Url × Bool)
    xml_read cs url base w none = some (w, base, false)
    xml_read cs url base w (some doc) = do
      w1 ← call_found (d.query_xml doc) cs url base w
      some (w1, base, true)

    -- handleOnXML
    unfoldable pub handle_on_xml :
        {Q : Type 0}
        → Callbacks W Q
        → Url
        → Option Url
        → Response
        → W
        → Option (W × Option Url × Bool)
    unfolding call_found get contains is_xml_file
    handle_on_xml c url base res w =
        if is_empty c.xml
        then some (w, base, true)
        else if contains (content_type res) "html"
        then query_read c.xml url base w (d.read_html res.body)
        else if contains (content_type res) "xml" || is_xml_file url
        then xml_read c.xml url base w (d.read_xml res.body)
        else some (w, base, true)

    abbrev pub enqueue_found : (String → W → Option W) → Option String → W → Option W
    enqueue_found enqueue none w = some w
    enqueue_found enqueue (some u) w = enqueue u w

    -- The callback of NewCollector for `a[href]`.
    unfoldable pub follow_link : (String → W → Option W) → Callback W Element
    unfolding link_target
    follow_link enqueue e w =
        enqueue_found enqueue (link_target urls x e.url e.base_url (e.attr "href")) w

    -- NewCollector's callbacks. The one for errors only logs.
    unfoldable pub new_collector :
        {Q : Type 0} → (String → W → Option W) → (Response → W → W) → Callbacks W Q
    unfolding on_html on_scraped on_error follow_link
    new_collector enqueue collect =
        on_error (λ e w. some w)
          (on_scraped (λ res w. some (collect res w))
            (on_html "a[href]" (follow_link enqueue) no_callbacks))
