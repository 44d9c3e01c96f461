-- ===== src/Collector/Callbacks/Laws.antt =====
-- The registration, the order and the removal of callbacks, and what the callbacks of NewCollector do
-- with the links of a page.
use tobey.Common.{
  ℕ, String, suc, List, [], ◌∷◌, ◌++◌, map, Bool, true, false, Option, none, some, ◌>>=◌, >>=-cong,
  >>=-assoc, length, ◌==◌, string_eq, eq_refl, ◌≡◌, refl, sym, ap, ◌∙◌, All, Bool-cases,
  Option-cases, inl, inr,
}
use mathlib.Core.List.{append-nil}
use tobey.Common.Text.{contains}
use tobey.Headers.{get}
use tobey.Url.{Url, UrlLib}
use tobey.Visitor.{Response}
use tobey.Collector.{CollectorLib, link_target}
use tobey.Collector.Fetching.{FetchLib, Scraper, follow_links, base_url, enqueue_target}
use tobey.Collector.Fetching
use tobey.Collector.Callbacks.{
  Callback, Element, Callbacks, first_at, remove_at, detach, on_response, on_html, on_html_detach,
  call_all, handle_on_response,
}
use tobey.Collector.Callbacks.Handlers.{
  DocLib, new_base, call_each, call_found, handle_on_html, follow_link, new_collector,
  enqueue_found,
}

abbrev pub NotNamed {ℓ} : {F : Type ℓ} → String → List (String × F) → Type 0
NotNamed selector cs = All (λ c. (c.0 == selector) ≡ false) cs

some_or_none {ℓ} : {A : Type ℓ} (m : Option A) → elim m [ none ↦ none | some b ↦ some b ] ≡ m
some_or_none none = refl
some_or_none (some b) = refl

-- The world that a handler leaves behind.
abbrev pub world_of : {W : Type 0} → W × Option Url × Bool → Option W
world_of (w, base, ok) = some w

rejoined :
    {W : Type 0} (b : Option Url) (m : Option W)
    → (((m >>= λ w1. some w1) >>= λ w1. some (w1, b, true)) >>= world_of) ≡ m
rejoined b none = refl
rejoined b (some w) = refl

bind-some : {W : Type 0} (m : Option W) → (m >>= some) ≡ m
bind-some none = refl
bind-some (some w) = refl

first_at_here {ℓ} :
    {F : Type ℓ} (selector : String) (f : F) (before after : List (String × F))
    → NotNamed selector before
    → first_at selector (before ++ (selector, f) ∷ after) ≡ some (length before)
unfolding first_at
first_at_here selector f [] after h = rw (eq_refl selector)
first_at_here selector f ((s, g) ∷ before) after (other, h) =
    rw (other, first_at_here selector f before after h)

remove_at-length {ℓ} :
    {F : Type ℓ} (f : F) (before after : List F)
    → remove_at (length before) (before ++ f ∷ after) ≡ before ++ after
unfolding remove_at
remove_at-length f [] after = refl
remove_at-length f (g ∷ before) after = ap (λ cs. g ∷ cs) (remove_at-length f before after)

detach_first {ℓ} :
    {F : Type ℓ} (selector : String) (f : F) (before after : List (String × F))
    → NotNamed selector before
    → detach selector (before ++ (selector, f) ∷ after) ≡ before ++ after
unfolding detach
detach_first selector f before after h =
    rw (first_at_here selector f before after h, detach)
      (remove_at-length (selector, f) before after)

pub call_all-snoc :
    {W A : Type 0} (fs : List (Callback W A)) (f : Callback W A) (a : A) (w : W)
    → call_all (fs ++ f ∷ []) a w ≡ (call_all fs a w >>= f a)
unfolding call_all
call_all-snoc [] f a w = bind-some (f a w)
call_all-snoc (g ∷ fs) f a w =
    >>=-cong (g a w) _ _ (λ v. call_all-snoc fs f a v)
    ∙ sym (>>=-assoc (g a w) (call_all fs a) (f a))

module _ {W Q : Type 0} where
  -- OnHTMLDetach removes one callback, the first that was registered with the selector, and leaves the
  -- others in their order.
  pub on_html_detach_first :
      (selector : String) (f : Callback W Element)
      (before after : List (String × Callback W Element)) (c : Callbacks W Q)
      → NotNamed selector before
      → on_html_detach selector (record c { html = before ++ (selector, f) ∷ after })
        ≡ record c { html = before ++ after }
  unfolding on_html_detach
  on_html_detach_first selector f before after c h =
      ap (λ cs. record c { html = cs }) (detach_first selector f before after h)

  -- A callback that was registered under a selector that no other has is gone after OnHTMLDetach, and
  -- the collector's callbacks are what they were.
  pub on_html_detach-on_html :
      (selector : String) (f : Callback W Element) (c : Callbacks W Q)
      → NotNamed selector c.html
      → on_html_detach selector (on_html selector f c) ≡ c
  unfolding on_html
  on_html_detach-on_html selector f c h =
      on_html_detach_first selector f c.html [] c h
      ∙ ap (λ cs. record c { html = cs }) (append-nil c.html)

  -- A callback that is registered for responses runs behind those that were registered before it, and
  -- not at all if one of them panics.
  pub handle_on_response-on_response :
      (f : Callback W Response) (c : Callbacks W Q) (r : Response) (w : W)
      → handle_on_response (on_response f c) r w ≡ (handle_on_response c r w >>= f r)
  unfolding handle_on_response on_response
  handle_on_response-on_response f c r w = call_all-snoc c.response f r w

module _ (urls : UrlLib) (x : CollectorLib) (d : DocLib) (y : FetchLib) {W : Type 0}
    (s : Scraper urls x y W) where
  abbrev hrefs : List (String → String) → List String
  hrefs ns = map (λ n. n "href") ns

  -- How a page is read, for the callbacks of NewCollector.
  abbrev pub ReadsPage : Type 0
  ReadsPage =
      (body : String)
      → y.read_page body
        ≡ (do doc ← d.read_html body; some (d.base_href doc, hrefs (d.find doc "a[href]")))

  same_target :
      (t : Option String) (w : W)
      → enqueue_found urls x d s.enqueue t w ≡ enqueue_target urls x y s t w
  same_target none w = refl
  same_target (some u) w = refl

  follows :
      (i : ℕ) (url : Url) (base : Option Url) (ns : List (String → String)) (w : W)
      → call_each urls x d (follow_link urls x d s.enqueue) url base i ns w
        ≡ follow_links urls x y s url base (hrefs ns) w
  unfolding call_each follow_link follow_links
  follows i url base [] w = refl
  follows i url base (n ∷ ns) w =
      ap (λ m. m >>= λ v. call_each urls x d (follow_link urls x d s.enqueue) url base (suc i) ns v)
        (same_target (link_target urls x url base (n "href")) w)
      ∙ >>=-cong (enqueue_target urls x y s (link_target urls x url base (n "href")) w) _ _
          (λ v. follows (suc i) url base ns v)

  new_base-none :
      (url : Url) (href : Option String)
      → new_base urls x d url href none ≡ base_url urls x y s url href
  unfolding new_base
  new_base-none url none = refl
  new_base-none url (some href) =
      some_or_none (do abs ← x.parse_ref (urls.render url) href; urls.parse abs)

  -- The links of a document, and the world behind them.
  found :
      (doc : d.Doc) (url : Url) (w : W)
      → ((call_found urls x d
              (d.find doc)
              (("a[href]", follow_link urls x d s.enqueue) ∷ [])
              url
              (new_base urls x d url (d.base_href doc) none)
              w
            >>= λ w1. some (w1, new_base urls x d url (d.base_href doc) none, true))
          >>= world_of)
        ≡ follow_links urls x y s url
            (base_url urls x y s url (d.base_href doc))
            (hrefs (d.find doc "a[href]"))
            w
  unfolding call_found
  found doc url w =
      rw
        (
          new_base-none url (d.base_href doc),
          follows 0 url (base_url urls x y s url (d.base_href doc)) (d.find doc "a[href]") w,
        )
        (rejoined _ (
          follow_links urls x y s url (base_url urls x y s url (d.base_href doc))
            (hrefs (d.find doc "a[href]")) w))

  -- With the callbacks that NewCollector registers, handleOnHTML is the following of links: on a page
  -- whose request has no base URL yet, both come to the same world.
  pub handle_on_html-follow_links :
      (Q : Type 0) (collect : Response → W → W) (url : Url) (res : Response) (w : W)
      → ReadsPage
      → ((t : String) → y.to_lower t ≡ d.to_lower t)
      → (handle_on_html urls x d (new_collector urls x d {Q = Q} s.enqueue collect) url none res w
          >>= world_of)
        ≡ Fetching.handle_on_html urls x y s url res w
  unfolding handle_on_html new_collector Fetching.handle_on_html
  handle_on_html-follow_links Q collect url res w page lower =
      rw (lower (get "Content-Type" res.headers), page res.body)
        (elim (Bool-cases (contains (d.to_lower (get "Content-Type" res.headers)) "html")) [
          | inl page ↦ elim (Option-cases (d.read_html res.body)) [
            | inl bad ↦ rw (page, bad, handle_on_html) refl
            | inr (doc, read) ↦ rw (page, read, handle_on_html) (found doc url w)
          ]
          | inr other ↦ rw (other, handle_on_html) refl
        ])
