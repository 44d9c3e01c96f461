-- ===== src/Collector/Callbacks.antt =====
-- callbacks.go: the callbacks of a collector, their registration and removal, and the functions that
-- run them one after another. A callback changes a world, and `none` is its panic.
pub mod Handlers
pub mod Laws
use tobey.Common.{
  ℕ, String, zero, suc, ◌+◌, List, [], ◌∷◌, ◌++◌, Bool, true, false, not, ◌&&◌, ◌||◌, Option, none,
  some, ◌>>=◌, if◌then◌else◌, ◌==◌, string_eq,
}
use tobey.Failure.{Error}
use tobey.Url.{Url}
use tobey.Visitor.{Response}

abbrev pub Callback : Type 0 → Type 0 → Type 0
Callback W A = A → W → Option W

-- An element for a callback: its attributes, its place among the selected ones, and the request's
-- URL and base URL.
pub record Element : Type 0 where
  pub attr : String → String
  pub index : ℕ
  pub url : Url
  pub base_url : Option Url

-- The callback fields of a collector. A container is a selector and a function; what a request
-- callback gets is a Q.
pub record Callbacks (W Q : Type 0) : Type 0 where
  pub html : List (String × Callback W Element)
  pub xml : List (String × Callback W Element)
  pub request : List (Callback W Q)
  pub response_headers : List (Callback W Response)
  pub response : List (Callback W Response)
  pub error : List (Callback W (Response × Error))
  pub scraped : List (Callback W Response)

abbrev pub no_callbacks : {W Q : Type 0} → Callbacks W Q
no_callbacks = record {
  html = [];
  xml = [];
  request = [];
  response_headers = [];
  response = [];
  error = [];
  scraped = [];
}

-- The index that the loop of a Detach finds.
unfoldable pub first_at {ℓ} : {F : Type ℓ} → String → List (String × F) → Option ℕ
first_at selector [] = none
first_at selector ((s, f) ∷ cs) =
    let rest = first_at selector cs in if s == selector then some 0 else (do i ← rest; some (suc i))

-- append(cs[:i], cs[i+1:]...)
unfoldable pub remove_at {ℓ} : {F : Type ℓ} → ℕ → List F → List F
remove_at i [] = []
remove_at zero (c ∷ cs) = cs
remove_at (suc i) (c ∷ cs) = c ∷ remove_at i cs

unfoldable pub detach {ℓ} : {F : Type ℓ} → String → List (String × F) → List (String × F)
unfolding first_at remove_at
detach selector cs = elim (first_at selector cs) [ none ↦ cs | some i ↦ remove_at i cs ]

-- The loop of each handler.
unfoldable pub call_all : {W A : Type 0} → List (Callback W A) → A → W → Option W
call_all [] a w = some w
call_all (f ∷ fs) a w = do w1 ← f a w; call_all fs a w1

module _ {W Q : Type 0} where
  unfoldable pub on_request : Callback W Q → Callbacks W Q → Callbacks W Q
  on_request f c = record c { request = c.request ++ f ∷ [] }

  unfoldable pub on_response_headers : Callback W Response → Callbacks W Q → Callbacks W Q
  on_response_headers f c = record c { response_headers = c.response_headers ++ f ∷ [] }

  unfoldable pub on_response : Callback W Response → Callbacks W Q → Callbacks W Q
  on_response f c = record c { response = c.response ++ f ∷ [] }

  unfoldable pub on_html : String → Callback W Element → Callbacks W Q → Callbacks W Q
  on_html selector f c = record c { html = c.html ++ (selector, f) ∷ [] }

  unfoldable pub on_xml : String → Callback W Element → Callbacks W Q → Callbacks W Q
  on_xml query f c = record c { xml = c.xml ++ (query, f) ∷ [] }

  unfoldable pub on_html_detach : String → Callbacks W Q → Callbacks W Q
  unfolding detach
  on_html_detach selector c = record c { html = detach selector c.html }

  unfoldable pub on_xml_detach : String → Callbacks W Q → Callbacks W Q
  unfolding detach
  on_xml_detach query c = record c { xml = detach query c.xml }

  unfoldable pub on_error : Callback W (Response × Error) → Callbacks W Q → Callbacks W Q
  on_error f c = record c { error = c.error ++ f ∷ [] }

  unfoldable pub on_scraped : Callback W Response → Callbacks W Q → Callbacks W Q
  on_scraped f c = record c { scraped = c.scraped ++ f ∷ [] }

  unfoldable pub handle_on_request : Callbacks W Q → Q → W → Option W
  unfolding call_all
  handle_on_request c r w = call_all c.request r w

  unfoldable pub handle_on_response : Callbacks W Q → Response → W → Option W
  unfolding call_all
  handle_on_response c r w = call_all c.response r w

  unfoldable pub handle_on_response_headers : Callbacks W Q → Response → W → Option W
  unfolding call_all
  handle_on_response_headers c r w = call_all c.response_headers r w

  unfoldable pub handle_on_scraped : Callbacks W Q → Response → W → Option W
  unfolding call_all
  handle_on_scraped c r w = call_all c.scraped r w
