-- ===== src/Sitemaps/Drain.antt =====
-- Drain of sitemap.go: the fetching of a sitemap, and of the sitemaps that an index names. The client
-- and the parser of oxffaa/gopher-parse-sitemap are parameters; Drain's goroutine is what `drain` does.
pub mod Ends
pub mod Keeps
use tobey.Common.{
  ℕ, zero, suc, ◌+◌, ◌≤◌, ◌<◌, String, List, [], ◌∷◌, Bool, true, false, Option, none, some, ◌>>=◌,
  if◌then◌else◌, ◌==◌, nat_eq, ◌⊎◌, ap, sym, ◌∙◌, >>=-eq-some, ◌≡◌, refl, arith, All, Returns,
  Returns-bind, Bool-cases, Option-cases, inl, inr, is_some,
}
use tobey.Failure.{Error}
use tobey.System.Enqueue.{is_probably_sitemap, is_probably_siteindex}

-- What a parser hands to its consumer, one location after another, and what it ends with if the
-- consumer never fails.
abbrev pub Parsed : Type 0
Parsed = List String × Option Error

pub record DrainLib (W : Type 0) : Type 0 where
  -- ctx.Done() is closed.
  pub cancelled : W → Bool
  -- http.NewRequestWithContext and client.Do: an error, or a status and a body.
  pub fetch : String → W → W × (Error ⊎ (ℕ × String))
  pub parse : String → Parsed
  pub parse_index : String → Parsed
  -- The function that takes the URLs of the sitemaps; `none` is its panic.
  pub yieldu : String → W → Option (W × Option Error)

abbrev pub go_on {ℓ} :
    {W : Type ℓ} → W × Option Error → (W → Option (W × Option Error)) → Option (W × Option Error)
go_on (w, some err) rest = some (w, some err)
go_on (w, none) rest = rest w

-- A parser's loop over its entries: the consumer's error ends it.
unfoldable pub each {ℓ} :
    {W : Type ℓ}
    → (String → W → Option (W × Option Error))
    → List String
    → Option Error
    → W
    → Option (W × Option Error)
each consume [] end w = some (w, end)
each consume (loc ∷ locs) end w = do r ← consume loc w; go_on r λ w1. each consume locs end w1

module _ {W : Type 0} (x : DrainLib W) where
  -- `resolve` of Drain behind the request; `again` is the function itself.
  unfoldable pub resolve_answer :
      (String → W → Option (W × Option Error))
      → String
      → W × (Error ⊎ (ℕ × String))
      → Option (W × Option Error)
  unfolding each is_probably_sitemap is_probably_siteindex
  resolve_answer again url (w, inl err) = some (w, some err)
  resolve_answer again url (w, inr (status, body)) =
      if status == 404
      then some (w, none)
      else if is_probably_sitemap url
      then each x.yieldu (x.parse body).0 (x.parse body).1 w
      else if is_probably_siteindex url
      then each again (x.parse_index body).0 (x.parse_index body).1 w
      else some (w, none)

  -- `resolve`, to a depth; `none` where an index is nested deeper, and where `yieldu` panics.
  unfoldable pub resolve : ℕ → String → W → Option (W × Option Error)
  unfolding resolve_answer
  resolve zero url w = none
  resolve (suc depth) url w =
      let answer = resolve_answer (resolve depth) url (x.fetch url w) in
      if x.cancelled w then some (w, none) else answer

  -- An error is logged only.
  unfoldable pub drain : ℕ → String → W → Option W
  unfolding resolve
  drain depth url w = do (w1, err) ← resolve depth url w; some w1
