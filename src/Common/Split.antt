-- ===== src/Common/Split.antt =====
-- strings.Split at a separator of one character, and strings.Join.
use Prim.Native.Char.{Char, code}
use Prim.Native.String.{String}
use mathlib.Core.Path.{◌≡◌, refl, ap, ◌∙◌}
use mathlib.Core.Bool.{Bool, true, false}
use mathlib.Core.List.{List, [], ◌∷◌}
use text.Mathlib.TextLemmas.{nil-append, cons-append}
use tobey.Common.Classes.{nat_eq, string_eq}
use tobey.Common.Lists.{All}
use mathlib.Core.Logic.{inl, inr}
use tobey.Common.Tests.{if◌then◌else◌, Bool-cases}
use tobey.Common.Dict.{==_refl}
use tobey.Common.Text.{◌<>◌, char_eq}

abbrev onto : Char → List String → List String
onto c [] = []
onto c (s ∷ ss) = String.◌∷◌ c s ∷ ss

unfoldable pub split : Char → String → List String
split sep String.[] = "" ∷ []
split sep (String.◌∷◌ c s) =
    let rest = split sep s in if char_eq c sep then "" ∷ rest else onto c rest

unfoldable pub join : Char → List String → String
join sep [] = ""
join sep (s ∷ []) = s
join sep (s ∷ t ∷ ss) = s <> String.◌∷◌ sep (join sep (t ∷ ss))

unfoldable pub free_of : Char → String → Bool
free_of sep String.[] = true
free_of sep (String.◌∷◌ c s) = if char_eq c sep then false else free_of sep s

free_of-cons :
    (sep c : Char) (s : String)
    → free_of sep (String.◌∷◌ c s) ≡ true
    → (char_eq c sep ≡ false) × (free_of sep s ≡ true)
unfolding free_of
free_of-cons sep c s h = elim (Bool-cases (char_eq c sep)) [
  | inl same ↦ cc (rw same at h)
  | inr other ↦ (other, rw other at h)
]

split-free_of : (sep : Char) (s : String) → free_of sep s ≡ true → split sep s ≡ s ∷ []
unfolding split
split-free_of sep String.[] h = refl
split-free_of sep (String.◌∷◌ c s) h =
    let (other, rest) = free_of-cons sep c s h in rw (other, split-free_of sep s rest)

split-append :
    (sep : Char) (s t : String)
    → free_of sep s ≡ true
    → split sep (s <> String.◌∷◌ sep t) ≡ s ∷ split sep t
unfolding split
split-append sep String.[] t h = rw (nil-append (String.◌∷◌ sep t), split, ==_refl (code sep))
split-append sep (String.◌∷◌ c s) t h =
    let (other, rest) = free_of-cons sep c s h in
    rw (cons-append c s (String.◌∷◌ sep t), split, other, split-append sep s t rest)

-- Texts without the separator are split as they were joined.
pub split-join :
    (sep : Char) (s : String) (ss : List String)
    → All (λ u. free_of sep u ≡ true) (s ∷ ss)
    → split sep (join sep (s ∷ ss)) ≡ s ∷ ss
unfolding join
split-join sep s [] (h, hs) = split-free_of sep s h
split-join sep s (t ∷ ss) (h, hs) =
    split-append sep s (join sep (t ∷ ss)) h ∙ ap (λ r. s ∷ r) (split-join sep t ss hs)
