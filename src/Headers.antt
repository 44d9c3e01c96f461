-- ===== src/Headers.antt =====
-- Go's http.Header: a map from canonical names to lists of values. The names below are written in
-- their canonical form, to which Get, Set and Add bring theirs.
use tobey.Common.{String, ◌++◌, List, [], ◌∷◌, none, some, string_eq}
use tobey.Common.Dict.{lookup, insert}

abbrev pub Header : Type 0
Header = List (String × List String)

abbrev first : List String → String
first [] = ""
first (v ∷ _) = v

-- The first value, or the empty text.
unfoldable pub get : String → Header → String
unfolding lookup
get name h = elim (lookup name h) [ none ↦ "" | some vs ↦ first vs ]

unfoldable pub set : String → String → Header → Header
unfolding insert
set name value h = insert name (value ∷ []) h

unfoldable pub add : String → String → Header → Header
unfolding insert lookup
add name value h = elim (lookup name h) [
  | none ↦ insert name (value ∷ []) h
  | some vs ↦ insert name (vs ++ value ∷ []) h
]
