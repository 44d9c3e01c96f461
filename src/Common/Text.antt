-- ===== src/Common/Text.antt =====
-- Go's package strings, on the characters of a text.
use Prim.Native.Char.{Char, code}
use Prim.Native.String
use Prim.Native.String.{String}
use Prim.Native.Nat.{ℕ}
use mathlib.Core.Logic.{inl, inr}
use mathlib.Core.Path.{◌≡◌, refl, sym, ◌∙◌}
use mathlib.Core.Bool.{Bool, true, false, ◌||◌}
use mathlib.Core.Option.{Option, none, some}
use native.Mathlib.Omega.{arith}
use mathlib.Core.Option.{some-injective}
use text.Mathlib.TextEquality.{Char-path}
use text.Mathlib.TextLemmas.{nil-append, cons-append}
use tobey.Common.Classes.{◌==◌, nat_eq, string_eq}
use tobey.Common.Tests.{if◌then◌else◌, is_some, Bool-cases}

infixr 65 ◌<>◌
-- `a + b` on strings.
abbrev pub ◌<>◌ : String → String → String
a <> b = String.◌++◌ a b

abbrev pub char_eq : Char → Char → Bool
char_eq c d = code c == code d

code_eq : (n : ℕ) → (n == n) ≡ true
code_eq n = ground arith

char_eq-code : (c d : Char) → char_eq c d ≡ true → code c ≡ code d
char_eq-code c d h = ground (arith, h)

-- strings.CutPrefix: what is left behind the prefix.
unfoldable pub cut_prefix : String → String → Option String
cut_prefix s String.[] = some s
cut_prefix String.[] (String.◌∷◌ c p) = none
cut_prefix (String.◌∷◌ d s) (String.◌∷◌ c p) = if char_eq d c then cut_prefix s p else none

unfoldable pub has_prefix : String → String → Bool
unfolding cut_prefix
has_prefix s p = is_some (cut_prefix s p)

unfoldable pub trim_prefix : String → String → String
unfolding cut_prefix
trim_prefix s p = elim (cut_prefix s p) [ none ↦ s | some r ↦ r ]

unfoldable pub has_suffix : String → String → Bool
has_suffix String.[] t = "" == t
has_suffix (String.◌∷◌ c s) t = String.◌∷◌ c s == t || has_suffix s t

unfoldable pub contains : String → String → Bool
unfolding has_prefix
contains String.[] t = t == ""
contains (String.◌∷◌ c s) t = has_prefix (String.◌∷◌ c s) t || contains s t

abbrev pub in_cutset : Char → String → Bool
in_cutset c String.[] = false
in_cutset c (String.◌∷◌ d t) = elim (char_eq c d) [ true ↦ true | false ↦ in_cutset c t ]

-- strings.TrimLeft: drops the leading characters that the cutset holds, one by one.
unfoldable pub trim_left : String → String → String
trim_left String.[] cutset = ""
trim_left (String.◌∷◌ c s) cutset =
    if in_cutset c cutset then trim_left s cutset else String.◌∷◌ c s

-- What is cut off stood in front.
pub cut_prefix_sound : (s p r : String) → cut_prefix s p ≡ some r → s ≡ p <> r
unfolding cut_prefix
cut_prefix_sound s String.[] r e = some-injective _ _ e ∙ sym (nil-append r)
cut_prefix_sound String.[] (String.◌∷◌ c p) r e = cc e
cut_prefix_sound (String.◌∷◌ d s) (String.◌∷◌ c p) r e = elim (Bool-cases (char_eq d c)) [
  | inl same ↦
      rw
        (
          Char-path d c (char_eq-code d c same),
          cut_prefix_sound s p r (rw same at e),
          sym (cons-append c p r),
        )
        refl
  | inr other ↦ cc (rw other at e)
]

-- What was put in front is cut off again.
pub cut_prefix-append : (p s : String) → cut_prefix (p <> s) p ≡ some s
unfolding cut_prefix
cut_prefix-append String.[] s = rw (nil-append s)
cut_prefix-append (String.◌∷◌ c p) s =
    rw (cons-append c p s, cut_prefix-append p s, code_eq (code c))

pub has_prefix-append : (p s : String) → has_prefix (p <> s) p ≡ true
unfolding has_prefix
has_prefix-append p s = rw (cut_prefix-append p s)

pub trim_prefix-append : (p s : String) → trim_prefix (p <> s) p ≡ s
unfolding trim_prefix
trim_prefix-append p s = rw (cut_prefix-append p s, trim_prefix)

pub has_prefix_self : (s : String) → has_prefix s s ≡ true
unfolding has_prefix cut_prefix
has_prefix_self String.[] = refl
has_prefix_self (String.◌∷◌ c s) = rw (code_eq (code c)) (has_prefix_self s)

trims : trim_left "www.wiki.org" "www." ≡ "iki.org"
unfolding trim_left
trims = refl

cuts : trim_prefix "www.wiki.org" "www." ≡ "wiki.org"
unfolding trim_prefix
cuts = refl

ends : has_suffix "a/robots.txt" "robots.txt" ≡ true
unfolding has_suffix
ends = refl

inside : contains "text/html; x" "html" ≡ true
unfolding contains
inside = refl
