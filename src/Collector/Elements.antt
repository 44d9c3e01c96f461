-- ===== src/Collector/Elements.antt =====
-- htmlelement.go: the accessors of the elements that callbacks get. The tree and the selectors of
-- goquery are parameters.
pub mod Xml
use tobey.Common.{
  ℕ, String, suc, List, [], ◌∷◌, ◌++◌, map, Bool, true, false, Option, none, some, ◌>>=◌,
  if◌then◌else◌, ◌==◌, string_eq, ◌≡◌, refl, ◌∙◌, >>=-cong, >>=-assoc,
}
use tobey.Common.Text.{◌<>◌}

-- A tree: a node's name and attributes, its text, and the nodes below it that a selector or a query
-- finds, in the order of the document.
pub record TreeLib : Type 1 where
  pub Node : Type 0
  -- Data, and goquery's Text or InnerText
  pub name : Node → String
  pub text : Node → String
  pub attributes : Node → List (String × String)
  pub find : Node → String → List Node
  -- strings.TrimSpace
  pub trim_space : String → String

-- The first value under a key.
abbrev pub value_at : String → List (String × String) → Option String
value_at k [] = none
value_at k ((key, val) ∷ attrs) = if key == k then some val else value_at k attrs

abbrev pub or_empty : Option String → String
or_empty none = ""
or_empty (some s) = s

abbrev pub first : {A : Type 0} → List A → Option A
first [] = none
first (a ∷ rest) = some a

module _ (t : TreeLib) where
  open t use {Node}

  -- HTMLElement, without the response that it belongs to
  pub record Element : Type 0 where
    pub name : String
    pub text : String
    pub attributes : List (String × String)
    pub dom : Node
    pub index : ℕ

  -- NewHTMLElementFromSelectionNode
  unfoldable pub new_html_element : Node → ℕ → Element
  new_html_element n index = record {
    name = t.name n;
    text = t.text n;
    attributes = t.attributes n;
    dom = n;
    index = index;
  }

  -- Attr
  unfoldable pub attr : Element → String → String
  attr h k = or_empty (value_at k h.attributes)

  -- The text of a selection.
  all_text : List Node → String
  all_text [] = ""
  all_text (n ∷ ns) = t.text n <> all_text ns

  -- ChildText, of all the matching elements
  unfoldable pub html_child_text : Element → String → String
  unfolding all_text
  html_child_text h selector = t.trim_space (all_text (t.find h.dom selector))

  -- ChildTexts
  unfoldable pub child_texts : Element → String → List String
  child_texts h selector = map (λ n. t.trim_space (t.text n)) (t.find h.dom selector)

  -- ChildAttr: the attribute of the first match.
  unfoldable pub child_attr : Element → String → String → String
  child_attr h selector k =
      or_empty (do
        n ← first (t.find h.dom selector)
        v ← value_at k (t.attributes n)
        some (t.trim_space v))

  html_attrs : String → List Node → List String
  html_attrs k [] = []
  html_attrs k (n ∷ ns) =
      let rest = html_attrs k ns in
      elim (value_at k (t.attributes n)) [ none ↦ rest | some v ↦ t.trim_space v ∷ rest ]

  -- ChildAttrs: the first such attribute of each match
  unfoldable pub html_child_attrs : Element → String → String → List String
  unfolding html_attrs
  html_child_attrs h selector k = html_attrs k (t.find h.dom selector)

  go_on : {W : Type 0} → W × Bool → (W → Option W) → Option W
  go_on (w, true) rest = rest w
  go_on (w, false) rest = some w

  module _ {W : Type 0} where
    -- Each selection that goquery's Each visits is of one node.
    each_from : (ℕ → Element → W → Option W) → ℕ → List Node → W → Option W
    each_from callback i [] w = some w
    each_from callback i (n ∷ ns) w = do
      w1 ← callback i (new_html_element n i) w
      each_from callback (suc i) ns w1

    -- ForEach
    unfoldable pub for_each : Element → String → (ℕ → Element → W → Option W) → W → Option W
    unfolding each_from
    for_each h selector callback w = each_from callback 0 (t.find h.dom selector) w

    each_while : (ℕ → Element → W → Option (W × Bool)) → ℕ → List Node → W → Option W
    unfolding go_on
    each_while callback i [] w = some w
    each_while callback i (n ∷ ns) w = do
      r ← callback i (new_html_element n i) w
      go_on r λ w1. each_while callback (suc i) ns w1

    -- ForEachWithBreak
    unfoldable pub for_each_with_break :
        Element → String → (ℕ → Element → W → Option (W × Bool)) → W → Option W
    unfolding each_while
    for_each_with_break h selector callback w = each_while callback 0 (t.find h.dom selector) w

    never_broken :
        (callback : ℕ → Element → W → Option W) (i : ℕ) (ns : List Node) (w : W)
        → each_while (λ j e v. do w1 ← callback j e v; some (w1, true)) i ns w
          ≡ each_from callback i ns w
    unfolding each_while each_from go_on
    never_broken callback i [] w = refl
    never_broken callback i (n ∷ ns) w =
        >>=-assoc (callback i (new_html_element n i) w) _ _
        ∙ >>=-cong (callback i (new_html_element n i) w) _ _
            (λ w1. never_broken callback (suc i) ns w1)

    -- A loop with a break whose callback never asks for one visits the same elements, with the same
    -- numbers, as the loop without.
    pub for_each_with_break-for_each :
        (h : Element) (selector : String) (callback : ℕ → Element → W → Option W) (w : W)
        → for_each_with_break h selector (λ j e v. do w1 ← callback j e v; some (w1, true)) w
          ≡ for_each h selector callback w
    unfolding for_each_with_break for_each
    for_each_with_break-for_each h selector callback w =
        never_broken callback 0 (t.find h.dom selector) w
