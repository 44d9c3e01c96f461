-- ===== src/Collector/Elements/Xml.antt =====
-- xmlelement.go: elements of an HTML document or of an XML document, and their accessors, each
-- with a branch for either. `h` is the tree of htmlquery and `m` that of xmlquery.
use tobey.Common.{
  String, List, [], ◌∷◌, ◌++◌, map, Option, none, some, ◌>>=◌, ◌≡◌, refl, if◌then◌else◌, ◌==◌,
  string_eq,
}
use tobey.Collector.Elements.{TreeLib, value_at, or_empty, first}

-- All values under a key.
abbrev values_at : String → List (String × String) → List String
values_at k [] = []
values_at k ((key, val) ∷ attrs) =
    let rest = values_at k attrs in if key == k then val ∷ rest else rest

module _ (h m : TreeLib) where
  -- DOM, with isHTML
  pub data Dom : Type 0 where
    html_node : h.Node → Dom
    xml_node : m.Node → Dom

  pub record XmlElement : Type 0 where
    pub name : String
    pub text : String
    pub attributes : List (String × String)
    pub dom : Dom

  -- NewXMLElementFromHTMLNode
  unfoldable pub from_html_node : h.Node → XmlElement
  from_html_node n = record {
    name = h.name n;
    text = h.text n;
    attributes = h.attributes n;
    dom = html_node n;
  }

  -- NewXMLElementFromXMLNode
  unfoldable pub from_xml_node : m.Node → XmlElement
  from_xml_node n = record {
    name = m.name n;
    text = m.text n;
    attributes = m.attributes n;
    dom = xml_node n;
  }

  -- Attr: a key of HTML and a local name of XML are found alike.
  unfoldable pub attr : XmlElement → String → String
  attr e k = or_empty (value_at k e.attributes)

  abbrev text_of : (t : TreeLib) → Option t.Node → String
  text_of t none = ""
  text_of t (some n) = t.trim_space (t.text n)

  abbrev child_text_in : Dom → String → String
  child_text_in (html_node n) query = text_of h (first (h.find n query))
  child_text_in (xml_node n) query = text_of m (first (m.find n query))

  -- ChildText
  unfoldable pub child_text : XmlElement → String → String
  child_text e query = child_text_in e.dom query

  abbrev attr_of : (t : TreeLib) → String → Option t.Node → String
  attr_of t k none = ""
  attr_of t k (some n) = or_empty (do v ← value_at k (t.attributes n); some (t.trim_space v))

  abbrev child_attr_in : Dom → String → String → String
  child_attr_in (html_node n) query k = attr_of h k (first (h.find n query))
  child_attr_in (xml_node n) query k = attr_of m k (first (m.find n query))

  -- ChildAttr
  unfoldable pub child_attr : XmlElement → String → String → String
  child_attr e query k = child_attr_in e.dom query k

  attrs_of : (t : TreeLib) → String → List t.Node → List String
  attrs_of t k [] = []
  attrs_of t k (n ∷ ns) = map t.trim_space (values_at k (t.attributes n)) ++ attrs_of t k ns

  child_attrs_in : Dom → String → String → List String
  unfolding attrs_of
  child_attrs_in (html_node n) query k = attrs_of h k (h.find n query)
  child_attrs_in (xml_node n) query k = attrs_of m k (m.find n query)

  -- ChildAttrs: every such attribute of each match
  unfoldable pub child_attrs : XmlElement → String → String → List String
  unfolding child_attrs_in
  child_attrs e query k = child_attrs_in e.dom query k

  abbrev child_texts_in : Dom → String → List String
  child_texts_in (html_node n) query = map (λ c. h.trim_space (h.text c)) (h.find n query)
  child_texts_in (xml_node n) query = map (λ c. m.trim_space (m.text c)) (m.find n query)

  -- ChildTexts
  unfoldable pub child_texts : XmlElement → String → List String
  child_texts e query = child_texts_in e.dom query

  first_text :
      (t : TreeLib) (ns : List t.Node)
      → text_of t (first ns) ≡ or_empty (first (map (λ c. t.trim_space (t.text c)) ns))
  first_text t [] = refl
  first_text t (n ∷ ns) = refl

  first_text_in :
      (dom : Dom) (query : String)
      → child_text_in dom query ≡ or_empty (first (child_texts_in dom query))
  first_text_in (html_node n) query = first_text h (h.find n query)
  first_text_in (xml_node n) query = first_text m (m.find n query)

  -- In either document, the text of the first match is the first of the texts of all matches, or
  -- empty where nothing matches.
  pub child_text-child_texts :
      (e : XmlElement) (query : String)
      → child_text e query ≡ or_empty (first (child_texts e query))
  unfolding child_text child_texts
  child_text-child_texts e query = first_text_in e.dom query
