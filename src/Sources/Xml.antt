-- ===== src/Sources/Xml.antt =====
-- What xml.etree.ElementTree keeps of a document: elements with a tag, attributes, a text and children, and
-- the searches that the feed parser makes in them.
use yasin_press_rewrite.Base.{
  String, List, [], ◌∷◌, ◌++◌, Option, none, some, Dict, lookup, first, ◌==◌, string_eq,
  if◌then◌else◌,
}

mutual
  pub data Element : Type 0 where
    element : String → Dict String String → Option String → Elements → Element

  pub data Elements : Type 0 where
    no_elements : Elements
    also : Element → Elements → Elements

unfoldable pub elements : List Element → Elements
elements [] = no_elements
elements (e ∷ es) = also e (elements es)

unfoldable pub to_list : Elements → List Element
to_list no_elements = []
to_list (also e es) = e ∷ to_list es

unfoldable pub tag : Element → String
tag (element t attributes text children) = t

unfoldable pub children : Element → List Element
unfolding to_list
children (element t attributes text es) = to_list es

-- `element.get(name)`
unfoldable pub attribute : String → Element → Option String
attribute name (element t attributes text es) = lookup name attributes

-- `element.text or ""`
unfoldable pub element_text : Element → String
element_text (element t attributes none es) = ""
element_text (element t attributes (some s) es) = s

-- `element.find(name)`: a child.
unfoldable pub find : String → Element → Option Element
unfolding tag children
find name e = first (λ c. tag c == name) (children e)

-- `element.findtext(name)`, which is "" for a child without a text.
unfoldable pub findtext : String → Element → Option String
unfolding find element_text
findtext name e = elim (find name e) [ none ↦ none | some c ↦ some (element_text c) ]

-- `element.findall(".//" + name)`: the elements below it in the order of the document.
unfoldable mutual
  pub findall : String → Element → List Element
  findall name (element t attributes text es) = find_among name es

  pub find_among : String → Elements → List Element
  find_among name no_elements = []
  find_among name (also (element t attributes text es) more) =
      let below = find_among name es in
      let others = find_among name more in
      (if t == name then element t attributes text es ∷ below else below) ++ others

-- `element.find(".//" + name)`
unfoldable pub find_below : String → Element → Option Element
unfolding findall
find_below name e = elim (findall name e) [ [] ↦ none | c ∷ cs ↦ some c ]
