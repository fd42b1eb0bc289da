-- ===== src/Xml.antt =====
-- src/xml/ObjectXML.cc and include/ObjectXML.h: values and nodes by XPath. The library behind it
-- (libxml2) is a parameter.
pub mod VmObject
pub mod Memory
pub mod Sample
use one_fass.Base.{
  ℕ, ◌^◌, ℤ, pos, negsuc, Bool, true, false, Option, none, some, List, [], ◌∷◌, ◌++◌, if◌then◌else◌,
}
use one_fass.Text.{Text}
use one_fass.Text.Reading.{read_int}
use one_fass.Outcome.{Outcome, done, throws, faults, ◌>>=◌, or_throw}

-- What `xmlXPathEvalExpression` returns. A node set may be a null pointer.
pub data XPathObject (Node : Type 0) : Type 0 where
  number : Text → XPathObject Node
  nodeset : Option (List (Option Node)) → XPathObject Node
  other : XPathObject Node

pub record LibXml : Type 1 where
  pub Doc : Type 0
  pub Node : Type 0
  -- `none` is a null pointer
  pub read_memory : Text → Option Doc
  pub eval : Doc → Text → Option (XPathObject Node)
  pub is_element : Node → Bool
  pub content : Node → Option Text
  pub copy : Node → Option Node
  -- a document whose root is a copy of the node
  pub document : Node → Option Doc
  -- the node has a child, and that child a sibling
  pub has_children : Node → Bool
  pub dump : Doc → Text
  -- what a stream reads as a `float`
  pub read_float : {F : Type 0} → (ℤ → F) → Text → Option F

module _ (x : LibXml) where
  open x use {Doc, Node, eval, is_element, content, copy}

  -- The loop of `get_nodes`: copies of the elements.
  copy_elements : List (Option Node) → List Node
  copy_elements [] = []
  copy_elements (none ∷ ns) = copy_elements ns
  copy_elements (some n ∷ ns) = keep (copy n) (copy_elements ns)
    where
      keep : Option Node → List Node → List Node
      keep none rest = rest
      keep (some c) rest = if is_element c then c ∷ rest else rest

  unfoldable pub get_nodes : Doc → Text → List Node
  unfolding copy_elements
  get_nodes doc expr = elim (eval doc expr) [
    | none ↦ []
    | some (number t) ↦ []
    | some (nodeset none) ↦ []
    | some (nodeset (some ns)) ↦ copy_elements ns
    | some other ↦ []
  ]

  contents : List (Option Node) → List Text
  contents [] = []
  contents (none ∷ ns) = contents ns
  contents (some n ∷ ns) = keep (is_element n) (content n) (contents ns)
    where
      keep : Bool → Option Text → List Text → List Text
      keep true (some t) rest = t ∷ rest
      keep _ _ rest = rest

  -- `xpaths` reads the node set without a test for null.
  pub xpaths : Doc → Text → Outcome (List Text)
  unfolding contents
  xpaths doc expr = elim (eval doc expr) [
    | none ↦ done []
    | some (number t) ↦ done (t ∷ [])
    | some (nodeset none) ↦ faults
    | some (nodeset (some ns)) ↦ done (contents ns)
    | some other ↦ done []
  ]

  first_value {ℓ} : {A : Type ℓ} → (Text → Option A) → A → List Text → A × ℤ
  first_value read def [] = (def, negsuc 0)
  first_value read def (v ∷ vs) = elim (read v) [ none ↦ (def, negsuc 0) | some a ↦ (a, pos 0) ]

  -- `xpath<T>`: the value of the first element, or the default and -1.
  unfoldable pub xpath {ℓ} : {A : Type ℓ} → (Text → Option A) → Doc → Text → A → Outcome (A × ℤ)
  unfolding xpaths first_value
  xpath read doc expr def = do values ← xpaths doc expr; done (first_value read def values)

  -- The overload for a `string` takes the value as it is.
  unfoldable pub xpath_string : Doc → Text → Text → Outcome (Text × ℤ)
  unfolding xpaths first_value
  xpath_string doc expr def = do values ← xpaths doc expr; done (first_value some def values)

  -- What a stream cannot read is left out.
  readable {ℓ} : {A : Type ℓ} → (Text → Option A) → List Text → List A
  readable read [] = []
  readable read (t ∷ ts) =
      let rest = readable read ts in elim (read t) [ none ↦ rest | some a ↦ a ∷ rest ]

  -- The template for other types than `string`, with the conversion of a number.
  unfoldable pub xpaths_as :
      {A : Type 0} → (Text → A) → (Text → Option A) → Doc → Text → Outcome (List A)
  unfolding contents readable
  xpaths_as cast read doc expr = elim (eval doc expr) [
    | none ↦ done []
    | some (number t) ↦ done (cast t ∷ [])
    | some (nodeset none) ↦ faults
    | some (nodeset (some ns)) ↦ done (readable read (contents ns))
    | some other ↦ done []
  ]

-- `int` and `int64_t`
abbrev pub read_int32 : Text → Option ℤ
read_int32 = read_int (2 ^ 31)

abbrev pub read_int64 : Text → Option ℤ
read_int64 = read_int (2 ^ 63)
