-- ===== src/Destinations/Registry.antt =====
-- publishing/registry.py. `clean` is `strip` and then `lower`; `at_most` is the order
-- of Python's strings.
use Prim.Native.String.{◌++◌}
use yasin_press_rewrite.Base.{
  String, Bool, List, [], ◌∷◌, Option, none, some, Dict, lookup, put, map, sort_by, ◌==◌, string_eq,
  if◌then◌else◌,
}
use yasin_press_rewrite.Models.{Publisher}

abbrev pub Registry : Type 0
Registry = Dict String Publisher

-- What register does: it stores the publisher, or raises a ValueError.
pub data Registered : Type 0 where
  refused : String → Registered
  registered : Registry → Registered

unfoldable pub register_publisher : (String → String) → Publisher → Registry → Registered
register_publisher clean p publishers =
    let name : String = clean p.name in
    if name == ""
    then refused "publisher name must not be empty"
    else elim (lookup name publishers) [
      | some old ↦ refused ("publisher already registered: " ++ name)
      | none ↦ registered (put name p publishers)
    ]

-- The constructor: the first ValueError leaves it.
unfoldable pub register_all : (String → String) → List Publisher → Registry → Registered
unfolding register_publisher
register_all clean [] publishers = registered publishers
register_all clean (p ∷ more) publishers = elim (register_publisher clean p publishers) [
  | refused error ↦ refused error
  | registered after ↦ register_all clean more after
]

-- get: `none` is the KeyError.
unfoldable pub registered_publisher : (String → String) → String → Registry → Option Publisher
registered_publisher clean name publishers = lookup (clean name) publishers

unfoldable pub registered_names : (String → String → Bool) → Registry → List String
registered_names at_most publishers =
    sort_by at_most (map (λ (e : String × Publisher). e.0) publishers)
