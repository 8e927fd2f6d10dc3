-- ===== src/Json.antt =====
-- JSON values as rapidjson keeps them: an object is the list of its members in their order.
-- rapidjson itself is not part of the repository; these are the accesses that its users make.
use gradido_blockchain_conne.Base.{
  ℕ, String, Bool, Option, none, some, List, [], ◌∷◌, str_eq, if◌then◌else◌,
}

mutual
  pub data Json : Type 0 where
    null : Json
    bool : Bool → Json
    num : ℕ → Json
    str : String → Json
    arr : Items → Json
    obj : Fields → Json

  pub data Items : Type 0 where
    nil : Items
    cons : Json → Items → Items

  pub data Fields : Type 0 where
    end : Fields
    field : String → Json → Fields → Fields

-- FindMember: the first member of that name.
unfoldable pub find_field : String → Fields → Option Json
find_field name end = none
find_field name (field key value rest) =
    let later = find_field name rest in if str_eq key name then some value else later

-- The member of that name, where the value is an object.
abbrev pub find_member : String → Json → Option Json
find_member name (obj fields) = find_field name fields
find_member name j = none

-- AddMember, and the value of a member that is found written in place.
unfoldable pub add_member : String → Json → Fields → Fields
add_member name value end = field name value end
add_member name value (field key old rest) = field key old (add_member name value rest)

unfoldable pub set_member : String → Json → Fields → Fields
set_member name value end = end
set_member name value (field key old rest) =
    let later = set_member name value rest in
    if str_eq key name then field key value rest else field key old later

abbrev pub items : Items → List Json
items nil = []
items (cons value rest) = value ∷ items rest

-- An array of values.
abbrev pub array_items : List Json → Items
array_items [] = nil
array_items (value ∷ values) = cons value (array_items values)

abbrev pub array : List Json → Json
array values = arr (array_items values)
