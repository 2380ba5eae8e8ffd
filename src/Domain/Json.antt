-- ===== src/Domain/Json.antt =====
-- The values that `JSON.parse` returns, which the readers of src/domain/dag.ts and steps.ts take as
-- `unknown`.
use pi_build_conductor.Prelude.{ℕ, String, Bool, List, [], ◌∷◌, Option, none, some, Dict, ◌≡◌, refl}

-- `num` is an integer from 0, and `other_num` any other number.
mutual
  pub data Json : Type 0 where
    null : Json
    bool : Bool → Json
    num : ℕ → Json
    other_num : Json
    str : String → Json
    arr : Items → Json
    obj : Fields → Json

  pub data Items : Type 0 where
    nil : Items
    cons : Json → Items → Items

  pub data Fields : Type 0 where
    end : Fields
    field : String → Json → Fields → Fields

abbrev pub items_of : Items → List Json
items_of nil = []
items_of (cons value items) = value ∷ items_of items

abbrev pub entries_of : Fields → Dict Json
entries_of end = []
entries_of (field name value fields) = (name, value) ∷ entries_of fields

abbrev pub to_items : List Json → Items
to_items [] = nil
to_items (value ∷ values) = cons value (to_items values)

pub items_of-to_items : (values : List Json) → items_of (to_items values) ≡ values
items_of-to_items [] = refl
items_of-to_items (value ∷ values) = rw (items_of-to_items values) refl

abbrev pub to_fields : Dict Json → Fields
to_fields [] = end
to_fields ((name, value) ∷ entries) = field name value (to_fields entries)

-- `Array.isArray(value)`, with its elements.
abbrev pub as_array : Option Json → Option (List Json)
as_array (some (arr items)) = some (items_of items)
as_array _ = none

-- `isRecord(value)`, with its fields; a field that is not there is `undefined`.
abbrev pub as_record : Option Json → Option (Dict Json)
as_record (some (obj fields)) = some (entries_of fields)
as_record _ = none

-- `typeof value === "string"`, with the text.
abbrev pub as_text : Option Json → Option String
as_text (some (str text)) = some text
as_text _ = none
