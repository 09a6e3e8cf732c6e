-- ===== src/Json.antt =====
-- JSON values, as `json.loads` returns them. Objects are in the order of their keys.
use oi_interface.Base.{String, Bool, List, [], ◌∷◌, Option, none, some}
use oi_interface.Base.Int.{ℤ}
use oi_interface.Dict.{Dict}

-- `float` holds the digits of a number with a fraction or an exponent.
mutual
  pub data Json : Type 0 where
    null : Json
    bool : Bool → Json
    int : ℤ → Json
    float : String → Json
    text : String → Json
    array : Items → Json
    object : Fields → Json

  pub data Items : Type 0 where
    end_items : Items
    item : Json → Items → Items

  pub data Fields : Type 0 where
    end_fields : Fields
    field : String → Json → Fields → Fields

abbrev pub fields_of : Dict Json → Fields
fields_of [] = end_fields
fields_of ((k, v) ∷ d) = field k v (fields_of d)

abbrev pub to_dict : Fields → Dict Json
to_dict end_fields = []
to_dict (field k v fs) = (k, v) ∷ to_dict fs

abbrev pub items_of : List Json → Items
items_of [] = end_items
items_of (v ∷ vs) = item v (items_of vs)

-- A Python dict as a value.
abbrev pub dict : Dict Json → Json
dict d = object (fields_of d)

abbrev dict_items : List (Dict Json) → Items
dict_items [] = end_items
dict_items (d ∷ ds) = item (dict d) (dict_items ds)

-- A list of dicts as a value.
abbrev pub dicts : List (Dict Json) → Json
dicts ds = array (dict_items ds)

-- `isinstance(v, str)`
abbrev pub as_text : Json → Option String
as_text (text s) = some s
as_text v = none
