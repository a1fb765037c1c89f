-- ===== src/Json.antt =====
-- JSON values as Python's `json` reads them, for events. A float is the text of its `repr`, and an object
-- the order of its keys, which differ in Python.
use range42_backend_api.Prelude.{String, Bool, Option, none, some, ◌==◌, string_eq, if◌then◌else◌}
use range42_backend_api.Models.{ℤ}

mutual
  pub data Json : Type 0 where
    null : Json
    boolean : Bool → Json
    number : ℤ → Json
    float : String → Json
    string : String → Json
    array : Items → Json
    object : Fields → Json

  pub data Items : Type 0 where
    nil : Items
    item : Json → Items → Items

  pub data Fields : Type 0 where
    end : Fields
    field : String → Json → Fields → Fields

-- `d.get(k)`
unfoldable pub get_field : String → Fields → Option Json
get_field k end = none
get_field k (field j v rest) = let later = get_field k rest in if j == k then some v else later
