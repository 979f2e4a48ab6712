-- ===== src/Json.antt =====
-- JSON values as Python's `json` reads them, and pydantic's fields of a `dict`.
use python_typescript_wiki_b.Base.{Bool, Option, none, some, if◌then◌else◌, same}
use python_typescript_wiki_b.Base.Int.{ℤ}
use python_typescript_wiki_b.Text.{Str}

mutual
  -- `real` keeps the text of a number with a fraction or an exponent, and of NaN and Infinity.
  pub data Json : Type 0 where
    null : Json
    bool : Bool → Json
    int : ℤ → Json
    real : Str → Json
    str : Str → Json
    arr : Items → Json
    obj : Fields → Json

  pub data Items : Type 0 where
    nil : Items
    cons : Json → Items → Items

  pub data Fields : Type 0 where
    end : Fields
    field : Str → Json → Fields → Fields

abbrev later : Option Json → Option Json → Option Json
later none o = o
later (some v) o = some v

-- `d.get(key)` for a dict that was read field by field: a later field replaces an earlier one.
unfoldable pub get : Str → Fields → Option Json
get key end = none
get key (field k v rest) = later (get key rest) (if same k key then some v else none)
