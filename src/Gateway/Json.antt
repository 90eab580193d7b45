-- ===== src/Gateway/Json.antt =====
-- JSON values: `unknown` payloads and `JsonValue` of packages/hive-gateway/src/canonical/json.ts.
-- No code of the repository computes with a number of such a payload, so `num` holds its text.
use hive_chameleon.Prelude.{String, Bool, Option, none, some, str_eq, if◌then◌else◌}

mutual
  pub data Json : Type 0 where
    null : Json
    bool : Bool → Json
    num : String → Json
    str : String → Json
    arr : Items → Json
    obj : Fields → Json

  pub data Items : Type 0 where
    nil : Items
    cons : Json → Items → Items

  pub data Fields : Type 0 where
    end : Fields
    field : String → Json → Fields → Fields

-- The value under a key of an object; the keys of a parsed object are distinct.
unfoldable pub get_field : Fields → String → Option Json
get_field end key = none
get_field (field k v rest) key = if str_eq k key then some v else get_field rest key
