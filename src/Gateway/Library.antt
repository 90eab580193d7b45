-- ===== src/Gateway/Library.antt =====
-- What the gateway takes from outside the repository: zod's readers, `Date.parse`, the package
-- `canonicalize`, `JSON.parse` and node's hash. Milliseconds count from the earliest date of
-- JavaScript, and `none` is `NaN`.
use Prim.Native.String.{len}
use hive_chameleon.Prelude.{
  ℕ, String, Bool, true, false, not, Option, some, ltb, ◌==◌, ◌≡◌, is_some,
}
use hive_chameleon.Gateway.Json.{Json}
use hive_chameleon.Gateway.Protocol.Event.{HiveChameleonEvent}

pub record Library : Type 0 where
  -- `z.string().datetime({ offset: true })` and `z.string().url()` with the tests on its parts.
  pub is_iso_timestamp : String → Bool
  pub is_https_url : String → Bool
  pub date_parse : String → Option ℕ
  -- The part of `hiveChameleonEventSchema` that zod reads off the shape: strict objects, literals,
  -- enumerations and primitive types; and the value back as JSON.
  pub shape : Json → Option HiveChameleonEvent
  pub to_json : HiveChameleonEvent → Json
  pub canonicalize : Json → Option String
  pub json_parse : String → Option Json
  pub sha256_hex : String → String

-- The documented behaviour that theorems rely on.
pub record IsLibrary (lib : Library) : Type 0 where
  pub dated :
      (text : String) → lib.is_iso_timestamp text ≡ true → is_some (lib.date_parse text) ≡ true
  -- RFC 8785: the canonical text of an event's value is JSON, and parses to that value up to the
  -- order of keys, which no schema sees.
  pub faithful :
      (event : HiveChameleonEvent) (text : String)
      → lib.canonicalize (lib.to_json event) ≡ some text
      → (value : Json) × (lib.json_parse text ≡ some value) × (lib.shape value ≡ some event)

-- Comparisons of dates: `NaN` compares false.
abbrev pub date_lt : Option ℕ → Option ℕ → Bool
date_lt (some a) (some b) = ltb a b
date_lt _ _ = false

abbrev pub date_le : Option ℕ → Option ℕ → Bool
date_le (some a) (some b) = not (ltb b a)
date_le _ _ = false

abbrev pub date_eq : Option ℕ → Option ℕ → Bool
date_eq (some a) (some b) = a == b
date_eq _ _ = false

-- `Buffer.byteLength(text, 'utf8')`.
abbrev pub byte_length : String → ℕ
byte_length text = len text
