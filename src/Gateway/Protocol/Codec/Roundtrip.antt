-- ===== src/Gateway/Protocol/Codec/Roundtrip.antt =====
-- Payloads and events correspond one to one: packages/hive-gateway/src/protocol/events.ts.
use hive_chameleon.Prelude.{
  String, true, not, Option, none, some, ◌≡◌, ◌≤◌, refl, str_eq, eq_iff, eq_refl, if◌then◌else◌,
  arith, inl, inr, Option-cases,
}
use hive_chameleon.Exec.{Result, ok, err, ◌>>=?◌}
use hive_chameleon.Gateway.Json.{Json}
use hive_chameleon.Gateway.Library.{Library, IsLibrary, byte_length}
use hive_chameleon.Gateway.Protocol.Event.{HiveChameleonEvent}
use hive_chameleon.Gateway.Protocol.Check.{valid_event}
use hive_chameleon.Gateway.Protocol.Codec.{
  non_canonical_payload, canonical_json, parse_json, assert_payload_size, check_event, check_shape,
  serialize_hive_chameleon_event, parse_hive_chameleon_event, max_payload_bytes,
}

-- `b` succeeded on the way to a success.
pub bind_ok {ℓ κ η} :
    {E : Type ℓ} {A : Type κ} {B : Type η} (m : Result E A) (f : A → Result E B) (b : B)
    → (m >>=? f) ≡ ok b
    → (a : A) × (m ≡ ok a) × (f a ≡ ok b)
bind_ok (ok a) f b h = (a, refl, h)
bind_ok (err e) f b h = ground arith

canonical_same :
    (text payload : String) (parsed event : HiveChameleonEvent)
    → (if not (str_eq text payload) then err non_canonical_payload else ok parsed) ≡ ok event
    → (text ≡ payload) × (parsed ≡ event)
canonical_same text payload parsed event h = grind (arith, eq_iff text payload)

module _ (lib : Library) where
  -- What both directions know of an event and its payload.
  pub record IsPayload (event : HiveChameleonEvent) (payload : String) : Type 0 where
    pub valid : valid_event lib event ≡ true
    pub canonical : lib.canonicalize (lib.to_json event) ≡ some payload
    pub fits : byte_length payload ≤ max_payload_bytes

  check_event-ok :
      (event parsed : HiveChameleonEvent)
      → check_event lib event ≡ ok parsed
      → (valid_event lib event ≡ true) × (event ≡ parsed)
  unfolding check_event
  check_event-ok event parsed h = ground arith

  check_shape-ok :
      (shape : Option HiveChameleonEvent) (parsed : HiveChameleonEvent)
      → check_shape lib shape ≡ ok parsed
      → (shape ≡ some parsed) × (valid_event lib parsed ≡ true)
  unfolding check_shape check_event
  check_shape-ok none parsed h = ground arith
  check_shape-ok (some event) parsed h = grind arith

  canonical_json-ok :
      (value : Json) (text : String)
      → canonical_json lib value ≡ ok text
      → lib.canonicalize value ≡ some text
  unfolding canonical_json
  canonical_json-ok value text h = elim (Option-cases (lib.canonicalize value)) [
    | inl e ↦ ground (arith, e)
    | inr (found, e) ↦ ground (arith, e)
  ]

  assert_payload_size-ok :
      (payload : String) (u : Unit)
      → assert_payload_size lib payload ≡ ok u
      → byte_length payload ≤ max_payload_bytes
  unfolding assert_payload_size
  assert_payload_size-ok payload u h = ground arith

  pub serialize-IsPayload :
      (event : HiveChameleonEvent) (payload : String)
      → serialize_hive_chameleon_event lib event ≡ ok payload
      → IsPayload event payload
  unfolding serialize_hive_chameleon_event
  serialize-IsPayload event payload h =
      let (parsed, checked, h₁) = bind_ok (check_event lib event) _ payload h in
      let (valid, same) = check_event-ok event parsed checked in
      let (text, written, h₂) = bind_ok (canonical_json lib (lib.to_json parsed)) _ payload h₁ in
      let (u, sized, h₃) = bind_ok (assert_payload_size lib text) _ payload h₂ in
      let written' = canonical_json-ok _ text written in
      let fits = assert_payload_size-ok text u sized in
      record { valid = valid; canonical = grind arith; fits = grind arith }

  pub IsPayload-serialize :
      (event : HiveChameleonEvent) (payload : String)
      → IsPayload event payload
      → serialize_hive_chameleon_event lib event ≡ ok payload
  unfolding serialize_hive_chameleon_event check_event canonical_json assert_payload_size
  IsPayload-serialize event payload h = ground (arith, h.valid, h.canonical, h.fits)

  pub parse-IsPayload :
      (event : HiveChameleonEvent) (payload : String)
      → parse_hive_chameleon_event lib payload ≡ ok event
      → IsPayload event payload
  unfolding parse_hive_chameleon_event
  parse-IsPayload event payload h =
      let (u, sized, h₁) = bind_ok (assert_payload_size lib payload) _ event h in
      let (value, read, h₂) = bind_ok (parse_json lib payload) _ event h₁ in
      let (parsed, checked, h₃) = bind_ok (check_shape lib (lib.shape value)) _ event h₂ in
      let (shaped, valid) = check_shape-ok (lib.shape value) parsed checked in
      let (text, written, h₄) = bind_ok (canonical_json lib (lib.to_json parsed)) _ event h₃ in
      let written' = canonical_json-ok _ text written in
      let (same_text, same) = canonical_same text payload parsed event h₄ in
      record {
        valid = grind arith;
        canonical = grind arith;
        fits = assert_payload_size-ok payload u sized;
      }

  pub IsPayload-parse :
      IsLibrary lib
      → (event : HiveChameleonEvent) (payload : String) → IsPayload event payload
      → parse_hive_chameleon_event lib payload ≡ ok event
  unfolding parse_hive_chameleon_event check_shape check_event canonical_json parse_json
      assert_payload_size
  IsPayload-parse laws event payload h =
      let (value, parsed, shaped) = laws.faithful event payload h.canonical in
      ground (arith, h.valid, h.canonical, h.fits, parsed, shaped, eq_refl payload)

  -- Serializing a valid event gives a payload exactly when parsing that payload gives the event,
  -- where the canonical JSON of the platform parses back to the value it was written from.
  pub serialize-parse :
      IsLibrary lib
      → (event : HiveChameleonEvent) (payload : String)
      → (serialize_hive_chameleon_event lib event ≡ ok payload
          → parse_hive_chameleon_event lib payload ≡ ok event)
        × (parse_hive_chameleon_event lib payload ≡ ok event
            → serialize_hive_chameleon_event lib event ≡ ok payload)
  serialize-parse laws event payload = (
    λ h. IsPayload-parse laws event payload (serialize-IsPayload event payload h),
    λ h. IsPayload-serialize event payload (parse-IsPayload event payload h),
  )

  -- Two payloads that parse to one event are one text, and it has at most 6144 bytes: no event has
  -- a second spelling on the chain.
  pub parse_unique :
      (event : HiveChameleonEvent) (payload other : String)
      → parse_hive_chameleon_event lib payload ≡ ok event
      → parse_hive_chameleon_event lib other ≡ ok event
      → (payload ≡ other) × (byte_length payload ≤ 6144)
  parse_unique event payload other h k =
      let p = parse-IsPayload event payload h in
      let q = parse-IsPayload event other k in ((ground (arith, p.canonical, q.canonical)), p.fits)
