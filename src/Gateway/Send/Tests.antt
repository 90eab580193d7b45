-- ===== src/Gateway/Send/Tests.antt =====
-- The preparation of the revocation of the gateway's tests.
use hive_chameleon.Prelude.{◌≡◌, refl, []}
use hive_chameleon.Exec.{ok, continue, ◌>>=◌, lift, pure, unless}
use hive_chameleon.Gateway.Policy.{
  authorize_official_event, authorize_shaped, assert_authorization_shape, assert_payload_account,
  payload_account_agrees, is_policy_version, is_idempotency_key, canonical_custom_json_operation,
  text_items,
}
use hive_chameleon.Gateway.Protocol.Event.{event_family}
use hive_chameleon.Gateway.Protocol.Text.{
  is_uuid_v7, is_controlled_code, is_hive_account, split_dots, account_segment,
}
use hive_chameleon.Gateway.Protocol.Check.{valid_event, valid_revoked, utf16_length}
use hive_chameleon.Gateway.Protocol.Codec.{
  serialize_hive_chameleon_event, assert_payload_size, check_event, canonical_json,
}
use hive_chameleon.Gateway.Signer.{sign}
use hive_chameleon.Gateway.Send.{ask, prepare_official_event, prepare_authorized}
use hive_chameleon.Gateway.Send.Prepare.{IsPrepared, prepare_official_event-IsPrepared}
use hive_chameleon.Gateway.Tests.{
  small, chain, boundary, gateway_world, intent, issuer, prepared_revocation,
}

prepared :
    prepare_official_event small chain (sign small boundary) intent issuer gateway_world
    ≡ (ok prepared_revocation, record gateway_world { tick = 1 })
unfolding prepare_official_event prepare_authorized ask ◌>>=◌ continue lift pure unless
    canonical_custom_json_operation text_items authorize_official_event authorize_shaped
    assert_authorization_shape assert_payload_account payload_account_agrees is_policy_version
    is_idempotency_key utf16_length event_family serialize_hive_chameleon_event assert_payload_size
    check_event canonical_json valid_event valid_revoked is_uuid_v7 is_controlled_code
    is_hive_account split_dots account_segment
prepared = refl

prepare_official_event-IsPrepared_example :
    ([] ≡ gateway_world.broadcasts)
    × IsPrepared small chain (sign small boundary) intent issuer prepared_revocation
prepare_official_event-IsPrepared_example =
    prepare_official_event-IsPrepared small chain (sign small boundary) intent issuer gateway_world
      (record gateway_world { tick = 1 }) prepared_revocation prepared
