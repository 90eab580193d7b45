-- ===== src/Collectible/Tests.antt =====
-- The collectible issuer at a concrete command: a revocation.
use hive_chameleon.Prelude.{ℕ, String, refl, none, []}
use hive_chameleon.Exec.{ok}
use hive_chameleon.Gateway.Protocol.Event.{collectible_revoked}
use hive_chameleon.Gateway.Signer.{sign}
use hive_chameleon.Gateway.Tests.{
  id_1, noon, small, chain, boundary, gateway_world, issuer, revocation,
}
use hive_chameleon.Collectible.{
  CollectibleIssuerJournal, CollectibleIssuerOptions, IssuerWorld, publish,
}
use hive_chameleon.Collectible.Laws.{IsSettled, publish-IsSettled}

-- A journal that keeps nothing.
abbrev journal : CollectibleIssuerJournal Unit
journal = record {
  record_prepared = λ r s. (ok tt, s);
  mark_broadcast = λ a b c s. (ok tt, s);
  mark_failed = λ a b c d s. (ok tt, s);
}

abbrev options : CollectibleIssuerOptions
options = record {
  authorization = issuer;
  transaction_expiration_seconds = none;
  next_uuid_v7 = λ n. id_1;
  now = λ n. 43200000;
}

abbrev to_iso_string : ℕ → String
to_iso_string n = noon

abbrev world : IssuerWorld small to_iso_string chain (sign small boundary) journal options
world = record { store = tt; calls = []; gateway = gateway_world; readings = 0 }

publish-IsSettled_example :
    IsSettled small to_iso_string chain
      (sign small boundary)
      journal
      options
      (collectible_revoked revocation)
      1
      []
      []
      (publish small to_iso_string chain
        (sign small boundary)
        journal
        options
        (collectible_revoked revocation)
        1
        world).0
      (publish small to_iso_string chain
        (sign small boundary)
        journal
        options
        (collectible_revoked revocation)
        1
        world).1
publish-IsSettled_example =
    publish-IsSettled small to_iso_string chain (sign small boundary) journal options
      (collectible_revoked revocation) 1 [] [] world refl refl
