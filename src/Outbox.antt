-- ===== src/Outbox.antt =====
-- What the two publishing workers share: a store of what is to be published, the gateway, and the
-- readings of the clock and of the id provider.
pub mod Laws
use hive_chameleon.Prelude.{ℕ, suc, String, Bool, true, false, List, ◌∷◌}
use hive_chameleon.Exec.{Result, ok, err, Exec, focus}
use hive_chameleon.Gateway.Contracts.{GatewayFailure}
use hive_chameleon.Gateway.Send.{GatewayWorld}

-- The calls of the store are logged, the last one first, with whether they returned. The clock and
-- the id provider are asked by the number of the reading.
pub record PublishingWorld (S C N : Type 0) : Type 0 where
  pub store : S
  pub calls : List (C × Bool)
  pub gateway : GatewayWorld N
  pub readings : ℕ

abbrev pub returned : {E A : Type 0} → Result E A → Bool
returned (ok a) = true
returned (err e) = false

module _ {S C N F A : Type 0} where
  unfoldable pub call_store : C → Exec S F A → Exec (PublishingWorld S C N) F A
  call_store c m w =
      let (r, s) = m w.store in (r, record w { store = s; calls = (c, returned r) ∷ w.calls })

  unfoldable pub reading : (ℕ → A) → Exec (PublishingWorld S C N) F A
  reading answer w = (ok (answer w.readings), record w { readings = suc w.readings })

module _ {S C N A : Type 0} where
  unfoldable pub in_gateway :
      Exec (GatewayWorld N) GatewayFailure A → Exec (PublishingWorld S C N) GatewayFailure A
  unfolding focus
  in_gateway m = focus (λ w. w.gateway) (λ g w. record w { gateway = g }) m
