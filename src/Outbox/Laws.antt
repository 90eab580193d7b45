-- ===== src/Outbox/Laws.antt =====
-- What a call of the store, a reading and a use of the gateway leave in the log.
use hive_chameleon.Prelude.{ℕ, Bool, true, false, List, ◌∷◌, ◌≡◌, refl, ap}
use hive_chameleon.Exec.{Result, ok, err, Exec, focus, failing}
use hive_chameleon.Exec.Triple.{Post, Triple, Triple-failing}
use hive_chameleon.Gateway.Contracts.{GatewayFailure}
use hive_chameleon.Gateway.Send.{GatewayWorld}
use hive_chameleon.Outbox.{PublishingWorld, call_store, reading, in_gateway, returned}

-- The log of the calls, and the broadcasts.
abbrev pub At :
    {S C N : Type 0} → List (C × Bool) → (GatewayWorld N → Type 0) → PublishingWorld S C N → Type 0
At calls B w = (w.calls ≡ calls) × B w.gateway

module _ {S C N F A : Type 0} (calls : List (C × Bool)) (B : GatewayWorld N → Type 0) where
  logged :
      (c : C) (r : Result F A) (s : S) (w : PublishingWorld S C N)
      → At calls B w
      → Post
          (λ a. At ((c, true) ∷ calls) B)
          (λ e. At ((c, false) ∷ calls) B)
          (r, record w { store = s; calls = (c, returned r) ∷ w.calls })
  unfolding Post
  logged c (ok a) s w p = (ap (λ l. (c, true) ∷ l) p.0, p.1)
  logged c (err e) s w p = (ap (λ l. (c, false) ∷ l) p.0, p.1)

  pub Triple-call_store :
      (c : C) (m : Exec S F A)
      → Triple
          (At {S = S} calls B)
          (call_store c m)
          (λ a. At ((c, true) ∷ calls) B)
          (λ e. At ((c, false) ∷ calls) B)
  unfolding call_store
  Triple-call_store c m = record { at = λ w p. logged c _ _ w p }

  pub Triple-reading :
      (answer : ℕ → A) (R : F → PublishingWorld S C N → Type 0)
      → Triple
          (At {S = S} calls B)
          (reading answer)
          (λ a w. ((n : ℕ) × (a ≡ answer n)) × At calls B w)
          R
  unfolding reading Post
  Triple-reading answer R = record { at = λ w p. ((w.readings, refl), p) }

module _ {S C N A : Type 0} (calls : List (C × Bool)) (Q : A → GatewayWorld N → Type 0)
    (R : GatewayFailure → GatewayWorld N → Type 0) where
  carried_over :
      (x : Result GatewayFailure A × GatewayWorld N) (w : PublishingWorld S C N)
      → w.calls ≡ calls
      → Post Q R x
      → Post (λ a. At calls (Q a)) (λ e. At calls (R e)) (x.0, record w { gateway = x.1 })
  unfolding Post
  carried_over (ok a, g) w h p = (h, p)
  carried_over (err e, g) w h p = (h, p)

module _ {S C N A : Type 0} (calls : List (C × Bool)) {B : GatewayWorld N → Type 0}
    {Q : A → GatewayWorld N → Type 0} {R : GatewayFailure → GatewayWorld N → Type 0} where
  pub Triple-in_gateway :
      (m : Exec (GatewayWorld N) GatewayFailure A)
      → Triple B m Q R
      → Triple (At {S = S} calls B) (in_gateway m) (λ a. At calls (Q a)) (λ e. At calls (R e))
  unfolding in_gateway focus
  Triple-in_gateway m h = record {
    at = λ w p. carried_over calls Q R (m w.gateway) w p.0 (h.at w.gateway p.1);
  }

module _ {S C N A F : Type 0} (calls : List (C × Bool)) {B R : GatewayWorld N → Type 0}
    {Q : A → GatewayWorld N → Type 0} where
  pub Triple-through_gateway :
      (f : GatewayFailure → F) (m : Exec (GatewayWorld N) GatewayFailure A)
      → Triple B m Q (λ e. R)
      → Triple
          (At {S = S} calls B)
          (failing f (in_gateway m))
          (λ a. At calls (Q a))
          (λ e. At calls R)
  Triple-through_gateway f m h = Triple-failing _ _ (Triple-in_gateway calls m h) (λ e w p. p)
