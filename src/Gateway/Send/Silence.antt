-- ===== src/Gateway/Send/Silence.antt =====
-- A question to the chain broadcasts nothing: packages/hive-gateway/src/gateway.ts.
use hive_chameleon.Prelude.{ℕ, String, ◌≡◌, refl, List}
use hive_chameleon.Exec.{Result, ok, err, Exec}
use hive_chameleon.Exec.Triple.{Post, Triple}
use hive_chameleon.Gateway.Library.{Library}
use hive_chameleon.Gateway.Contracts.{
  HiveChainPort, IsolatedSignerRequest, IsolatedSignerResponse, GatewayFailure,
}
use hive_chameleon.Gateway.Send.{GatewayWorld, ask}

abbrev pub Silent : {N : Type 0} → List String → GatewayWorld N → Type 0
Silent before w = w.broadcasts ≡ before

module _ (lib : Library) (chain : HiveChainPort) {N : Type 0}
    (sign : IsolatedSignerRequest → Exec N GatewayFailure IsolatedSignerResponse)
    (before : List String) where
  asked :
      {A : Type 0} (answer : ℕ → Result GatewayFailure A) (tick : ℕ) (r : Result GatewayFailure A)
      (w : GatewayWorld N)
      → answer tick ≡ r
      → Silent before w
      → Post (λ a w. Silent before w × ((n : ℕ) × (answer n ≡ ok a))) (λ e. Silent before) (r, w)
  unfolding Post
  asked answer tick (ok a) w h p = (p, (tick, h))
  asked answer tick (err e) w h p = p

  pub Triple-ask :
      {A : Type 0} (answer : ℕ → Result GatewayFailure A)
      → Triple
          (Silent before)
          (ask lib chain sign answer)
          (λ a w. Silent before w × ((n : ℕ) × (answer n ≡ ok a)))
          (λ e. Silent before)
  unfolding ask
  Triple-ask answer = record { at = λ w p. asked answer w.tick _ _ refl p }
