-- ===== src/Collectible/Laws.antt =====
-- What a publication of a collectible event leaves behind: `publish`, `issue` and `revoke` of
-- workers/collectible-issuer/src/collectible-issuer.ts.
use hive_chameleon.Prelude.{
  ℕ, String, ◌≡◌, refl, sym, subst, ◌∙◌, ap, Bool, true, false, List, ◌∷◌, ◌≤◌, arith,
}
use hive_chameleon.Exec.{Result, ok, err, Exec}
use hive_chameleon.Exec.Triple.{
  Post-result, Triple, Triple-pure, Triple-throw, Triple-unless, Triple-bind, Triple-bind-lift,
  Triple-given, Triple-pre, Triple-post, Triple-rescue, Triple-fixed,
}
use hive_chameleon.Gateway.Library.{Library}
use hive_chameleon.Gateway.Protocol.Event.{HiveChameleonEvent, event_id, event_type}
use hive_chameleon.Gateway.Contracts.{
  HiveChainPort, PreparedOfficialEvent, IsolatedSignerRequest, IsolatedSignerResponse,
  GatewayFailure,
}
use hive_chameleon.Gateway.Send.{GatewayWorld}
use hive_chameleon.Gateway.Send.Silence.{Silent}
use hive_chameleon.Gateway.Send.Laws.{Sent, HasSent, IsDelivered, Triple-IsDelivered}
use hive_chameleon.Gateway.Send.Prepare.{IsPrepared, Triple-IsPrepared}
use hive_chameleon.Outbox.Laws.{At, Triple-call_store, Triple-reading, Triple-in_gateway}
use hive_chameleon.Collectible.{
  CollectibleIssuerJournal, CollectibleIssuerOptions, CollectibleBroadcastResult, JournalCall,
  recorded_prepared, marked_broadcast, marked_failed, IssuerWorld, intent_of, signing_record,
  broadcast_prepared, mark_failure, publish_prepared, publish, stable_failure_code,
}

module _ (lib : Library) (to_iso_string : ℕ → String) (chain : HiveChainPort) {N S : Type 0}
    (sign : IsolatedSignerRequest → Exec N GatewayFailure IsolatedSignerResponse)
    (journal : CollectibleIssuerJournal S) (options : CollectibleIssuerOptions)
    (event : HiveChameleonEvent) (attempt_number : ℕ) (calls : List (JournalCall × Bool))
    (broadcasts : List String) where
  abbrev Worlds : Type 0
  Worlds = IssuerWorld lib to_iso_string chain sign journal options

  abbrev pub IsPreparedEvent : PreparedOfficialEvent → Type 0
  IsPreparedEvent =
      IsPrepared lib chain sign
        (intent_of lib to_iso_string chain sign journal options event attempt_number)
        options.authorization

  abbrev pub entry_of : PreparedOfficialEvent → String → ℕ → JournalCall
  entry_of prepared id prepared_at = recorded_prepared (
      signing_record lib to_iso_string chain sign journal options event attempt_number prepared id
        prepared_at)

  abbrev pub result_of : PreparedOfficialEvent → CollectibleBroadcastResult
  result_of prepared = record {
    event_id = event_id event;
    transaction_id = prepared.transaction_id;
    event_type = event_type event;
  }

  module _ (prepared : PreparedOfficialEvent) (id : String) (prepared_at : ℕ) where
    -- The event is recorded, and then broadcast or not.
    abbrev pub recorded_calls : List (JournalCall × Bool)
    recorded_calls = (entry_of prepared id prepared_at, true) ∷ calls

    -- The `try` block has thrown: before the broadcast was marked, or where it should be.
    pub data IsBroken : List (JournalCall × Bool) → GatewayWorld N → Type 0 where
      unsent :
          (log : List (JournalCall × Bool)) (gateway : GatewayWorld N)
          → log ≡ recorded_calls
          → HasSent lib chain sign prepared broadcasts gateway
          → IsBroken log gateway
      unmarked :
          (log : List (JournalCall × Bool)) (gateway : GatewayWorld N) (broadcast_at : String)
          → log ≡ (marked_broadcast id prepared.transaction_id broadcast_at, false) ∷ recorded_calls
          → Sent lib chain sign prepared broadcasts gateway
          → IsBroken log gateway

    pub record IsPublished (result : CollectibleBroadcastResult) (w : Worlds) : Type 0 where
      pub value : result ≡ result_of prepared
      pub broadcast_at : String
      pub entries :
          w.calls
          ≡ (marked_broadcast id prepared.transaction_id broadcast_at, true) ∷ recorded_calls
      pub sent : Sent lib chain sign prepared broadcasts w.gateway

    -- The failure is marked with the code of its cause; where the mark returns, the cause is what
    -- is thrown.
    pub record IsFailed (error : GatewayFailure) (w : Worlds) : Type 0 where
      pub broken_log : List (JournalCall × Bool)
      pub broken : IsBroken broken_log w.gateway
      pub cause : GatewayFailure
      pub failed_at : String
      pub marked : Bool
      pub entries :
          w.calls
          ≡ (marked_failed id prepared.transaction_id (stable_failure_code cause) failed_at, marked)
            ∷ broken_log
      pub rethrown : marked ≡ true → error ≡ cause

    Triple-broadcast_prepared :
        Triple
          (At {S = S} recorded_calls (Silent broadcasts))
          (broadcast_prepared lib to_iso_string chain sign journal options event prepared id)
          IsPublished
          (λ e w. IsBroken w.calls w.gateway)
    unfolding broadcast_prepared
    Triple-broadcast_prepared =
        Triple-bind _ _
          (Triple-post _
            (Triple-in_gateway recorded_calls _
              (Triple-IsDelivered lib chain sign prepared broadcasts))
            (λ r w p. p) (λ e w p. unsent w.calls w.gateway p.0 p.1))
          λ sent.
            Triple-bind _ _
              (Triple-reading recorded_calls (IsDelivered lib chain sign prepared broadcasts sent)
                options.now _)
              λ at. Triple-given _ λ w₀ known.
                let call : String → JournalCall = λ t. marked_broadcast id t (to_iso_string at) in
                Triple-bind _ _
                  (Triple-post _
                    (Triple-pre _
                      (Triple-call_store recorded_calls
                        (IsDelivered lib chain sign prepared broadcasts sent) _ _)
                      λ w p. p.1)
                    (λ u w p. p)
                    (λ e w p.
                      unmarked w.calls w.gateway (to_iso_string at)
                        (p.0 ∙ ap (λ t. (call t, false) ∷ recorded_calls) known.1.1.0) p.1.1))
                  λ u. Triple-pure _ λ w p. record {
                    value =
                        ap (λ t. record (result_of prepared) { transaction_id = t }) known.1.1.0;
                    broadcast_at = to_iso_string at;
                    entries = p.0 ∙ ap (λ t. (call t, true) ∷ recorded_calls) known.1.1.0;
                    sent = p.1.1;
                  }

    Triple-mark_failure :
        (error : GatewayFailure)
        → Triple {W = Worlds}
            (λ w. IsBroken w.calls w.gateway)
            (mark_failure lib to_iso_string chain sign journal options prepared id error)
            IsPublished
            IsFailed
    unfolding mark_failure
    Triple-mark_failure error = Triple-fixed _ λ w₀ broken₀.
        let here : GatewayWorld N → Type 0 = IsBroken w₀.calls in
        let mark : (at : ℕ) (marked : Bool) (e : GatewayFailure) (w : Worlds)
            → (marked ≡ true → e ≡ error)
            → At
                ((
                  marked_failed id prepared.transaction_id (stable_failure_code error)
                      (to_iso_string at),
                  marked,
                )
                  ∷ w₀.calls)
                here w
            → IsFailed e w =
          λ at marked e w same p. record {
            broken_log = w₀.calls;
            broken = p.1;
            cause = error;
            failed_at = to_iso_string at;
            marked = marked;
            entries = p.0;
            rethrown = same;
          } in
        Triple-bind _ _
          (Triple-pre _ (Triple-reading w₀.calls here options.now _)
            λ w same. (ap (λ w. w.calls) same, subst (λ w. here w.gateway) (sym same) broken₀))
          λ at.
            Triple-bind _ _
              (Triple-post _ (Triple-pre _ (Triple-call_store w₀.calls here _ _) λ w p. p.1)
                (λ u w p. p) (λ e w p. mark at false e w (λ h. absurd (ground arith)) p))
              λ u. Triple-throw _ λ w p. mark at true error w (λ h. refl) p

  -- How a publication may end. Nothing is called; or the event is recorded, or its record throws;
  -- or it is recorded and broadcast; or it is recorded, and fails.
  pub data IsSettled : Result GatewayFailure CollectibleBroadcastResult → Worlds → Type 0 where
    refused :
        (e : GatewayFailure) (w : Worlds) → At calls (Silent broadcasts) w → IsSettled (err e) w
    unrecorded :
        (e : GatewayFailure) (w : Worlds) (prepared : PreparedOfficialEvent) (id : String)
        (prepared_at : ℕ)
        → IsPreparedEvent prepared
        → At ((entry_of prepared id prepared_at, false) ∷ calls) (Silent broadcasts) w
        → IsSettled (err e) w
    published :
        (r : CollectibleBroadcastResult) (w : Worlds) (prepared : PreparedOfficialEvent)
        (id : String) (prepared_at : ℕ)
        → 1 ≤ attempt_number
        → attempt_number ≤ 1000000
        → IsPreparedEvent prepared
        → IsPublished prepared id prepared_at r w
        → IsSettled (ok r) w
    failed :
        (e : GatewayFailure) (w : Worlds) (prepared : PreparedOfficialEvent) (id : String)
        (prepared_at : ℕ)
        → IsPreparedEvent prepared
        → IsFailed prepared id prepared_at e w
        → IsSettled (err e) w

  Triple-publish_prepared :
      (prepared : PreparedOfficialEvent)
      → IsPreparedEvent prepared
      → 1 ≤ attempt_number
      → attempt_number ≤ 1000000
      → Triple
          (At calls (Silent broadcasts))
          (publish_prepared lib to_iso_string chain sign journal options event attempt_number
            prepared)
          (λ r. IsSettled (ok r))
          (λ e. IsSettled (err e))
  unfolding publish_prepared
  Triple-publish_prepared prepared h low high =
      Triple-bind _ _ (Triple-reading calls (Silent broadcasts) options.next_uuid_v7 _) λ value.
        Triple-bind-lift _ _
          (λ id valid.
            Triple-bind _ _
              (Triple-pre _ (Triple-reading calls (Silent broadcasts) options.now _) λ w p. p.1)
              λ prepared_at.
                Triple-bind _ _
                  (Triple-post _
                    (Triple-pre _ (Triple-call_store calls (Silent broadcasts) _ _) λ w p. p.1)
                    (λ u w p. p) (λ e w p. unrecorded e w prepared id prepared_at h p))
                  λ u.
                    Triple-rescue _ _
                      (Triple-post _ (Triple-broadcast_prepared prepared id prepared_at)
                        (λ r w p. published r w prepared id prepared_at low high h p) (λ e w p. p))
                      λ error.
                        Triple-post _ (Triple-mark_failure prepared id prepared_at error)
                          (λ r w p. published r w prepared id prepared_at low high h p)
                          (λ e w p. failed e w prepared id prepared_at h p))
          (λ e bad w p. refused e w p.1)

  Triple-publish :
      Triple
        (At calls (Silent broadcasts))
        (publish lib to_iso_string chain sign journal options event attempt_number)
        (λ r. IsSettled (ok r))
        (λ e. IsSettled (err e))
  unfolding publish
  Triple-publish =
      Triple-unless _ _ _ (λ e w p. refused _ w p)
        λ e.
          Triple-bind _ _
            (Triple-post _
              (Triple-in_gateway calls _ (
                Triple-IsPrepared lib chain sign
                  (intent_of lib to_iso_string chain sign journal options event attempt_number)
                  options.authorization broadcasts))
              (λ r w p. p) (λ e w p. refused e w p))
            λ prepared. Triple-given _ λ w₀ known.
              Triple-pre _
                (Triple-publish_prepared prepared known.1.1 (ground arith) (ground arith))
                λ w p. (p.0, p.1.0)

  -- A publication of a collectible event ends in one of four ways. It throws with nothing called
  -- and nothing broadcast. Or the journal throws at the record of the prepared event, and nothing
  -- is broadcast. Or the prepared event is recorded first, then exactly one transaction is
  -- broadcast, the prepared one with a verified signature, then the broadcast is marked, and the
  -- result names the event and the transaction. Or, once the event is recorded, something throws:
  -- at most one transaction is broadcast, the failure is marked with its code, and the error is
  -- thrown again unless the mark throws itself.
  pub publish-IsSettled :
      (w : Worlds)
      → w.calls ≡ calls
      → w.gateway.broadcasts ≡ broadcasts
      → IsSettled
          (publish lib to_iso_string chain sign journal options event attempt_number w).0
          (publish lib to_iso_string chain sign journal options event attempt_number w).1
  publish-IsSettled w hc hb =
      Post-result IsSettled
        (publish lib to_iso_string chain sign journal options event attempt_number w)
        (Triple-publish.at w (hc, hb))
