-- ===== src/Publisher/Worker/Attempt.antt =====
-- What an attempt to publish a frozen batch leaves behind: `publishAttempt` of
-- workers/match-publisher/src/runtime/match-publisher-worker.ts.
use hive_chameleon.Prelude.{
  ℕ, String, ◌+◌, ◌≡◌, refl, sym, subst, ◌∙◌, arith, eq_iff, ap, Bool, true, false, Option, none,
  some, List, ◌∷◌, if◌then◌else◌,
}
use hive_chameleon.Exec.{Result, ok, err, Exec}
use hive_chameleon.Exec.Triple.{
  Post-result, Triple, Triple-pure, Triple-unless, Triple-bind, Triple-bind-lift, Triple-given,
  Triple-pre, Triple-post, Triple-fixed, Triple-failing, Triple-rescue,
}
use hive_chameleon.Gateway.Contracts.{
  HiveChainPort, PreparedOfficialEvent, IsolatedSignerRequest, IsolatedSignerResponse,
  GatewayFailure,
}
use hive_chameleon.Gateway.Send.{GatewayWorld}
use hive_chameleon.Gateway.Send.Silence.{Silent}
use hive_chameleon.Gateway.Send.Laws.{Sent, HasSent, IsDelivered, Triple-IsDelivered}
use hive_chameleon.Gateway.Send.Prepare.{IsPrepared, Triple-IsPrepared}
use hive_chameleon.Outbox.Laws.{At, Triple-call_store, Triple-reading, Triple-through_gateway}
use hive_chameleon.Publisher.Batch.{Platform, configuration_invalid}
use hive_chameleon.Publisher.Worker.{
  MatchPublicationStore, MatchPublisherWorkerOptions, MatchOutboxAttempt, StoreCall, recorded,
  marked_broadcast, marked_failure, PublicationFailure, publisher_error, Publication, broadcast,
  failed, Progress, World, intent_of, signing_record, send_prepared, try_publish, mark_failure,
  publish_attempt, retry_backoff, stable_error_code, transaction_of, checked_signing_attempt_id,
}

refused_code :
    (value : String) (e : PublicationFailure)
    → checked_signing_attempt_id value ≡ err e
    → e ≡ publisher_error configuration_invalid
unfolding checked_signing_attempt_id
refused_code value e h = ground arith

module _ (platform : Platform) (chain : HiveChainPort) {N S : Type 0}
    (sign : IsolatedSignerRequest → Exec N GatewayFailure IsolatedSignerResponse)
    (store : MatchPublicationStore S) (options : MatchPublisherWorkerOptions)
    (attempt : MatchOutboxAttempt) (started : ℕ) (calls : List (StoreCall × Bool))
    (broadcasts : List String) where
  abbrev Worlds : Type 0
  Worlds = World platform chain sign store options

  -- The event of the attempt, prepared by the gateway with the frozen bytes as its payload.
  pub record IsFrozenEvent (prepared : PreparedOfficialEvent) : Type 0 where
    pub prepared_by_gateway :
        IsPrepared platform.library chain sign
          (intent_of platform chain sign store options attempt)
          options.authorization
          prepared
    pub bytes : prepared.canonical_payload ≡ attempt.canonical_payload

  abbrev pub entry_of : String → PreparedOfficialEvent → StoreCall
  entry_of id prepared =
      recorded (signing_record platform chain sign store options attempt started id prepared)

  -- The `try` block has thrown: the variables as the `catch` finds them, the calls of the store,
  -- and the gateway.
  pub data IsBroken (id : String)
      : Progress → List (StoreCall × Bool) → GatewayWorld N → Type 0 where
    unprepared :
        (prepared : Option PreparedOfficialEvent) (log : List (StoreCall × Bool))
        (gateway : GatewayWorld N)
        → log ≡ calls
        → gateway.broadcasts ≡ broadcasts
        → IsBroken id (record { prepared = prepared; journaled = false }) log gateway
    unrecorded :
        (prepared : PreparedOfficialEvent) (log : List (StoreCall × Bool))
        (gateway : GatewayWorld N)
        → IsFrozenEvent prepared
        → log ≡ (entry_of id prepared, false) ∷ calls
        → gateway.broadcasts ≡ broadcasts
        → IsBroken id (record { prepared = some prepared; journaled = false }) log gateway
    unsent :
        (prepared : PreparedOfficialEvent) (log : List (StoreCall × Bool))
        (gateway : GatewayWorld N)
        → IsFrozenEvent prepared
        → log ≡ (entry_of id prepared, true) ∷ calls
        → HasSent platform.library chain sign prepared broadcasts gateway
        → IsBroken id (record { prepared = some prepared; journaled = true }) log gateway
    unmarked :
        (prepared : PreparedOfficialEvent) (log : List (StoreCall × Bool))
        (gateway : GatewayWorld N) (broadcast_at : ℕ)
        → IsFrozenEvent prepared
        → log
          ≡ (marked_broadcast attempt.outbox_id id prepared.transaction_id broadcast_at, false)
            ∷ (entry_of id prepared, true)
            ∷ calls
        → Sent platform.library chain sign prepared broadcasts gateway
        → IsBroken id (record { prepared = some prepared; journaled = true }) log gateway

  -- The `try` block has returned: the signing attempt was recorded first, then one transaction
  -- with a verified signature was broadcast, and the broadcast was recorded.
  pub record IsPublished (id : String) (log : List (StoreCall × Bool)) (gateway : GatewayWorld N)
      : Type 0 where
    pub prepared : PreparedOfficialEvent
    pub event : IsFrozenEvent prepared
    pub broadcast_at : ℕ
    pub entries :
        log
        ≡ (marked_broadcast attempt.outbox_id id prepared.transaction_id broadcast_at, true)
          ∷ (entry_of id prepared, true)
          ∷ calls
    pub sent : Sent platform.library chain sign prepared broadcasts gateway

  Triple-send_prepared :
      (id : String) (prepared : PreparedOfficialEvent)
      → IsFrozenEvent prepared
      → Triple
          (At {S = S} calls (Silent broadcasts))
          (send_prepared platform chain sign store options attempt started id prepared)
          (λ p w. (p ≡ broadcast) × IsPublished id w.calls w.gateway)
          (λ thrown w. IsBroken id thrown.0 w.calls w.gateway)
  unfolding send_prepared
  Triple-send_prepared id prepared frozen =
      let log : List (StoreCall × Bool) = (entry_of id prepared, true) ∷ calls in
      Triple-bind _ _
        (Triple-failing _ _ (Triple-call_store calls (Silent broadcasts) _ _)
          λ e w p. unrecorded prepared w.calls w.gateway frozen p.0 p.1)
        λ u.
          Triple-bind _ _
            (Triple-failing _ _
              (Triple-through_gateway log _ _
                (Triple-IsDelivered platform.library chain sign prepared broadcasts))
              λ e w p. unsent prepared w.calls w.gateway frozen p.0 p.1)
            λ result.
              Triple-bind _ _
                (Triple-reading log
                  (IsDelivered platform.library chain sign prepared broadcasts result) options.now
                  _)
                λ broadcast_at. Triple-given _ λ w₀ known.
                  let same : marked_broadcast attempt.outbox_id id result.transaction_id
                        broadcast_at
                      ≡ marked_broadcast attempt.outbox_id id prepared.transaction_id broadcast_at =
                    ap (λ t. marked_broadcast attempt.outbox_id id t broadcast_at) known.1.1.0 in
                  Triple-bind _ _
                    (Triple-failing _ _
                      (Triple-pre _
                        (Triple-call_store log
                          (IsDelivered platform.library chain sign prepared broadcasts result) _ _)
                        λ w p. p.1)
                      λ e w p.
                        unmarked prepared w.calls w.gateway broadcast_at frozen
                          (p.0 ∙ ap (λ c. (c, false) ∷ log) same) p.1.1)
                    λ v. Triple-pure _ λ w p. (
                      refl,
                      record {
                        prepared = prepared;
                        event = frozen;
                        broadcast_at = broadcast_at;
                        entries = p.0 ∙ ap (λ c. (c, true) ∷ log) same;
                        sent = p.1.1;
                      },
                    )

  Triple-try_publish :
      (id : String)
      → Triple
          (At {S = S} calls (Silent broadcasts))
          (try_publish platform chain sign store options attempt started id)
          (λ p w. (p ≡ broadcast) × IsPublished id w.calls w.gateway)
          (λ thrown w. IsBroken id thrown.0 w.calls w.gateway)
  unfolding try_publish
  Triple-try_publish id =
      Triple-bind _ _
        (Triple-failing _ _
          (Triple-through_gateway calls _ _ (
            Triple-IsPrepared platform.library chain sign
              (intent_of platform chain sign store options attempt) options.authorization
              broadcasts))
          λ e w p. unprepared none w.calls w.gateway p.0 p.1)
        λ prepared. Triple-given _ λ w₀ known.
          Triple-unless _ _ _ (λ e w p. unprepared (some prepared) w.calls w.gateway p.0 p.1.0)
            λ e.
              Triple-pre _
                (Triple-send_prepared id prepared (record {
                  prepared_by_gateway = known.1.1;
                  bytes =
                      ground (arith, eq_iff prepared.canonical_payload attempt.canonical_payload);
                }))
                λ w p. (p.0, p.1.0)

  -- The failure as it is marked: the signing attempt only where it was recorded, the transaction
  -- only where it was prepared, and the time of the next try.
  abbrev pub failure_of : String → Progress → PublicationFailure → ℕ → StoreCall
  failure_of id progress error now =
      marked_failure attempt.outbox_id (if progress.journaled then some id else none)
        (transaction_of progress.prepared) (stable_error_code error)
        (now
          + retry_backoff attempt.attempt_count options.initial_retry_backoff_ms
              options.maximum_retry_backoff_ms)

  -- The failure of a broken `try` block was marked, or the call that marks it has thrown.
  pub record IsMarked (returned : Bool) (log : List (StoreCall × Bool)) (gateway : GatewayWorld N)
      : Type 0 where
    pub id : String
    pub progress : Progress
    pub broken_log : List (StoreCall × Bool)
    pub broken : IsBroken id progress broken_log gateway
    pub error : PublicationFailure
    pub tick : ℕ
    pub entries : log ≡ (failure_of id progress error (options.now tick), returned) ∷ broken_log

  Triple-mark_failure :
      (id : String) (progress : Progress) (error : PublicationFailure)
      → Triple {W = Worlds}
          (λ w. IsBroken id progress w.calls w.gateway)
          (mark_failure platform chain sign store options attempt id (progress, error))
          (λ p w. (p ≡ failed) × IsMarked true w.calls w.gateway)
          (λ e w. IsMarked false w.calls w.gateway)
  unfolding mark_failure
  Triple-mark_failure id progress error = Triple-fixed _ λ w₀ broken₀.
      let here : GatewayWorld N → Type 0 = λ g. IsBroken id progress w₀.calls g in
      Triple-bind _ _
        (Triple-pre _ (Triple-reading w₀.calls here options.now _)
          λ w same. (ap (λ w. w.calls) same, subst (λ w. here w.gateway) (sym same) broken₀))
        λ now. Triple-given _ λ w₁ known.
          let mark : (returned : Bool) (w : Worlds)
              → At ((failure_of id progress error now, returned) ∷ w₀.calls) here w
              → IsMarked returned w.calls w.gateway =
            λ returned w p. record {
              id = id;
              progress = progress;
              broken_log = w₀.calls;
              broken = p.1;
              error = error;
              tick = known.0.0;
              entries =
                  p.0 ∙ ap (λ n. (failure_of id progress error n, returned) ∷ w₀.calls) known.0.1;
            } in
          Triple-bind _ _
            (Triple-post _ (Triple-pre _ (Triple-call_store w₀.calls here _ _) λ w p. p.1)
              (λ u w p. p) (λ e w p. mark false w p))
            λ u. Triple-pure _ λ w p. (refl, mark true w p)

  -- How an attempt may end: the id is no UUID and nothing was called; the batch was published; or
  -- a failure was marked, or the call that marks it has thrown.
  pub data IsSettled : Result PublicationFailure Publication → Worlds → Type 0 where
    refused :
        (w : Worlds)
        → At calls (Silent broadcasts) w
        → IsSettled (err (publisher_error configuration_invalid)) w
    published :
        (w : Worlds) (id : String) → IsPublished id w.calls w.gateway → IsSettled (ok broadcast) w
    postponed : (w : Worlds) → IsMarked true w.calls w.gateway → IsSettled (ok failed) w
    stuck :
        (w : Worlds) (e : PublicationFailure)
        → IsMarked false w.calls w.gateway
        → IsSettled (err e) w

  pub Triple-publish_attempt :
      Triple
        (At calls (Silent broadcasts))
        (publish_attempt platform chain sign store options attempt started)
        (λ p. IsSettled (ok p))
        (λ e. IsSettled (err e))
  unfolding publish_attempt
  Triple-publish_attempt =
      Triple-bind _ _ (Triple-reading calls (Silent broadcasts) options.next_uuid_v7 _) λ value.
        Triple-bind-lift _ _
          (λ id valid.
            Triple-post _
              (Triple-pre _
                (Triple-rescue _ _
                  (Triple-post _ (Triple-try_publish id)
                    (λ p w h. subst (λ p. IsSettled (ok p) w) (sym h.0) (published w id h.1))
                    (λ thrown w h. h))
                  λ thrown.
                    Triple-post _ (Triple-mark_failure id thrown.0 thrown.1)
                      (λ p w h. subst (λ p. IsSettled (ok p) w) (sym h.0) (postponed w h.1))
                      (λ e w h. stuck w e h))
                λ w p. p.1)
              (λ p w h. h) (λ e w h. h))
          (λ e bad w p.
            subst (λ e. IsSettled (err e) w) (sym (refused_code value e bad)) (refused w p.1))

  -- An attempt to publish ends in one of four ways. The worker's id is no UUID, and nothing is
  -- called or broadcast. Or the signing attempt is recorded with the hash and the transaction of
  -- the event that the gateway prepared from the claimed outbox row, whose payload is the frozen
  -- bytes; then exactly one transaction is broadcast, the prepared one with a verified signature;
  -- then the broadcast is marked. Or something throws on the way: at most one transaction is
  -- broadcast, and none before the signing attempt is recorded; and the failure is marked last,
  -- with the signing attempt exactly where it was recorded. Or marking the failure throws itself.
  pub publish_attempt-IsSettled :
      (w : Worlds)
      → w.calls ≡ calls
      → w.gateway.broadcasts ≡ broadcasts
      → IsSettled
          (publish_attempt platform chain sign store options attempt started w).0
          (publish_attempt platform chain sign store options attempt started w).1
  publish_attempt-IsSettled w hc hb =
      Post-result IsSettled (publish_attempt platform chain sign store options attempt started w)
        (Triple-publish_attempt.at w (hc, hb))
