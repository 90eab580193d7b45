-- ===== src/Publisher/Worker/Journal.antt =====
-- The journal of the publishing worker over all its cycles: `processOnce` and `run` of
-- workers/match-publisher/src/runtime/match-publisher-worker.ts.
use hive_chameleon.Prelude.{
  ◌+◌, ℕ, String, ◌≡◌, refl, sym, subst, inl, inr, Bool, true, false, Option, none, some, List, [],
  ◌∷◌, is_some,
}
use hive_chameleon.Exec.{Result, ok, err, Exec}
use hive_chameleon.Exec.Triple.{
  Post, Triple, Post-const, Post-either, Post-mono, Keeps, Triple-pure, Triple-bind,
}
use hive_chameleon.Gateway.Contracts.{
  HiveChainPort, PreparedOfficialEvent, IsolatedSignerRequest, IsolatedSignerResponse,
  GatewayFailure,
}
use hive_chameleon.Gateway.Send.Laws.{IsSigned, Sent}
use hive_chameleon.Outbox.{call_store, reading, returned}
use hive_chameleon.Publisher.Batch.{Platform}
use hive_chameleon.Publisher.Worker.{
  MatchPublicationStore, MatchPublisherWorkerOptions, MatchOutboxAttempt, StoreCall, claimed,
  PublicationFailure, Publication, World, Progress, publish_attempt, publish_claimed, process_once,
  run_rounds,
}
use hive_chameleon.Publisher.Worker.Attempt.{
  IsFrozenEvent, entry_of, IsBroken, unprepared, unrecorded, unsent, unmarked, IsMarked, IsSettled,
  refused, published, postponed, stuck, Triple-publish_attempt,
}

module _ (platform : Platform) (chain : HiveChainPort) {N S : Type 0}
    (sign : IsolatedSignerRequest → Exec N GatewayFailure IsolatedSignerResponse)
    (store : MatchPublicationStore S) (options : MatchPublisherWorkerOptions) where
  abbrev Worlds : Type 0
  Worlds = World platform chain sign store options

  -- The row of an attempt: what a claim returned in some state of the store, as the last call that
  -- the log holds. The cycle started at the time of that claim.
  pub record IsClaimed (attempt : MatchOutboxAttempt) (started : ℕ)
      (calls : List (StoreCall × Bool)) : Type 0 where
    pub state : S
    pub answer :
        (store.claim_next_outbox started (started + options.claim_lease_ms) state).0
        ≡ ok (some attempt)
    pub earlier : List (StoreCall × Bool)
    pub logged : calls ≡ (claimed (started + options.claim_lease_ms), true) ∷ earlier

  -- Each broadcast has two entries of its own in the log of the store: the claim that returned the
  -- outbox row, and right after it the record of the signing attempt, which returned as well. The
  -- event is that of the row, with its frozen bytes, and what was broadcast is its prepared
  -- transaction with a verified signature.
  pub data IsJournaled : List (StoreCall × Bool) → List String → Type 0 where
    start : IsJournaled [] []
    called :
        {calls : List (StoreCall × Bool)} {broadcasts : List String} (call : StoreCall × Bool)
        → IsJournaled calls broadcasts
        → IsJournaled (call ∷ calls) broadcasts
    sent :
        {calls : List (StoreCall × Bool)} {broadcasts : List String} (attempt : MatchOutboxAttempt)
        (started : ℕ) (id : String) (prepared : PreparedOfficialEvent) (signed : String)
        → IsClaimed attempt started calls
        → IsFrozenEvent platform chain sign store options attempt started calls broadcasts prepared
        → IsSigned platform.library chain sign prepared broadcasts signed
        → IsJournaled calls broadcasts
        → IsJournaled
            ((
              entry_of platform chain sign store options attempt started calls broadcasts id
                  prepared,
              true,
            )
              ∷ calls)
            (signed ∷ broadcasts)

  abbrev pub Journaled : Worlds → Type 0
  Journaled w = IsJournaled w.calls w.gateway.broadcasts

  IsJournaled-eq :
      {log log' : List (StoreCall × Bool)} {bs bs' : List String}
      → log ≡ log'
      → bs ≡ bs'
      → IsJournaled log' bs'
      → IsJournaled log bs
  IsJournaled-eq {log = log} {bs' = bs'} hl hb j =
      subst (IsJournaled log) (sym hb) (subst (λ l. IsJournaled l bs') (sym hl) j)

  module _ (attempt : MatchOutboxAttempt) (started : ℕ) (calls : List (StoreCall × Bool))
      (broadcasts : List String) (claim : IsClaimed attempt started calls)
      (journaled : IsJournaled calls broadcasts) where
    IsJournaled-sent :
        (id : String) (prepared : PreparedOfficialEvent) (w : Worlds)
        (log : List (StoreCall × Bool))
        → IsFrozenEvent platform chain sign store options attempt started calls broadcasts prepared
        → Sent platform.library chain sign prepared broadcasts w.gateway
        → log
          ≡ (
            entry_of platform chain sign store options attempt started calls broadcasts id prepared,
            true,
          )
            ∷ calls
        → IsJournaled log w.gateway.broadcasts
    IsJournaled-sent id prepared w log frozen (signed, hb, signature) hl =
        IsJournaled-eq hl hb
          (sent attempt started id prepared signed claim frozen signature journaled)

    IsJournaled-broken :
        (id : String) (progress : Progress) (log : List (StoreCall × Bool)) (w : Worlds)
        → IsBroken platform chain sign store options attempt started calls broadcasts id progress
            log w.gateway
        → IsJournaled log w.gateway.broadcasts
    IsJournaled-broken id _ log w (unprepared prepared _ _ hl hb) = IsJournaled-eq hl hb journaled
    IsJournaled-broken id _ log w (unrecorded prepared _ _ frozen hl hb) =
        IsJournaled-eq hl hb (called _ journaled)
    IsJournaled-broken id _ log w (unsent prepared _ _ frozen hl (inl hb)) =
        IsJournaled-eq hl hb (called _ journaled)
    IsJournaled-broken id _ log w (unsent prepared _ _ frozen hl (inr s)) =
        IsJournaled-sent id prepared w log frozen s hl
    IsJournaled-broken id _ log w (unmarked prepared _ _ at frozen hl s) =
        IsJournaled-eq hl refl (called _ (IsJournaled-sent id prepared w _ frozen s refl))

    IsJournaled-marked :
        (returned : Bool) (w : Worlds)
        → IsMarked platform chain sign store options attempt started calls broadcasts returned
            w.calls w.gateway
        → Journaled w
    IsJournaled-marked returned w m =
        IsJournaled-eq m.entries refl
          (called _ (IsJournaled-broken m.id m.progress m.broken_log w m.broken))

    IsJournaled-settled :
        (r : Result PublicationFailure Publication) (w : Worlds)
        → IsSettled platform chain sign store options attempt started calls broadcasts r w
        → Journaled w
    IsJournaled-settled _ w (refused _ h) = IsJournaled-eq h.0 h.1 journaled
    IsJournaled-settled _ w (published _ id p) =
        IsJournaled-eq p.entries refl
          (called _ (IsJournaled-sent id p.prepared w _ p.event p.sent refl))
    IsJournaled-settled _ w (postponed _ m) = IsJournaled-marked true w m
    IsJournaled-settled _ w (stuck _ e m) = IsJournaled-marked false w m

  Keeps-reading :
      {A : Type 0} (answer : ℕ → A) → Keeps {E = PublicationFailure} Journaled (reading answer)
  unfolding reading Post
  Keeps-reading answer = record { at = λ w p. p }

  Keeps-call :
      {A : Type 0} (c : StoreCall) (m : Exec S PublicationFailure A)
      → Keeps Journaled (call_store c m)
  unfolding call_store
  Keeps-call c m = record { at = λ w p. Post-const Journaled (m w.store).0 _ (called _ p) }

  abbrev Anew : Option MatchOutboxAttempt → ℕ → Worlds → Type 0
  Anew none started w = Journaled w
  Anew (some attempt) started w = Journaled w × IsClaimed attempt started w.calls

  Triple-attempt :
      (attempt : MatchOutboxAttempt) (started : ℕ)
      → Triple
          (Anew (some attempt) started)
          (publish_attempt platform chain sign store options attempt started)
          (λ p. Journaled)
          (λ e. Journaled)
  Triple-attempt attempt started = record {
    at = λ w p.
        Post-mono (publish_attempt platform chain sign store options attempt started w)
          (λ r w' h.
            IsJournaled-settled attempt started w.calls w.gateway.broadcasts p.1 p.0 (ok r) w' h)
          (λ e w' h.
            IsJournaled-settled attempt started w.calls w.gateway.broadcasts p.1 p.0 (err e) w' h)
          ((Triple-publish_attempt platform chain sign store options attempt started w.calls
              w.gateway.broadcasts).at
            w (refl, refl));
  }

  Triple-claimed :
      (frozen : Bool) (rows now : ℕ) (claim : Option MatchOutboxAttempt)
      → Triple
          (Anew claim now)
          (publish_claimed platform chain sign store options frozen rows now claim)
          (λ r. Journaled)
          (λ e. Journaled)
  unfolding publish_claimed
  Triple-claimed frozen rows now none = Triple-pure _ λ w p. p
  Triple-claimed frozen rows now (some attempt) =
      Triple-bind _ _ (Triple-attempt attempt now) λ publication. Triple-pure _ λ w p. p

  -- What a claim that is answered so establishes.
  claim_logged :
      (started : ℕ) (w : Worlds) (x : Result PublicationFailure (Option MatchOutboxAttempt) × S)
      → (store.claim_next_outbox started (started + options.claim_lease_ms) w.store).0 ≡ x.0
      → Journaled w
      → Post
          (λ claim. Anew claim started)
          (λ e. Journaled)
          (
            x.0,
            record w {
              store = x.1;
              calls = (claimed (started + options.claim_lease_ms), returned x.0) ∷ w.calls;
            },
          )
  unfolding Post
  claim_logged started w (ok none, s) e p = called _ p
  claim_logged started w (ok (some attempt), s) e p =
      (called _ p, record { state = w.store; answer = e; earlier = w.calls; logged = refl })
  claim_logged started w (err thrown, s) e p = called _ p

  Triple-claim :
      (started : ℕ)
      → Triple Journaled
          (call_store
            (claimed (started + options.claim_lease_ms))
            (store.claim_next_outbox started (started + options.claim_lease_ms)))
          (λ claim. Anew claim started)
          (λ e. Journaled)
  unfolding call_store
  Triple-claim started = record {
    at = λ w p.
        claim_logged started w
          (store.claim_next_outbox started (started + options.claim_lease_ms) w.store) refl p;
  }

  Keeps-process_once : Keeps Journaled (process_once platform chain sign store options)
  unfolding process_once
  Keeps-process_once = Triple-bind _ _ (Keeps-reading options.now) λ now.
      Triple-bind _ _ (Keeps-call _ _) λ rows. Triple-bind _ _ (Keeps-call _ _) λ batch.
        Triple-bind _ _ (Triple-claim now) λ claim. Triple-claimed (is_some batch) rows now claim

  -- However long the worker runs, whatever the store, the chain and the signer answer and wherever
  -- they throw: each broadcast has its own record of a signing attempt in the log, right after the
  -- claim that returned the outbox row of the attempt. The event that was prepared is the one of
  -- that row, with the row's frozen bytes as its payload; and what was broadcast is the prepared
  -- transaction with a signature that recovers the publisher's key.
  pub run_rounds-IsJournaled :
      (rounds : List Bool) (w : Worlds)
      → Journaled w
      → Journaled (run_rounds platform chain sign store options rounds w).1
  unfolding run_rounds
  run_rounds-IsJournaled [] w j = j
  run_rounds-IsJournaled (true ∷ rounds) w j = j
  run_rounds-IsJournaled (false ∷ rounds) w j =
      run_rounds-IsJournaled rounds (process_once platform chain sign store options w).1 (
        Post-either Journaled (process_once platform chain sign store options w)
          (Keeps-process_once.at w j))
