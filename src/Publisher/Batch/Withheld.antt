-- ===== src/Publisher/Batch/Withheld.antt =====
-- When `planMatchBatch` answers `null`: workers/match-publisher/src/batch-builder.ts.
use hive_chameleon.Prelude.{
  ℕ, zero, suc, ◌+◌, String, Bool, false, ◌≡◌, ◌≤◌, ◌<◌, refl, sym, ap, ◌∙◌, subst, arith, Option,
  none, some, List, [], ◌∷◌, ◌==◌, length, take,
}
use hive_chameleon.Exec.{ok}
use hive_chameleon.Gateway.Protocol.Event.{MatchBatch}
use hive_chameleon.Gateway.Protocol.Codec.Roundtrip.{bind_ok}
use hive_chameleon.Publisher.Batch.{
  MatchPublicationCandidate, BatchFrame, Platform, MatchBatchPolicy, sort, completion,
  validate_policy, age_limit_reached, frame_of, freeze, plan_ordered, plan_at, plan_match_batch,
}
use hive_chameleon.Publisher.Batch.Plan.{length-take, HasRun, plan_ordered-ok, selection}

-- A prefix shorter than its bound is the whole list.
take_short : (n : ℕ) (cs : List MatchPublicationCandidate) → length (take n cs) < n → take n cs ≡ cs
take_short zero cs h = ground (arith, h)
take_short (suc n) [] h = refl
take_short (suc n) (c ∷ cs) h = ap (λ l. c ∷ l) (take_short n cs (omega (arith, h)))

head_eq :
    {c d : MatchPublicationCandidate} {cs ds : List MatchPublicationCandidate}
    → c ∷ cs ≡ d ∷ ds
    → c ≡ d
head_eq h = ground (arith, h)

module _ (platform : Platform) (policy : MatchBatchPolicy) where
  -- What is known where `planMatchBatch` answers `null`: all candidates were taken, fewer than a
  -- batch may hold, and the oldest is younger than the limit.
  pub record IsWithheld (now : ℕ) (candidates : List MatchPublicationCandidate) : Type 0 where
    pub few : length (sort platform candidates) < policy.maximum_results
    pub young :
        (oldest : ℕ) (c : MatchPublicationCandidate) (rest : List MatchPublicationCandidate)
        → sort platform candidates ≡ c ∷ rest
        → completion platform c ≡ some oldest
        → now < policy.maximum_age_ms + oldest

  freeze-none :
      (frame : BatchFrame) (aged : Bool) (selected : List MatchPublicationCandidate)
      (payload : String) (chosen : Option MatchBatch) (limit : Bool)
      → freeze platform policy frame aged (record {
        selected = selected;
        selected_payload = payload;
        selected_event = chosen;
        payload_limit_reached = limit;
      })
        ≡ ok none
      → (aged ≡ false) × ((length selected == policy.maximum_results) ≡ false) × (limit ≡ false)
  unfolding freeze
  freeze-none frame aged selected payload none limit h = ground arith
  freeze-none frame aged selected payload (some event) limit h = ground arith

  -- The oldest completion, against the clock.
  not_aged :
      (now : ℕ) (oldest : ℕ) (known : Option ℕ)
      → age_limit_reached platform policy now known ≡ false
      → known ≡ some oldest
      → now < policy.maximum_age_ms + oldest
  unfolding age_limit_reached
  not_aged now oldest none h k = ground (arith, h, k)
  not_aged now oldest (some found) h k = ground (arith, h, k)

  withheld :
      (now : ℕ) (rest : List MatchPublicationCandidate) (first : MatchPublicationCandidate)
      → HasRun platform policy now first rest none
      → (length (first ∷ rest) < policy.maximum_results)
        × ((oldest : ℕ)
            → completion platform first ≡ some oldest
            → now < policy.maximum_age_ms + oldest)
  withheld now rest first run =
      let frame = frame_of platform policy now first rest in
      let chosen = selection platform policy now first rest none run in
      let (young, few, fitting) =
        freeze-none frame _ run.s.selected run.s.selected_payload run.s.selected_event
          run.s.payload_limit_reached run.freezes in
      let whole = chosen.whole fitting in
      let shorter : length (take policy.maximum_results (first ∷ rest)) < policy.maximum_results =
        grind (arith, length-take policy.maximum_results (first ∷ rest), ap length whole) in
      let all_taken = take_short policy.maximum_results (first ∷ rest) shorter in
      (
        subst (λ l. length l < policy.maximum_results) all_taken shorter,
        λ oldest e. not_aged now oldest (completion platform first) young e,
      )

  IsWithheld-sorted :
      (now : ℕ) (candidates sorted : List MatchPublicationCandidate)
      → 1 ≤ policy.maximum_results
      → sort platform candidates ≡ sorted
      → plan_ordered platform policy now sorted ≡ ok none
      → IsWithheld now candidates
  IsWithheld-sorted now candidates [] positive e h = record {
    few = subst (λ l. length l < policy.maximum_results) (sym e) (omega (arith, positive));
    young = λ oldest c rest k. ground (arith, e, k);
  }
  IsWithheld-sorted now candidates (first ∷ rest) positive e h =
      let (few, young) =
        withheld now rest first (plan_ordered-ok platform policy now first rest none h) in
      record {
        few = subst (λ l. length l < policy.maximum_results) (sym e) few;
        young = λ oldest c others k known.
            young oldest (ap (completion platform) (head_eq (sym e ∙ k)) ∙ known);
      }

  validate_policy-positive : (u : Unit) → validate_policy policy ≡ ok u → 1 ≤ policy.maximum_results
  unfolding validate_policy
  validate_policy-positive u h = ground arith

  -- Results wait only while they are few and young: where no batch is planned, the candidates are
  -- fewer than a batch may hold, and the first in the order of publication was completed less than
  -- the maximal age ago.
  pub plan_match_batch-IsWithheld :
      (candidates : List MatchPublicationCandidate) (now : ℕ)
      → plan_match_batch platform policy candidates (some now) ≡ ok none
      → IsWithheld now candidates
  unfolding plan_match_batch plan_at
  plan_match_batch-IsWithheld candidates now h =
      let (u, valid, h₁) = bind_ok (validate_policy policy) _ _ h in
      IsWithheld-sorted now candidates _ (validate_policy-positive u valid) refl h₁
