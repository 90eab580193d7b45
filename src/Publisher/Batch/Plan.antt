-- ===== src/Publisher/Batch/Plan.antt =====
-- What `planMatchBatch` answers: workers/match-publisher/src/batch-builder.ts.
use hive_chameleon.Prelude.{
  ℕ, zero, suc, String, Bool, ◌≡◌, ◌≤◌, ◌⊎◌, refl, sym, ap, ◌∙◌, subst, arith, Option, none, some,
  List, [], ◌∷◌, map, length, take, inl, inr,
}
use hive_chameleon.Exec.{ok}
use hive_chameleon.Gateway.Library.{byte_length}
use hive_chameleon.Gateway.Protocol.Event.{MatchBatch, match_results_batch}
use hive_chameleon.Gateway.Protocol.Codec.{serialize_hive_chameleon_event}
use hive_chameleon.Gateway.Protocol.Codec.Roundtrip.{bind_ok}
use hive_chameleon.Publisher.Batch.{
  MatchPublicationCandidate, BatchFrame, Selected, create_event, nothing_selected, select, Platform,
  MatchBatchPolicy, FrozenMatchBatch, sort, completion, validate_policy, assert_candidates,
  checked_uuid, age_limit_reached, frame_of, freeze, plan_ordered, plan_at, plan_match_batch,
}
use hive_chameleon.Publisher.Batch.Selection.{IsCurrent, HasSelected, select-ok}

pub length-take : (n : ℕ) (cs : List MatchPublicationCandidate) → length (take n cs) ≤ n
length-take zero cs = omega arith
length-take (suc n) [] = omega arith
length-take (suc n) (c ∷ cs) = omega (arith, length-take n cs)

take-take :
    (m n : ℕ) (cs : List MatchPublicationCandidate)
    → (k : ℕ) × (take m (take n cs) ≡ take k cs) × (k ≤ n)
take-take zero n cs = (0, refl, omega arith)
take-take (suc m) zero cs = (0, refl, omega arith)
take-take (suc m) (suc n) [] = (0, refl, omega arith)
take-take (suc m) (suc n) (c ∷ cs) =
    let (k, same, bound) = take-take m n cs in (suc k, ap (λ l. c ∷ l) same, omega (arith, bound))

bounded_by :
    {bound : ℕ} (k : ℕ) (cs chosen : List MatchPublicationCandidate)
    → chosen ≡ take k cs
    → k ≤ bound
    → length chosen ≤ bound
bounded_by {bound} k cs chosen e h =
    subst (λ l. length l ≤ bound) (sym e) (omega (arith, length-take k cs, h))

module _ (platform : Platform) (policy : MatchBatchPolicy) where
  -- A batch of the first candidates, whose payload is the canonical text of its event and fits.
  pub record IsPlanned (candidates : List MatchPublicationCandidate) (batch : FrozenMatchBatch)
      : Type 0 where
    pub count : ℕ
    pub first : batch.candidates ≡ take count (sort platform candidates)
    pub bounded : length batch.candidates ≤ policy.maximum_results
    pub results : batch.event.results ≡ map (λ c. c.public_result) batch.candidates
    pub counted : batch.event.result_count ≡ length batch.candidates
    pub serialized :
        serialize_hive_chameleon_event platform.library (match_results_batch batch.event)
        ≡ ok batch.canonical_payload
    pub fits : byte_length batch.canonical_payload ≤ policy.maximum_payload_bytes
    pub measured : batch.payload_byte_count ≡ byte_length batch.canonical_payload

  -- The frozen batch has the selected candidates and their event.
  pub record IsFrozen (frame : BatchFrame) (s : Selected) (batch : FrozenMatchBatch) : Type 0 where
    pub candidates : batch.candidates ≡ s.selected
    pub event : s.selected_event ≡ some batch.event
    pub payload : batch.canonical_payload ≡ s.selected_payload
    pub measured : batch.payload_byte_count ≡ byte_length batch.canonical_payload

  freeze-some :
      (frame : BatchFrame) (aged : Bool) (selected : List MatchPublicationCandidate)
      (payload : String) (chosen : Option MatchBatch) (limit : Bool) (batch : FrozenMatchBatch)
      → freeze platform policy frame aged (record {
        selected = selected;
        selected_payload = payload;
        selected_event = chosen;
        payload_limit_reached = limit;
      })
        ≡ ok (some batch)
      → IsFrozen frame
          (record {
            selected = selected;
            selected_payload = payload;
            selected_event = chosen;
            payload_limit_reached = limit;
          })
          batch
  unfolding freeze
  freeze-some frame aged selected payload none limit batch h = ground arith
  freeze-some frame aged selected payload (some event) limit batch h = record {
    candidates = ground arith;
    event = ground arith;
    payload = ground arith;
    measured = ground arith;
  }

  -- The loop has ended with `s`, and its end gave the answer.
  pub record HasRun (now : ℕ) (first : MatchPublicationCandidate)
      (rest : List MatchPublicationCandidate) (answer : Option FrozenMatchBatch) : Type 0 where
    pub s : Selected
    pub selects :
        select platform.library policy.maximum_payload_bytes
          (frame_of platform policy now first rest)
          (take policy.maximum_results (first ∷ rest))
          nothing_selected
        ≡ ok s
    pub freezes :
        freeze platform policy
          (frame_of platform policy now first rest)
          (age_limit_reached platform policy now (completion platform first))
          s
        ≡ ok answer

  pub plan_ordered-ok :
      (now : ℕ) (first : MatchPublicationCandidate) (rest : List MatchPublicationCandidate)
      (answer : Option FrozenMatchBatch)
      → plan_ordered platform policy now (first ∷ rest) ≡ ok answer
      → HasRun now first rest answer
  unfolding plan_ordered
  plan_ordered-ok now first rest answer h =
      let (a, e, h₁) = bind_ok (assert_candidates platform now [] [] (first ∷ rest)) _ answer h in
      let (b, e', h₂) = bind_ok (checked_uuid policy.next_event_id) _ answer h₁ in
      let (c, e'', h₃) = bind_ok (checked_uuid policy.next_batch_id) _ answer h₂ in
      let (d, e''', h₄) = bind_ok (checked_uuid policy.next_outbox_id) _ answer h₃ in
      let (s, selects, freezes) =
        bind_ok
          (select platform.library policy.maximum_payload_bytes
            (frame_of platform policy now first rest) (take policy.maximum_results (first ∷ rest))
            nothing_selected)
          _ answer h₄ in
      record { s = s; selects = selects; freezes = freezes }

  start-IsCurrent :
      (frame : BatchFrame)
      → IsCurrent platform.library policy.maximum_payload_bytes frame nothing_selected
  start-IsCurrent frame = record {
    event = inl refl;
    serialized = λ event k. ground arith;
    fits = λ event k. ground arith;
  }

  pub selection :
      (now : ℕ) (first : MatchPublicationCandidate) (rest : List MatchPublicationCandidate)
      (answer : Option FrozenMatchBatch) (run : HasRun now first rest answer)
      → HasSelected platform.library policy.maximum_payload_bytes
          (frame_of platform policy now first rest)
          (take policy.maximum_results (first ∷ rest))
          nothing_selected
          run.s
  selection now first rest answer run =
      select-ok platform.library policy.maximum_payload_bytes _ _ nothing_selected run.s run.selects
        (start-IsCurrent _)

  event_of :
      (frame : BatchFrame) (s : Selected) (event : MatchBatch)
      → (s.selected_event ≡ none) ⊎ (s.selected_event ≡ some (create_event frame s.selected))
      → s.selected_event ≡ some event
      → create_event frame s.selected ≡ event
  event_of frame s event (inl e) h = ground (arith, e, h)
  event_of frame s event (inr e) h = ground (arith, e, h)

  planned :
      (now : ℕ) (candidates rest : List MatchPublicationCandidate)
      (first : MatchPublicationCandidate) (batch : FrozenMatchBatch)
      → sort platform candidates ≡ first ∷ rest
      → HasRun now first rest (some batch)
      → IsPlanned candidates batch
  planned now candidates rest first batch sorted run =
      let frame = frame_of platform policy now first rest in
      let chosen = selection now first rest (some batch) run in
      let current = chosen.current in
      let frozen : IsFrozen frame run.s batch =
        freeze-some frame _ run.s.selected run.s.selected_payload run.s.selected_event
          run.s.payload_limit_reached batch run.freezes in
      let created = event_of frame run.s batch.event current.event frozen.event in
      let (k, prefix, bound) = take-take chosen.count policy.maximum_results (first ∷ rest) in
      let shown : batch.candidates ≡ take k (first ∷ rest) =
        frozen.candidates ∙ (chosen.taken ∙ prefix) in
      record {
        count = k;
        first = subst (λ l. batch.candidates ≡ take k l) (sym sorted) shown;
        bounded = bounded_by k (first ∷ rest) batch.candidates shown bound;
        results =
            sym (ap (λ e. e.results) created)
            ∙ ap (map (λ c. c.public_result)) (sym frozen.candidates);
        counted = sym (ap (λ e. e.result_count) created) ∙ ap length (sym frozen.candidates);
        serialized = current.serialized batch.event frozen.event ∙ ap ok (sym frozen.payload);
        fits =
            subst (λ p. byte_length p ≤ policy.maximum_payload_bytes) (sym frozen.payload)
              (current.fits batch.event frozen.event);
        measured = frozen.measured;
      }

  planned_sorted :
      (now : ℕ) (candidates sorted : List MatchPublicationCandidate) (batch : FrozenMatchBatch)
      → sort platform candidates ≡ sorted
      → plan_ordered platform policy now sorted ≡ ok (some batch)
      → IsPlanned candidates batch
  unfolding plan_ordered
  planned_sorted now candidates [] batch e h = ground arith
  planned_sorted now candidates (first ∷ rest) batch e h =
      planned now candidates rest first batch e (plan_ordered-ok now first rest (some batch) h)

  -- A planned batch holds the first candidates in the order of publication, at most as many as the
  -- policy allows; its event has their public results in that order and counts them, its payload is
  -- that event's canonical text, has the byte count the batch states, and is no longer than the
  -- policy allows.
  pub plan_match_batch-IsPlanned :
      (candidates : List MatchPublicationCandidate) (now : Option ℕ) (batch : FrozenMatchBatch)
      → plan_match_batch platform policy candidates now ≡ ok (some batch)
      → IsPlanned candidates batch
  unfolding plan_match_batch plan_at
  plan_match_batch-IsPlanned candidates none batch h =
      let (u, e, h₁) = bind_ok (validate_policy policy) _ _ h in ground (arith, h₁)
  plan_match_batch-IsPlanned candidates (some now) batch h =
      let (u, e, h₁) = bind_ok (validate_policy policy) _ _ h in
      planned_sorted now candidates _ batch refl h₁
