-- ===== src/Publisher/Batch/Selection.antt =====
-- What the loop of `planMatchBatch` selects: workers/match-publisher/src/batch-builder.ts.
use hive_chameleon.Prelude.{
  ℕ, suc, String, true, false, ◌≡◌, ◌≤◌, ◌⊎◌, refl, sym, ap, ◌∙◌, subst, arith, none, some, List,
  [], ◌∷◌, ◌++◌, ltb, take, inl, inr, Bool-cases,
}
use hive_chameleon.Exec.{Result, ok, err}
use hive_chameleon.Gateway.Library.{Library, byte_length}
use hive_chameleon.Gateway.Protocol.Event.{MatchBatch, match_results_batch}
use hive_chameleon.Gateway.Protocol.Codec.{HiveGatewayErrorCode, serialize_hive_chameleon_event}
use hive_chameleon.Publisher.Batch.{
  MatchPublicationCandidate, BatchFrame, Selected, create_event, reach_payload_limit, refuse,
  attend, extend, select,
}

append_nil : (xs : List MatchPublicationCandidate) → xs ++ [] ≡ xs
append_nil [] = refl
append_nil (x ∷ xs) = ap (λ l. x ∷ l) (append_nil xs)

append_step :
    (xs : List MatchPublicationCandidate) (y : MatchPublicationCandidate)
    (ys : List MatchPublicationCandidate)
    → (xs ++ y ∷ []) ++ ys ≡ xs ++ y ∷ ys
append_step [] y ys = refl
append_step (x ∷ xs) y ys = ap (λ l. x ∷ l) (append_step xs y ys)

serialized_as :
    (lib : Library) (event other : MatchBatch) (payload : String)
    → serialize_hive_chameleon_event lib (match_results_batch event) ≡ ok payload
    → some event ≡ some other
    → serialize_hive_chameleon_event lib (match_results_batch other) ≡ ok payload
serialized_as lib event other payload h k =
    let same : event ≡ other = ground arith in
    subst (λ e. serialize_hive_chameleon_event lib (match_results_batch e) ≡ ok payload) same h

module _ (lib : Library) (maximum : ℕ) (frame : BatchFrame) where
  -- The event and the payload are those of the selected candidates, and fit.
  pub record IsCurrent (s : Selected) : Type 0 where
    pub event :
        (s.selected_event ≡ none) ⊎ (s.selected_event ≡ some (create_event frame s.selected))
    pub serialized :
        (event : MatchBatch)
        → s.selected_event ≡ some event
        → serialize_hive_chameleon_event lib (match_results_batch event) ≡ ok s.selected_payload
    pub fits :
        (event : MatchBatch)
        → s.selected_event ≡ some event
        → byte_length s.selected_payload ≤ maximum

  -- From `before`, the loop took the first candidates of `rest`, all of them unless the payload
  -- would have been too long.
  pub record HasSelected (rest : List MatchPublicationCandidate) (before after : Selected)
      : Type 0 where
    pub current : IsCurrent after
    pub count : ℕ
    pub taken : after.selected ≡ before.selected ++ take count rest
    pub whole : after.payload_limit_reached ≡ false → after.selected ≡ before.selected ++ rest

  reach_payload_limit-ok :
      (rest : List MatchPublicationCandidate) (s after : Selected)
      → reach_payload_limit lib maximum frame s ≡ ok after
      → IsCurrent s
      → HasSelected rest s after
  unfolding reach_payload_limit
  reach_payload_limit-ok rest s after h current =
      let same : record s { payload_limit_reached = true } ≡ after = ground arith in
      subst (HasSelected rest s) same (record {
        current = record {
          event = current.event;
          serialized = current.serialized;
          fits = current.fits;
        };
        count = 0;
        taken = sym (append_nil s.selected);
        whole = λ e. ground (arith, e);
      })

  refuse-ok :
      (code : HiveGatewayErrorCode) (s after : Selected)
      → refuse lib maximum frame code s ≡ ok after
      → reach_payload_limit lib maximum frame s ≡ ok after
  unfolding refuse
  refuse-ok HiveGatewayErrorCode.payload_too_large s after h = h
  refuse-ok _ s after h = ground arith

  extended :
      (candidate : MatchPublicationCandidate) (rest : List MatchPublicationCandidate)
      (s after : Selected) (payload : String)
      → HasSelected rest (extend lib maximum frame s candidate payload) after
      → HasSelected (candidate ∷ rest) s after
  extended candidate rest s after payload h = record {
    current = h.current;
    count = suc h.count;
    taken = h.taken ∙ append_step s.selected candidate (take h.count rest);
    whole = λ e. h.whole e ∙ append_step s.selected candidate rest;
  }

  -- One turn of the loop, whatever the serialization answers.
  attend-ok :
      (candidate : MatchPublicationCandidate) (rest : List MatchPublicationCandidate)
      (s after : Selected) (answer : Result HiveGatewayErrorCode String)
      → serialize_hive_chameleon_event lib
          (match_results_batch (create_event frame (s.selected ++ candidate ∷ [])))
        ≡ answer
      → IsCurrent s
      → ((t : Selected)
          → select lib maximum frame rest t ≡ ok after
          → IsCurrent t
          → HasSelected rest t after)
      → attend lib maximum frame s
          (λ payload. select lib maximum frame rest (extend lib maximum frame s candidate payload))
          answer
        ≡ ok after
      → HasSelected (candidate ∷ rest) s after
  unfolding attend
  attend-ok candidate rest s after (err code) e current go h =
      reach_payload_limit-ok (candidate ∷ rest) s after (refuse-ok code s after h) current
  attend-ok candidate rest s after (ok payload) e current go h =
      elim (Bool-cases (ltb maximum (byte_length payload))) [
        | inl long ↦
            reach_payload_limit-ok (candidate ∷ rest) s after (ground (arith, long)) current
        | inr short ↦ extended candidate rest s after payload (
            go (extend lib maximum frame s candidate payload) (ground (arith, short)) (record {
              event = inr refl;
              serialized = λ event k. serialized_as lib _ event payload e k;
              fits = λ event k. ground (arith, short);
            }))
      ]

  -- The loop takes the first candidates, and all of them unless a payload was too long.
  pub select-ok :
      (candidates : List MatchPublicationCandidate) (s after : Selected)
      → select lib maximum frame candidates s ≡ ok after
      → IsCurrent s
      → HasSelected candidates s after
  unfolding select
  select-ok [] s after h current =
      let same : s ≡ after = ground arith in
      subst (HasSelected [] s) same (record {
        current = current;
        count = 0;
        taken = sym (append_nil s.selected);
        whole = λ e. sym (append_nil s.selected);
      })
  select-ok (candidate ∷ rest) s after h current =
      attend-ok candidate rest s after _ refl current (λ t. select-ok rest t after) h
