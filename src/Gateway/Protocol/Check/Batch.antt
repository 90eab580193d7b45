-- ===== src/Gateway/Protocol/Check/Batch.antt =====
-- What a valid batch is: packages/hive-gateway/src/protocol/match.ts, `matchBatchSchema`.
use hive_chameleon.Prelude.{
  ℕ, String, true, false, List, [], ◌∷◌, map, ◌≤◌, ◌<◌, ◌≡◌, length, all, All, All-mono, some,
  arith, inl, inr, Option-cases,
}
use hive_chameleon.Gateway.Library.{Library, IsLibrary, date_lt}
use hive_chameleon.Gateway.Protocol.Event.{MatchResult, MatchBatch}
use hive_chameleon.Gateway.Protocol.Check.{
  valid_result, out_of_order, are_ordered, inside_period, refined_batch, valid_batch,
}
use hive_chameleon.Gateway.Protocol.Check.Laws.{
  Distinct, are_unique-Distinct, all-All, IsConsistent, valid_result-IsConsistent,
  valid_result-dated, IsInside, inside_period-IsInside,
}

module _ (lib : Library) (laws : IsLibrary lib) where
  -- The second result was not completed before the first.
  abbrev pub NotBefore : MatchResult → MatchResult → Type 0
  NotBefore r s = date_lt (lib.date_parse s.completed_at) (lib.date_parse r.completed_at) ≡ false

  -- Every result was completed no earlier than each result before it.
  abbrev pub IsChronological : List MatchResult → Type 0
  IsChronological [] = Unit
  IsChronological (r ∷ rest) = All (NotBefore r) rest × IsChronological rest

  -- An array whose neighbours are in order is in order throughout.
  later-All :
      (r s : MatchResult) (rest : List MatchResult)
      → valid_result lib s ≡ true
      → NotBefore r s
      → All (NotBefore s) rest
      → All (NotBefore r) rest
  later-All r s rest valid h hs =
      let (n, e) = valid_result-dated lib laws s valid in All-mono rest (λ t k. grind (arith, e)) hs

  pub are_ordered-IsChronological :
      (results : List MatchResult)
      → All (λ r. valid_result lib r ≡ true) results
      → are_ordered lib results ≡ true
      → IsChronological results
  unfolding are_ordered out_of_order
  are_ordered-IsChronological [] valid h = tt
  are_ordered-IsChronological (r ∷ []) valid h = (tt, tt)
  are_ordered-IsChronological (r ∷ s ∷ rest) valid h =
      let tail = are_ordered-IsChronological (s ∷ rest) valid.1 (ground arith) in
      let first : NotBefore r s = ground arith in
      ((first, later-All r s rest valid.1.0 first tail.0), tail)

  -- The batch as the consumers of the chain rely on it.
  pub record IsPublishable (b : MatchBatch) : Type 0 where
    pub counted : b.result_count ≡ length b.results
    pub some_results : 1 ≤ length b.results
    pub few_results : length b.results ≤ 20
    pub period_start : ℕ
    pub period_end : ℕ
    pub starts : lib.date_parse b.period_start ≡ some period_start
    pub ends : lib.date_parse b.period_end ≡ some period_end
    pub nonempty : period_start < period_end
    pub inside : All (IsInside lib period_start period_end) b.results
    pub chronological : IsChronological b.results
    pub rounds : Distinct (map (λ r. r.round_id) b.results)
    pub consistent : All IsConsistent b.results

  dated :
      (text : String) → lib.is_iso_timestamp text ≡ true → (n : ℕ) × (lib.date_parse text ≡ some n)
  dated text h = elim (Option-cases (lib.date_parse text)) [
    | inr found ↦ found
    | inl e ↦ ground (arith, laws.dated text h, e)
  ]

  IsInside-all :
      (low high : ℕ) (results : List MatchResult)
      → All (λ r. valid_result lib r ≡ true) results
      → all (inside_period lib (some low) (some high)) results ≡ true
      → All (IsInside lib low high) results
  IsInside-all low high [] valid h = tt
  IsInside-all low high (r ∷ rest) valid h = (
    inside_period-IsInside lib laws low high r valid.0 (ground arith),
    IsInside-all low high rest valid.1 (ground arith),
  )

  -- A batch that the schema accepts has between 1 and 20 results, as many as it says, of distinct
  -- rounds, in the order of completion, all inside its half-open period, and in each the winners,
  -- the survivors, the liked and both sides of a discovery are participants, and no participant,
  -- winner, survivor or liked account is listed twice. The clock of the platform
  -- must read the timestamps that zod accepts.
  pub valid_batch-IsPublishable : (b : MatchBatch) → valid_batch lib b ≡ true → IsPublishable b
  unfolding valid_batch refined_batch
  valid_batch-IsPublishable b h =
      let (low, starts) = dated b.period_start (ground arith) in
      let (high, ends) = dated b.period_end (ground arith) in
      let valid : All (λ r. valid_result lib r ≡ true) b.results =
        all-All _ b.results (ground arith) in
      record {
        counted = ground arith;
        some_results = ground arith;
        few_results = ground arith;
        period_start = low;
        period_end = high;
        starts = starts;
        ends = ends;
        nonempty = ground (arith, starts, ends);
        inside = IsInside-all low high b.results valid (ground (arith, starts, ends));
        chronological = are_ordered-IsChronological b.results valid (ground arith);
        rounds = are_unique-Distinct _ (ground arith);
        consistent = All-mono b.results (λ r. valid_result-IsConsistent lib r) valid;
      }
