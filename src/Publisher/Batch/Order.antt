-- ===== src/Publisher/Batch/Order.antt =====
-- The candidates in the order of publication: `compareCandidates` and the sort of
-- workers/match-publisher/src/batch-builder.ts.
use mathlib.Core.List.{Perm}
use mathlib.Core.List.Perm
use hive_chameleon.Prelude.{
  ℕ, String, ◌<◌, ◌≡◌, ◌⊎◌, ◌&&◌, ◌||◌, refl, true, false, Bool, Option, none, some, List, [], ◌∷◌,
  arith, ltb, Bool-cases, inl, inr, if_cases,
}
use hive_chameleon.Gateway.Library.{date_lt, date_eq}
use hive_chameleon.Publisher.Batch.{
  MatchPublicationCandidate, Platform, comes_after, insert, sort, completion,
}

-- `localeCompare` does not put two ids both ways round.
abbrev pub IsAsymmetric : (String → String → Bool) → Type 0
IsAsymmetric after = (a b : String) → after a b ≡ true → after b a ≡ false

module _ (platform : Platform) where
  -- The earlier completion first; of two at one time, the round that the locale puts first.
  abbrev pub IsInOrder : MatchPublicationCandidate → MatchPublicationCandidate → Type 0
  IsInOrder c d =
      (m n : ℕ)
      → platform.date_parse c.completed_at ≡ some m
      → platform.date_parse d.completed_at ≡ some n
      → (m < n) ⊎ ((m ≡ n) × (platform.locale_after c.round_id d.round_id ≡ false))

  abbrev pub IsFirst : MatchPublicationCandidate → List MatchPublicationCandidate → Type 0
  IsFirst c [] = Unit {0}
  IsFirst c (d ∷ ds) = IsInOrder c d

  -- Each candidate is in order with the next one.
  abbrev pub IsOrdered : List MatchPublicationCandidate → Type 0
  IsOrdered [] = Unit {0}
  IsOrdered (c ∷ cs) = IsFirst c cs × IsOrdered cs

  times_in_order :
      (a b : Option ℕ) (m n : ℕ) (after : Bool)
      → (date_lt b a || (date_eq a b && after)) ≡ false
      → a ≡ some m
      → b ≡ some n
      → (m < n) ⊎ ((m ≡ n) × (after ≡ false))
  times_in_order none b m n after h ha hb = absurd (ground (arith, ha))
  times_in_order (some k) none m n after h ha hb = absurd (ground (arith, hb))
  times_in_order (some k) (some l) m n after h ha hb = elim (Bool-cases (ltb k l)) [
    | inl e ↦ inl (ground (arith, e, ha, hb))
    | inr e ↦ inr (ground (arith, e, h, ha, hb), ground (arith, e, h))
  ]

  comes_after-IsInOrder :
      (c d : MatchPublicationCandidate) → comes_after platform c d ≡ false → IsInOrder c d
  unfolding comes_after
  comes_after-IsInOrder c d h m n hc hd =
      times_in_order (completion platform c) (completion platform d) m n
        (platform.locale_after c.round_id d.round_id) h hc hd

  times_asymmetric :
      (a b : Option ℕ) (after before : Bool)
      → (after ≡ true → before ≡ false)
      → (date_lt b a || (date_eq a b && after)) ≡ true
      → (date_lt a b || (date_eq b a && before)) ≡ false
  times_asymmetric none b after before other h = absurd (ground (arith, h))
  times_asymmetric (some k) none after before other h = absurd (ground (arith, h))
  times_asymmetric (some k) (some l) true before other h = ground (arith, h, other refl)
  times_asymmetric (some k) (some l) false before other h = ground (arith, h)

  comes_after_asymmetric :
      IsAsymmetric platform.locale_after
      → (c d : MatchPublicationCandidate) → comes_after platform c d ≡ true
      → comes_after platform d c ≡ false
  unfolding comes_after
  comes_after_asymmetric asymmetric c d h =
      times_asymmetric (completion platform c) (completion platform d)
        (platform.locale_after c.round_id d.round_id) (platform.locale_after d.round_id c.round_id)
        (asymmetric c.round_id d.round_id) h

  insert-Perm :
      (c : MatchPublicationCandidate) (ds : List MatchPublicationCandidate)
      → Perm (c ∷ ds) (insert platform c ds)
  unfolding insert
  insert-Perm c [] = Perm.refl _
  insert-Perm c (d ∷ ds) =
      if_cases (Perm (c ∷ d ∷ ds)) (comes_after platform c d) _ _
        (λ e. Perm.trans (Perm.swap d c ds) (Perm.cons d (insert-Perm c ds))) (λ e. Perm.refl _)

  sort-Perm :
      (candidates : List MatchPublicationCandidate) → Perm candidates (sort platform candidates)
  unfolding sort
  sort-Perm [] = Perm.refl _
  sort-Perm (c ∷ cs) = Perm.trans (Perm.cons c (sort-Perm cs)) (insert-Perm c (sort platform cs))

  IsFirst-insert :
      (d c : MatchPublicationCandidate) (ds : List MatchPublicationCandidate)
      → IsInOrder d c
      → IsFirst d ds
      → IsFirst d (insert platform c ds)
  unfolding insert
  IsFirst-insert d c [] h hs = h
  IsFirst-insert d c (e ∷ es) h hs = elim (Bool-cases (comes_after platform c e)) [
    | inl later ↦ rw later hs
    | inr later ↦ rw later h
  ]

  IsOrdered-insert :
      IsAsymmetric platform.locale_after
      → (c : MatchPublicationCandidate) (ds : List MatchPublicationCandidate) → IsOrdered ds
      → IsOrdered (insert platform c ds)
  unfolding insert
  IsOrdered-insert asymmetric c [] h = (tt, tt)
  IsOrdered-insert asymmetric c (d ∷ ds) h = elim (Bool-cases (comes_after platform c d)) [
    | inl e ↦ rw e (
      IsFirst-insert d c ds (comes_after-IsInOrder d c (comes_after_asymmetric asymmetric c d e))
          h.0,
      IsOrdered-insert asymmetric c ds h.1,
    )
    | inr e ↦ rw e (comes_after-IsInOrder c d e, h)
  ]

  ordered :
      IsAsymmetric platform.locale_after
      → (candidates : List MatchPublicationCandidate) → IsOrdered (sort platform candidates)
  unfolding sort
  ordered asymmetric [] = tt
  ordered asymmetric (c ∷ cs) =
      IsOrdered-insert asymmetric c (sort platform cs) (ordered asymmetric cs)

  -- Where the locale does not put two ids both ways round, the candidates are published in the order
  -- of their completion, and those of one time in the order of the locale on their rounds: each has
  -- this order with the next one, as far as their times can be read. No candidate is lost and none
  -- is repeated.
  pub sort-IsOrdered :
      (candidates : List MatchPublicationCandidate)
      → IsAsymmetric platform.locale_after
      → IsOrdered (sort platform candidates) × Perm candidates (sort platform candidates)
  sort-IsOrdered candidates asymmetric = (ordered asymmetric candidates, sort-Perm candidates)
