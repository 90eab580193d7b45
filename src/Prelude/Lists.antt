-- ===== src/Prelude/Lists.antt =====
-- Lists measured by native numbers, searched by Boolean tests, and association lists over texts.
use Prim.Native.Nat.{ℕ, zero, suc, ◌+◌}
use Prim.Native.String.{String}
use mathlib.Core.Path.{◌≡◌, refl}
use mathlib.Core.Bool.{Bool, true, false, ◌&&◌, ◌||◌}
use mathlib.Core.List.{List, [], ◌∷◌, ◌++◌}
use mathlib.Core.Option.{Option, none, some}
use native.Mathlib.Omega.{arith}
use text.Mathlib.Text.{◌==◌ as str_eq}
use text.Mathlib.TextEquality.{eq_iff}
use package.hive_chameleon.Prelude.Tests.{if◌then◌else◌, ◌==◌}

module _ {ℓ} {A : Type ℓ} where
  abbrev pub length : List A → ℕ
  length [] = 0
  length (x ∷ xs) = suc (length xs)

  abbrev pub All {κ} : (A → Type κ) → List A → Type κ
  All P [] = Unit
  All P (x ∷ xs) = P x × All P xs

  -- `Array.prototype.some`.
  abbrev pub any : (A → Bool) → List A → Bool
  any p [] = false
  any p (x ∷ xs) = p x || any p xs

  -- `Array.prototype.every`.
  abbrev pub all : (A → Bool) → List A → Bool
  all p [] = true
  all p (x ∷ xs) = p x && all p xs

  -- `Array.prototype.find`.
  unfoldable pub find : (A → Bool) → List A → Option A
  find p [] = none
  find p (x ∷ xs) = let rest = find p xs in if p x then some x else rest

  -- `Array.prototype.filter`, by a Boolean test.
  abbrev pub filter : (A → Bool) → List A → List A
  filter p [] = []
  filter p (x ∷ xs) = let rest = filter p xs in if p x then x ∷ rest else rest

  abbrev pub take : ℕ → List A → List A
  take zero xs = []
  take (suc n) [] = []
  take (suc n) (x ∷ xs) = x ∷ take n xs

  pub length-append : (xs ys : List A) → length (xs ++ ys) ≡ length xs + length ys
  length-append [] ys = omega arith
  length-append (x ∷ xs) ys = omega (arith, length-append xs ys)

  pub All-append {κ} : (P : A → Type κ) (xs ys : List A) → All P xs → All P ys → All P (xs ++ ys)
  All-append P [] ys hx hy = hy
  All-append P (x ∷ xs) ys hx hy = (hx.0, All-append P xs ys hx.1 hy)

  pub All-mono {κ η} :
      {P : A → Type κ} {Q : A → Type η} (xs : List A) → ((x : A) → P x → Q x) → All P xs → All Q xs
  All-mono [] f h = tt
  All-mono (x ∷ xs) f h = (f x h.0, All-mono xs f h.1)

-- `Set<string>.has`.
abbrev pub contains : List String → String → Bool
contains [] a = false
contains (x ∷ xs) a = str_eq x a || contains xs a

-- `Map<string, V>` as an association list: `set` replaces the value in place, or appends.
module _ {ℓ} {V : Type ℓ} where
  unfoldable pub map_get : List (String × V) → String → Option V
  map_get [] key = none
  map_get ((k, v) ∷ rest) key = if str_eq k key then some v else map_get rest key

  unfoldable pub map_set : List (String × V) → String → V → List (String × V)
  map_set [] key value = (key, value) ∷ []
  map_set ((k, v) ∷ rest) key value =
      if str_eq k key then (k, value) ∷ rest else (k, v) ∷ map_set rest key value

  -- `Map.delete`.
  unfoldable pub map_delete : List (String × V) → String → List (String × V)
  map_delete [] key = []
  map_delete ((k, v) ∷ rest) key =
      let others = map_delete rest key in if str_eq k key then others else (k, v) ∷ others

  pub map_get-map_delete :
      (entries : List (String × V)) (key other : String)
      → map_get (map_delete entries key) other
        ≡ (if str_eq key other then none else map_get entries other)
  unfolding map_get map_delete
  map_get-map_delete [] key other = ground arith
  map_get-map_delete ((k, v) ∷ rest) key other =
      ground
        (arith, map_get-map_delete rest key other, eq_iff k key, eq_iff k other, eq_iff key other)

  pub map_get-map_set :
      (entries : List (String × V)) (key other : String) (value : V)
      → map_get (map_set entries key value) other
        ≡ (if str_eq key other then some value else map_get entries other)
  unfolding map_get map_set
  map_get-map_set [] key other value = refl
  map_get-map_set ((k, v) ∷ rest) key other value =
      ground (
        arith,
        map_get-map_set rest key other value,
        eq_iff k key,
        eq_iff k other,
        eq_iff key other,
      )

-- Two texts by their codes.
abbrev pub same_codes : List ℕ → List ℕ → Bool
same_codes [] [] = true
same_codes (a ∷ rest) (b ∷ others) = a == b && same_codes rest others
same_codes _ _ = false

pub same_codes_eq : (a b : List ℕ) → same_codes a b ≡ true → a ≡ b
same_codes_eq [] [] h = refl
same_codes_eq [] (d ∷ b) h = absurd (ground (arith, h))
same_codes_eq (c ∷ a) [] h = absurd (ground (arith, h))
same_codes_eq (c ∷ a) (d ∷ b) h = ground (arith, h, same_codes_eq a b (ground (arith, h)))

pub same_codes_refl : (a : List ℕ) → same_codes a a ≡ true
same_codes_refl [] = refl
same_codes_refl (c ∷ a) = ground (arith, same_codes_refl a)
