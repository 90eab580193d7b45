-- ===== src/Gateway/Protocol/Text.antt =====
-- The texts of an event: packages/hive-gateway/src/protocol/common.ts. A text is read by its code
-- points; each pattern admits ASCII only, where these are its UTF-16 units and bytes.
use Prim.Native.Char.{code}
use hive_chameleon.Prelude.{
  ℕ, zero, suc, String, Bool, true, false, not, ◌&&◌, ◌||◌, List, [], ◌∷◌, ◌++◌, leb, ◌==◌, length,
  all, if◌then◌else◌,
}

abbrev pub codes : String → List ℕ
codes String.[] = []
codes (String.◌∷◌ c s) = code c ∷ codes s

abbrev pub is_digit : ℕ → Bool
is_digit c = leb b'0' c && leb c b'9'

abbrev pub is_lower : ℕ → Bool
is_lower c = leb b'a' c && leb c b'z'

-- `[0-9a-f]`
abbrev pub is_hex : ℕ → Bool
is_hex c = is_digit c || (leb b'a' c && leb c b'f')

-- `[a-z0-9]`
abbrev pub is_alphanumeric : ℕ → Bool
is_alphanumeric c = is_lower c || is_digit c

-- A pattern that gives a class of characters for each place.
abbrev pub matches_places : List (ℕ → Bool) → List ℕ → Bool
matches_places [] [] = true
matches_places (p ∷ ps) (c ∷ cs) = p c && matches_places ps cs
matches_places _ _ = false

abbrev pub places : ℕ → (ℕ → Bool) → List (ℕ → Bool) → List (ℕ → Bool)
places zero p rest = rest
places (suc n) p rest = p ∷ places n p rest

abbrev is_dash : ℕ → Bool
is_dash c = c == b'-'

-- `/^[0-9a-f]{8}-[0-9a-f]{4}-7[0-9a-f]{3}-[89ab][0-9a-f]{3}-[0-9a-f]{12}$/`
abbrev uuid_v7_places : List (ℕ → Bool)
uuid_v7_places = places 8 is_hex (
    places 1 is_dash (
      places 4 is_hex (
        places 1 is_dash (
          places 1 (λ c. c == b'7')
            (places 3 is_hex (
              places 1 is_dash (
                places 1 (λ c. (c == b'8' || c == b'9') || (c == b'a' || c == b'b'))
                  (places 3 is_hex (places 1 is_dash (places 12 is_hex []))))))))))

unfoldable pub is_uuid_v7 : String → Bool
is_uuid_v7 text = matches_places uuid_v7_places (codes text)

-- `/^[0-9a-f]{64}$/`
unfoldable pub is_sha256 : String → Bool
is_sha256 text = length (codes text) == 64 && all is_hex (codes text)

-- `/^[a-z][a-z0-9_-]{1,63}$/`
abbrev controlled_rest : ℕ → Bool
controlled_rest c = is_alphanumeric c || (c == b'_' || c == b'-')

abbrev controlled_code : List ℕ → Bool
controlled_code [] = false
controlled_code (c ∷ cs) =
    is_lower c && (leb 1 (length cs) && (leb (length cs) 63 && all controlled_rest cs))

unfoldable pub is_controlled_code : String → Bool
is_controlled_code text = controlled_code (codes text)

-- `/^(0|[1-9][0-9]*)\.[0-9]{4}$/`: the digits before the point, and the four after it.
abbrev four_digits : List ℕ → Bool
four_digits cs = length cs == 4 && all is_digit cs

abbrev score_rest : List ℕ → Bool
score_rest [] = false
score_rest (c ∷ cs) = if c == b'.' then four_digits cs else is_digit c && score_rest cs

abbrev fixed_score : List ℕ → Bool
fixed_score [] = false
fixed_score (c ∷ []) = false
fixed_score (c ∷ d ∷ cs) =
    if c == b'0' then d == b'.' && four_digits cs else is_digit c && score_rest (d ∷ cs)

unfoldable pub is_fixed_score : String → Bool
is_fixed_score text = fixed_score (codes text)

-- `account.split('.')`.
unfoldable pub split_dots : List ℕ → List ℕ → List (List ℕ)
split_dots segment [] = segment ∷ []
split_dots segment (c ∷ cs) =
    let next = split_dots [] cs in
    let same = split_dots (segment ++ c ∷ []) cs in if c == b'.' then segment ∷ next else same

-- `/^[a-z][a-z0-9-]*[a-z0-9]$/`, after its first character.
abbrev segment_rest : List ℕ → Bool
segment_rest [] = false
segment_rest (c ∷ []) = is_alphanumeric c
segment_rest (c ∷ d ∷ cs) = (is_alphanumeric c || is_dash c) && segment_rest (d ∷ cs)

abbrev segment_matches : List ℕ → Bool
segment_matches [] = false
segment_matches (c ∷ cs) = is_lower c && segment_rest cs

-- `segment.includes('--')`.
abbrev has_double_dash : List ℕ → Bool
has_double_dash [] = false
has_double_dash (c ∷ []) = false
has_double_dash (c ∷ d ∷ cs) = (is_dash c && is_dash d) || has_double_dash (d ∷ cs)

unfoldable pub account_segment : List ℕ → Bool
account_segment segment =
    leb 3 (length segment) && (segment_matches segment && not (has_double_dash segment))

-- `hiveAccountSchema`. The pattern of a segment admits no capital letter, so the test against
-- `toLowerCase` refuses nothing more.
unfoldable pub is_hive_account : String → Bool
unfolding split_dots account_segment
is_hive_account account =
    leb 3 (length (codes account))
    && (leb (length (codes account)) 16 && all account_segment (split_dots [] (codes account)))
