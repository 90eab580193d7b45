-- ===== src/Projector/Hafah/Blocks.antt =====
-- The block ids that `HafahHttpSource` lets through: they encode the block's number.
use hive_chameleon.Prelude.{
  ℕ, zero, suc, String, ◌+◌, ◌*◌, ◌-◌, ◌^◌, ◌<◌, ◌≡◌, ◌⊎◌, inl, inr, refl, sym, ap, ◌∙◌, Bool, true,
  false, Option, none, some, List, [], ◌∷◌, arith, ltb, ◌==◌, ◌&&◌, if◌then◌else◌, take, same_codes,
  same_codes_eq, Bool-cases, subst,
}
use Prim.Native.Nat.{◌/◌, ◌%◌}
use hive_chameleon.Exec.{Result, ok, ◌>>=?◌, bind_ok}
use hive_chameleon.Gateway.Protocol.Text.{codes}
use hive_chameleon.Projector.Model.{HafBlock, HafIrreversibleBlock, Failure}
use hive_chameleon.Projector.Hafah.{
  HafahServer, GlobalState, is_block_hash, block_id_matches_number, hex_code, hex_digits, get_block,
  get_last_irreversible_block, assert_block_number, request_json, checked, normalize_hive_timestamp,
  irreversible_id, after_properties, block_of, global_state, rpc_block, properties,
}

hex_value : ℕ → ℕ
hex_value code = if ltb code b'a' then code - b'0' else (code - b'a') + 10

number_of : ℕ → List ℕ → ℕ
number_of n [] = n
number_of n (c ∷ cs) = number_of (n * 16 + hex_value c) cs

hex_value-hex_code : (d : ℕ) → d < 16 → hex_value (hex_code d) ≡ d
unfolding hex_value
hex_value-hex_code d small = ground arith

number_of-hex_digits :
    (places n : ℕ) (rest : List ℕ)
    → n < 16 ^ places
    → number_of 0 (hex_digits places n rest) ≡ number_of n rest
unfolding number_of
number_of-hex_digits zero n rest small = ap (λ k. number_of k rest) (omega arith)
number_of-hex_digits (suc places) n rest small =
    number_of-hex_digits places (n / 16) (hex_code (n % 16) ∷ rest) (omega arith)
    ∙ ap (λ k. number_of k rest) (rw (hex_value-hex_code (n % 16) (omega arith)) (omega arith))

hex_digits_injective :
    (n m : ℕ) → n < 2 ^ 32 → m < 2 ^ 32 → hex_digits 8 n [] ≡ hex_digits 8 m [] → n ≡ m
unfolding number_of
hex_digits_injective n m hn hm e =
    sym (number_of-hex_digits 8 n [] hn) ∙ ap (number_of 0) e ∙ number_of-hex_digits 8 m [] hm

both : (a b : Bool) → (a && b) ≡ true → (a ≡ true) × (b ≡ true)
both true b h = (refl, h)
both false b h = absurd (ground (arith, h))

below_limit : (n limit : ℕ) → ltb n limit ≡ true → n < limit
below_limit n limit h = ground arith

matches_digits :
    (id : String) (n : ℕ)
    → block_id_matches_number id n ≡ true
    → (n < 2 ^ 32) × (take 8 (codes id) ≡ hex_digits 8 n [])
unfolding block_id_matches_number
matches_digits id n h =
    let (small, same) =
      both (ltb n (2 ^ 32)) (same_codes (take 8 (codes id)) (hex_digits 8 n [])) h in
    (below_limit n (2 ^ 32) small, same_codes_eq (take 8 (codes id)) (hex_digits 8 n []) same)

-- An id matches one block number at most.
matches_unique :
    (id : String) (n m : ℕ)
    → block_id_matches_number id n ≡ true
    → block_id_matches_number id m ≡ true
    → n ≡ m
matches_unique id n m hn hm =
    let (small, same) = matches_digits id n hn in
    let (small', same') = matches_digits id m hm in
    hex_digits_injective n m small small' (sym same ∙ same')

checked_ok :
    {A B : Type 0} (o : Option A) (f : A → Result Failure B) (b : B)
    → (checked o >>=? f) ≡ ok b
    → (a : A) × (o ≡ some a) × (f a ≡ ok b)
checked_ok none f b h = absurd (ground (arith, h))
checked_ok (some a) f b h = (a, refl, h)

-- What the source lets through as the block of a number.
pub record IsAnchored (n : ℕ) (b : HafBlock) : Type 0 where
  pub numbered : b.number ≡ n
  pub in_range : n < 2 ^ 32
  pub hashed : is_block_hash b.id ≡ true
  pub linked : is_block_hash b.previous_id ≡ true
  pub matching : block_id_matches_number b.id n ≡ true

module _ (server : HafahServer) where
  dated_block :
      (n : ℕ) (state : GlobalState) (b : HafBlock) → block_of server n state ≡ ok b → IsAnchored n b
  dated_block n state b h =
      elim (Bool-cases (
        (is_block_hash state.hash && is_block_hash state.prev)
        && (state.block_num == n && block_id_matches_number state.hash n))) [
          | inr e ↦ absurd (ground (arith, h, e))
          | inl e ↦
              let (hashes, rest) =
                both (is_block_hash state.hash && is_block_hash state.prev)
                  (state.block_num == n && block_id_matches_number state.hash n) e in
              let (own, previous) =
                both (is_block_hash state.hash) (is_block_hash state.prev) hashes in
              let (number, matching) =
                both (state.block_num == n) (block_id_matches_number state.hash n) rest in
              let (small, digits) = matches_digits state.hash n matching in
              let (timestamp, dated, built) =
                bind_ok (normalize_hive_timestamp server state.created_at)
                  (λ timestamp. ok (record {
                    number = n;
                    id = state.hash;
                    previous_id = state.prev;
                    timestamp = timestamp;
                  }))
                  b (ground (arith, h, e)) in
              let same : record {
                number = n;
                id = state.hash;
                previous_id = state.prev;
                timestamp = timestamp;
              }
                  ≡ b =
                ground (arith, built) in
              subst (IsAnchored n) same (record {
                numbered = refl;
                in_range = small;
                hashed = own;
                linked = previous;
                matching = matching;
              })
        ]

  -- A block that the source gives has the number asked for, which has 32 bits, and two block hashes,
  -- its own beginning with that number in hexadecimal.
  pub get_block-IsAnchored :
      (tick n : ℕ) (b : HafBlock) → get_block server tick n ≡ ok b → IsAnchored n b
  unfolding get_block
  get_block-IsAnchored tick n b h =
      let (u, safe, h₁) =
        bind_ok (assert_block_number n)
          (λ _. request_json (server.fetch tick 0 (global_state n)) >>=? λ value.
            checked (server.read_global_state value) >>=? block_of server n)
          b h in
      let (value, answered, h₂) =
        bind_ok (request_json (server.fetch tick 0 (global_state n)))
          (λ value. checked (server.read_global_state value) >>=? block_of server n) b h₁ in
      let (state, read, h₃) =
        checked_ok (server.read_global_state value) (block_of server n) b h₂ in
      dated_block n state b h₃

  irreversible_ok :
      (n : ℕ) (id : String) (r : HafIrreversibleBlock)
      → irreversible_id server n id ≡ ok r
      → (r.number ≡ n) × (r.id ≡ some id) × (block_id_matches_number id n ≡ true)
  irreversible_ok n id r h = elim (Bool-cases (is_block_hash id && block_id_matches_number id n)) [
    | inr e ↦ absurd (ground (arith, h, e))
    | inl e ↦
        let (hash, matching) = both (is_block_hash id) (block_id_matches_number id n) e in
        let same : record { number = n; id = some id } ≡ r = ground (arith, h, e) in
        (ap (λ b. b.number) (sym same), ap (λ b. b.id) (sym same), matching)
  ]

  -- The irreversible block is the zero one without an id, or its id matches its number.
  irreversible_cases :
      (tick : ℕ) (r : HafIrreversibleBlock)
      → get_last_irreversible_block server tick ≡ ok r
      → (r.id ≡ none)
        ⊎ ((id : String) × (r.id ≡ some id) × (block_id_matches_number id r.number ≡ true))
  unfolding get_last_irreversible_block
  irreversible_cases tick r h =
      let (value, answered, h₁) =
        bind_ok (request_json (server.fetch tick 0 properties))
          (λ value. checked (server.read_properties value) >>=? after_properties server tick) r h in
      let (number, read, h₂) =
        checked_ok (server.read_properties value) (after_properties server tick) r h₁ in
      elim (Bool-cases (number == 0)) [
        | inl e ↦
            let same : record { number = 0; id = none } ≡ r = ground (arith, h₂, e) in
            inl (ap (λ b. b.id) (sym same))
        | inr e ↦
            let (block, told, h₃) =
              bind_ok (request_json (server.fetch tick 1 (rpc_block number)))
                (λ block. checked (server.read_rpc_block block) >>=? irreversible_id server number)
                r (ground (arith, h₂, e)) in
            let (id, given, h₄) =
              checked_ok (server.read_rpc_block block) (irreversible_id server number) r h₃ in
            let (numbered, named, matching) = irreversible_ok number id r h₄ in
            inr
              (id, named, subst (λ n. block_id_matches_number id n ≡ true) (sym numbered) matching)
      ]

-- Where the last irreversible block has the id of a block that the source gives for a number, be
-- it of another server or asked at another time, it is the block of that number: ids do not repeat
-- over numbers. The block has the number asked for, which has 32 bits, and two block hashes, its own
-- beginning with that number in hexadecimal.
pub get_last_irreversible_block-get_block :
    (server other : HafahServer) (tick later n : ℕ) (r : HafIrreversibleBlock) (b : HafBlock)
    → get_last_irreversible_block server tick ≡ ok r
    → get_block other later n ≡ ok b
    → r.id ≡ some b.id
    → (r.number ≡ n) × IsAnchored n b
get_last_irreversible_block-get_block server other tick later n r b hr hb same =
    let anchored = get_block-IsAnchored other later n b hb in
    elim (irreversible_cases server tick r hr) [
      | inl e ↦ absurd (ground (arith, e, same))
      | inr (id, e, matching) ↦ (
        matches_unique id r.number n matching (
            subst (λ i. block_id_matches_number i n ≡ true) (ground (arith, e, same))
              anchored.matching),
        anchored,
      )
    ]
