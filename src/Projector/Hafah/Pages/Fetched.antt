-- ===== src/Projector/Hafah/Pages/Fetched.antt =====
-- What the operations that `getOperations` gives have in common.
use hive_chameleon.Prelude.{
  ℕ, zero, suc, String, ◌≤◌, ◌<◌, ◌^◌, ◌==◌, ◌≡◌, ◌≢◌, refl, Bool, true, false, not, Option, none,
  some, List, [], ◌∷◌, arith, ltb, str_eq, eq_iff, All, all, map_get, ◌&&◌, ◌||◌, if◌then◌else◌,
  Bool-cases, inl, inr, subst,
}
use hive_chameleon.Exec.{Result, ok, err, ◌>>=?◌, bind_ok}
use hive_chameleon.Gateway.Protocol.Text.{codes, is_digit}
use hive_chameleon.Projector.Model.{HafOperation, Failure}
use hive_chameleon.Projector.Hafah.{
  HafahServer, invalid, HafahOperation, OperationsPage, zero_transaction_id,
  normalize_hive_timestamp,
}
use hive_chameleon.Projector.Hafah.Pages.{
  Operations, is_uint64, canonical_decimal, decimal_value, uint64_limit, is_missing,
  valid_transaction, transaction_id_of, valid_item, valid_page, normalized, differs, add_operation,
  add_item, add_items, next_page, read_page, read_into, read_pages, page_key, is_visited,
  continue_with, sorted_operations, values_of, finish, run_checked, checked_range, get_operations,
}
use hive_chameleon.Projector.Hafah.Pages.Termination.{read_page-valid_page}
use hive_chameleon.Projector.Hafah.Pages.Order.{
  IsSorted, count_id, IsKeyed, count_id-sorted_operations, All-sorted_operations,
  IsSorted-sorted_operations, count_id-map_set, IsKeyed-map_set, All-map_set,
}

-- An operation of the range, with a canonical id, and with a block hash other than the zero id as
-- its transaction unless it is virtual.
pub record IsFetched (from_block to_block : ℕ) (o : HafOperation) : Type 0 where
  pub above : from_block ≤ o.block_number
  pub below : o.block_number ≤ to_block
  pub numbered : is_uint64 o.source_operation_id ≡ true
  pub digits : all is_digit (codes o.source_operation_id) ≡ true
  pub no_zeros : (c : ℕ) (cs : List ℕ) → codes o.source_operation_id ≡ b'0' ∷ c ∷ cs → ⊥
  pub fits : decimal_value 0 (codes o.source_operation_id) < 2 ^ 64
  pub hashed : valid_transaction o.transaction_id ≡ true
  pub nonzero : o.transaction_id ≢ some zero_transaction_id
  pub signed : o.is_virtual ≡ false → is_missing o.transaction_id ≡ false

and_true : (a b : Bool) → (a && b) ≡ true → (a ≡ true) × (b ≡ true)
and_true true b h = (refl, h)
and_true false b h = absurd (ground (arith, h))

less_of : (n limit : ℕ) → ltb n limit ≡ true → n < limit
less_of n limit h = ground (arith, h)

canonical_digits :
    (text : List ℕ)
    → canonical_decimal text ≡ true
    → (all is_digit text ≡ true) × ((c : ℕ) (cs : List ℕ) → text ≡ b'0' ∷ c ∷ cs → ⊥)
canonical_digits [] h = absurd (ground (arith, h))
canonical_digits (d ∷ []) h = (ground (arith, h), λ c cs e. ground (arith, e))
canonical_digits (d ∷ e ∷ ds) h = elim (Bool-cases (d == b'0')) [
  | inl zero_first ↦ absurd (ground (arith, h, zero_first))
  | inr nonzero ↦ (ground (arith, h, nonzero), λ c cs same. ground (arith, nonzero, same))
]

is_uint64-digits :
    (text : String)
    → is_uint64 text ≡ true
    → (all is_digit (codes text) ≡ true)
      × ((c : ℕ) (cs : List ℕ) → codes text ≡ b'0' ∷ c ∷ cs → ⊥)
      × (decimal_value 0 (codes text) < 2 ^ 64)
unfolding is_uint64
is_uint64-digits text h =
    let (digits, small) =
      and_true (canonical_decimal (codes text)) (ltb (decimal_value 0 (codes text)) uint64_limit)
        h in
    let (all_digits, no_zeros) = canonical_digits (codes text) digits in
    (all_digits, no_zeros, less_of (decimal_value 0 (codes text)) uint64_limit small)

transaction_id_of-valid_transaction :
    (id : Option String)
    → valid_transaction id ≡ true
    → (valid_transaction (transaction_id_of id) ≡ true)
      × (transaction_id_of id ≢ some zero_transaction_id)
transaction_id_of-valid_transaction none h = (refl, λ e. ground (arith, e))
transaction_id_of-valid_transaction (some id) h =
    elim (Bool-cases (str_eq id zero_transaction_id)) [
      | inl e ↦ rw e (refl, λ absent. ground (arith, absent))
      | inr e ↦ rw e (h, λ same. ground (arith, same, e, eq_iff id zero_transaction_id))
    ]

past_guard :
    {A : Type 0} (b : Bool) (m : Result Failure A) (a : A)
    → (if b then invalid else m) ≡ ok a
    → (b ≡ false) × (m ≡ ok a)
past_guard true m a h = absurd (ground (arith, h))
past_guard false m a h = (refl, h)

valid_page-ops : (page : OperationsPage) → valid_page page ≡ true → all valid_item page.ops ≡ true
unfolding valid_page
valid_page-ops page h = ground (arith, h)

-- The operations read so far: each under its own id and of the range, and none twice.
record IsKept (from_block to_block : ℕ) (operations : Operations) : Type 0 where
  keyed : IsKeyed operations
  unique : (id : String) → count_id id (values_of operations) ≤ 1
  fetched : All (IsFetched from_block to_block) (values_of operations)

continued_kept :
    (P : Operations → Type 0) (loop : ℕ → ℕ → Operations → Option (Result Failure Operations))
    (r : Result Failure (Operations × Option (ℕ × ℕ))) (more : Operations)
    → ((next : Operations) (page : Option (ℕ × ℕ)) → r ≡ ok (next, page) → P next)
    → ((block id : ℕ) (next : Operations) → P next → loop block id next ≡ some (ok more) → P more)
    → continue_with loop r ≡ some (ok more)
    → P more
continued_kept P loop (err e) more read step h = absurd (ground (arith, h))
continued_kept P loop (ok (next, none)) more read step h =
    subst P (ground (arith, h)) (read next none refl)
continued_kept P loop (ok (next, some (block, id))) more read step h =
    step block id next (read next (some (block, id)) refl) h

module _ (server : HafahServer) (from_block to_block : ℕ) where
  IsKept-add_operation :
      (operations more : Operations) (o : HafOperation)
      → IsKept from_block to_block operations
      → IsFetched from_block to_block o
      → add_operation server from_block to_block operations o ≡ ok more
      → IsKept from_block to_block more
  unfolding add_operation
  IsKept-add_operation operations more o kept good h =
      elim (Bool-cases
        (differs server from_block to_block (map_get operations o.source_operation_id) o)) [
          | inl e ↦ absurd (ground (arith, h, e))
          | inr e ↦ subst (IsKept from_block to_block) (ground (arith, h, e)) (record {
            keyed = IsKeyed-map_set operations o kept.keyed;
            unique =
                λ id. ground (arith, count_id-map_set operations id o kept.keyed, kept.unique id);
            fetched =
                All-map_set (IsFetched from_block to_block) operations o.source_operation_id o
                  kept.fetched good;
          })
        ]

  IsKept-add_item :
      (operations more : Operations) (item : HafahOperation)
      → valid_item item ≡ true
      → IsKept from_block to_block operations
      → add_item server from_block to_block operations item ≡ ok more
      → IsKept from_block to_block more
  unfolding add_item
  IsKept-add_item operations more item valid kept h =
      let (inside, h₁) =
        past_guard (ltb item.block from_block || ltb to_block item.block) _ more h in
      let (known, h₂) =
        past_guard (not item.virtual_op && is_missing (transaction_id_of item.trx_id)) _ more h₁ in
      let (timestamp, dated, h₃) =
        bind_ok (normalize_hive_timestamp server item.timestamp)
          (λ timestamp.
            add_operation server from_block to_block operations
              (normalized server from_block to_block item timestamp))
          more h₂ in
      let (hashed, nonzero) =
        transaction_id_of-valid_transaction item.trx_id (ground (arith, valid)) in
      let numbered : is_uint64 item.operation_id ≡ true = ground (arith, valid) in
      IsKept-add_operation operations more (normalized server from_block to_block item timestamp)
        kept
        (record {
          above = ground (arith, inside);
          below = ground (arith, inside);
          numbered = numbered;
          digits = (is_uint64-digits item.operation_id numbered).0;
          no_zeros = (is_uint64-digits item.operation_id numbered).1;
          fits = (is_uint64-digits item.operation_id numbered).2;
          hashed = hashed;
          nonzero = nonzero;
          signed = λ real. ground (arith, known, real);
        })
        h₃

  IsKept-add_items :
      (operations more : Operations) (items : List HafahOperation)
      → all valid_item items ≡ true
      → IsKept from_block to_block operations
      → add_items server from_block to_block operations items ≡ ok more
      → IsKept from_block to_block more
  unfolding add_items
  IsKept-add_items operations more [] valid kept h =
      subst (IsKept from_block to_block) (ground (arith, h)) kept
  IsKept-add_items operations more (item ∷ items) valid kept h =
      let (next, added, rest) =
        bind_ok (add_item server from_block to_block operations item)
          (λ next. add_items server from_block to_block next items) more h in
      IsKept-add_items next more items (ground (arith, valid))
        (IsKept-add_item operations next item (ground (arith, valid)) kept added) rest

  IsKept-read_into :
      (tick request page_from : ℕ) (begin : Option ℕ) (operations more : Operations)
      (next : Option (ℕ × ℕ))
      → IsKept from_block to_block operations
      → read_into server from_block to_block tick request page_from begin operations
        ≡ ok (more, next)
      → IsKept from_block to_block more
  IsKept-read_into tick request page_from begin operations more next kept h =
      let (page, read, rest) =
        bind_ok (read_page server from_block to_block tick request page_from begin)
          (λ page. add_items server from_block to_block operations page.ops >>=? λ added.
            ok (added, next_page to_block page))
          (more, next) h in
      let (added, items, last) =
        bind_ok (add_items server from_block to_block operations page.ops)
          (λ added. ok (added, next_page to_block page)) (more, next) rest in
      IsKept-add_items operations more page.ops
        (valid_page-ops page
          (read_page-valid_page server from_block to_block tick request page_from begin page read))
        kept (ground (arith, items, last))

  IsKept-read_pages :
      (fuel tick request : ℕ) (visited : List ℕ) (page_from : ℕ) (begin : Option ℕ)
      (operations more : Operations)
      → IsKept from_block to_block operations
      → read_pages server from_block to_block fuel tick request visited page_from begin operations
        ≡ some (ok more)
      → IsKept from_block to_block more
  unfolding read_pages
  IsKept-read_pages zero tick request visited page_from begin operations more kept h =
      absurd (ground (arith, h))
  IsKept-read_pages (suc fuel) tick request visited page_from begin operations more kept h =
      elim (Bool-cases (is_visited (page_key page_from begin) visited)) [
        | inl e ↦ absurd (ground (arith, h, e))
        | inr e ↦
            continued_kept (IsKept from_block to_block)
              (λ block id next.
                read_pages server from_block to_block fuel tick (suc request)
                  (page_key page_from begin ∷ visited) block (some id) next)
              (read_into server from_block to_block tick request page_from begin operations) more
              (λ next page read.
                IsKept-read_into tick request page_from begin operations next page kept read)
              (λ block id next kept_next.
                IsKept-read_pages fuel tick (suc request) (page_key page_from begin ∷ visited) block
                  (some id) next more kept_next)
              (ground (arith, h, e))
      ]

-- What `getOperations` promises of its operations.
pub record IsOperations (from_block to_block : ℕ) (os : List HafOperation) : Type 0 where
  pub fetched : All (IsFetched from_block to_block) os
  pub unique : (id : String) → count_id id os ≤ 1
  pub sorted : IsSorted os

IsOperations-sorted_operations :
    (from_block to_block : ℕ) (operations : Operations)
    → IsKept from_block to_block operations
    → IsOperations from_block to_block (sorted_operations (values_of operations))
IsOperations-sorted_operations from_block to_block operations kept = record {
  fetched =
      All-sorted_operations (IsFetched from_block to_block) (values_of operations) kept.fetched;
  unique =
      λ id. ground (arith, count_id-sorted_operations id (values_of operations), kept.unique id);
  sorted = IsSorted-sorted_operations (values_of operations);
}

finished :
    (from_block to_block : ℕ) (r : Option (Result Failure Operations))
    (c : Result Failure (Unit {0})) (os : List HafOperation)
    → ((more : Operations) → r ≡ some (ok more) → IsKept from_block to_block more)
    → run_checked (finish r) c ≡ some (ok os)
    → (c ≡ ok tt) × IsOperations from_block to_block os
finished from_block to_block none (ok u) os kept h = absurd (ground (arith, h))
finished from_block to_block (some (err e)) (ok u) os kept h = absurd (ground (arith, h))
finished from_block to_block r (err e) os kept h = absurd (ground (arith, h))
finished from_block to_block (some (ok more)) (ok u) os kept h = (
  refl,
  subst (IsOperations from_block to_block) (ground (arith, h))
      (IsOperations-sorted_operations from_block to_block more (kept more refl)),
)

count_id_empty : (id : String) → count_id id [] ≤ 1
unfolding count_id
count_id_empty id = omega arith

-- The operations that reading a range gives, on any fuel and whatever the server answers: the range
-- is not inverted; each operation is of a block of the range, its id is a decimal below 2^64 with no
-- leading zero, its transaction is not the zero id and is there unless the operation is virtual; no id
-- stands twice; and they are sorted by block and index.
pub get_operations-IsOperations :
    (server : HafahServer) (fuel tick from_block to_block : ℕ) (os : List HafOperation)
    → get_operations server fuel tick from_block to_block ≡ some (ok os)
    → (from_block ≤ to_block) × IsOperations from_block to_block os
unfolding get_operations
get_operations-IsOperations server fuel tick from_block to_block os h =
    let (checked, good) =
      finished from_block to_block
        (read_pages server from_block to_block fuel tick 0 [] from_block none [])
        (checked_range from_block to_block) os
        (λ more.
          IsKept-read_pages server from_block to_block fuel tick 0 [] from_block none [] more
            (record { keyed = tt; unique = count_id_empty; fetched = tt }))
        h in
    (ground (arith, checked), good)
