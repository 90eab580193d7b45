-- ===== src/Projector/Hafah/Pages/Termination.antt =====
-- Why the loop of `getOperations` ends: a page is read at most once, and the next page is one up to
-- the last block of the range.
use hive_chameleon.Prelude.{
  ℕ, zero, suc, ◌+◌, ◌*◌, ◌≤◌, ◌<◌, ◌≡◌, refl, true, false, Option, none, some, List, [], ◌∷◌,
  arith, ◌==◌, is_some, Bool-cases, inl, inr, if◌then◌else◌,
}
use hive_chameleon.Exec.{Result, ok, err, ◌>>=?◌, bind_ok}
use hive_chameleon.Projector.Model.{Failure}
use hive_chameleon.Projector.Hafah.{HafahServer, OperationsPage}
use hive_chameleon.Projector.Hafah.Pages.{
  Operations, page_key, is_visited, next_page, valid_page, valid_begin, uint64_limit, bound,
  read_page, read_into, read_pages, get_operations, add_items, continue_with, finish, run_checked,
  checked_range,
}

-- How many keys below a limit are not visited.
unvisited : ℕ → List ℕ → ℕ
unvisited zero visited = zero
unvisited (suc n) visited =
    if is_visited n visited then unvisited n visited else suc (unvisited n visited)

visit_above :
    (limit k : ℕ) (visited : List ℕ)
    → limit ≤ k
    → unvisited limit (k ∷ visited) ≡ unvisited limit visited
unfolding unvisited is_visited
visit_above zero k visited above = refl
visit_above (suc n) k visited above = ground (arith, visit_above n k visited (omega arith))

visit_below :
    (limit k : ℕ) (visited : List ℕ)
    → k < limit
    → is_visited k visited ≡ false
    → suc (unvisited limit (k ∷ visited)) ≡ unvisited limit visited
unfolding unvisited is_visited
visit_below zero k visited below fresh = absurd (omega arith)
visit_below (suc n) k visited below fresh = elim (Bool-cases (k == n)) [
  | inl e ↦ ground (arith, e, visit_above n k visited (ground (arith, e)))
  | inr e ↦ ground (arith, e, visit_below n k visited (ground (arith, e)) fresh)
]

unvisited_le : (limit : ℕ) (visited : List ℕ) → unvisited limit visited ≤ limit
unfolding unvisited
unvisited_le zero visited = omega arith
unvisited_le (suc n) visited = ground (arith, unvisited_le n visited)

page_key_bound :
    (m page_from : ℕ) (begin : Option ℕ)
    → page_from ≤ m
    → valid_begin begin ≡ true
    → page_key page_from begin < suc m * (uint64_limit + 1)
unfolding page_key
page_key_bound m page_from none le valid = omega arith
page_key_bound m page_from (some id) le valid = ground arith

next_page_le :
    (to_block : ℕ) (page : OperationsPage) (block id : ℕ)
    → valid_page page ≡ true
    → next_page to_block page ≡ some (block, id)
    → (block ≤ to_block) × (id < uint64_limit)
unfolding next_page valid_page
next_page_le to_block page block id valid next = ground arith

continued :
    (loop : ℕ → ℕ → Operations → Option (Result Failure Operations))
    (r : Result Failure (Operations × Option (ℕ × ℕ)))
    → ((block id : ℕ) (more : Operations)
        → r ≡ ok (more, some (block, id))
        → is_some (loop block id more) ≡ true)
    → is_some (continue_with loop r) ≡ true
continued loop (err e) h = refl
continued loop (ok (more, none)) h = refl
continued loop (ok (more, some (block, id))) h = h block id more refl

module _ (server : HafahServer) (from_block to_block : ℕ) where
  pub read_page-valid_page :
      (tick request page_from : ℕ) (begin : Option ℕ) (page : OperationsPage)
      → read_page server from_block to_block tick request page_from begin ≡ ok page
      → valid_page page ≡ true
  unfolding read_page
  read_page-valid_page tick request page_from begin page h = ground arith

  read_into_le :
      (tick request page_from : ℕ) (begin : Option ℕ) (operations more : Operations) (block id : ℕ)
      → read_into server from_block to_block tick request page_from begin operations
        ≡ ok (more, some (block, id))
      → (block ≤ to_block) × (id < uint64_limit)
  read_into_le tick request page_from begin operations more block id h =
      let (page, read, rest) =
        bind_ok (read_page server from_block to_block tick request page_from begin)
          (λ page. add_items server from_block to_block operations page.ops >>=? λ added.
            ok (added, next_page to_block page))
          (more, some (block, id)) h in
      next_page_le to_block page block id
        (read_page-valid_page tick request page_from begin page read) (ground (arith, rest))

  read_pages-unvisited :
      (m fuel tick request : ℕ) (visited : List ℕ) (page_from : ℕ) (begin : Option ℕ)
      (operations : Operations)
      → to_block ≤ m
      → page_from ≤ m
      → valid_begin begin ≡ true
      → unvisited (suc m * (uint64_limit + 1)) visited < fuel
      → is_some (
          read_pages server from_block to_block fuel tick request visited page_from begin
            operations)
        ≡ true
  unfolding read_pages
  read_pages-unvisited m zero tick request visited page_from begin operations to_le le valid
        enough =
      absurd (omega arith)
  read_pages-unvisited m (suc fuel) tick request visited page_from begin operations to_le le valid
        enough =
      elim (Bool-cases (is_visited (page_key page_from begin) visited)) [
        | inl e ↦ rw (is_some, e) refl
        | inr e ↦
            rw (is_some, e)
              (continued
                (λ block id more.
                  read_pages server from_block to_block fuel tick (suc request)
                    (page_key page_from begin ∷ visited) block (some id) more)
                (read_into server from_block to_block tick request page_from begin operations)
                (λ block id more h.
                  let (block_le, id_lt) =
                    read_into_le tick request page_from begin operations more block id h in
                  read_pages-unvisited m fuel tick (suc request)
                    (page_key page_from begin ∷ visited) block (some id) more to_le (omega arith)
                    (ground (arith, id_lt))
                    (let fewer =
                        visit_below (suc m * (uint64_limit + 1)) (page_key page_from begin) visited
                          (page_key_bound m page_from begin le valid) e in
                      omega (arith, fewer))))
      ]

run_checked-is_some :
    (r : Option (Result Failure Operations)) (c : Result Failure (Unit {0}))
    → is_some r ≡ true
    → is_some (run_checked (finish r) c) ≡ true
run_checked-is_some none c h = absurd (ground (arith, h))
run_checked-is_some (some r) (err e) h = refl
run_checked-is_some (some (ok operations)) (ok u) h = refl
run_checked-is_some (some (err e)) (ok u) h = refl

-- With `bound` rounds, more than the pages that blocks up to the sum of the two ends and 64-bit ids
-- can name, reading the operations of a range ends, with operations or with an error, whatever the
-- server answers.
pub get_operations-bound :
    (server : HafahServer) (tick from_block to_block : ℕ)
    → is_some (get_operations server (bound from_block to_block) tick from_block to_block) ≡ true
unfolding get_operations
get_operations-bound server tick from_block to_block =
    let fits = unvisited_le (suc (from_block + to_block) * (uint64_limit + 1)) [] in
    let ended =
      read_pages-unvisited server from_block to_block (from_block + to_block)
        (bound from_block to_block) tick 0 [] from_block none [] (omega arith) (omega arith) refl
        (omega (arith, fits)) in
    run_checked-is_some
      (read_pages server from_block to_block (bound from_block to_block) tick 0 [] from_block none
        [])
      (checked_range from_block to_block) ended
