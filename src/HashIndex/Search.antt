-- ===== src/HashIndex/Search.antt =====
-- The binary search of a sorted index.
use docker_yocto_kirkstone_n.Prelude.{
  ℕ, zero, suc, ◌+◌, ◌-◌, ◌%◌, ◌^◌, ◌≤◌, ◌<◌, ◌≡◌, ◌≢◌, refl, true, false, none, some, Str, ltb,
  leb, Bool-cases, ◌⊎◌, inl, inr, get_elem?, arith,
}
use mathlib.Core.Path.{subst}
use docker_yocto_kirkstone_n.Compare.{Cmp, less, same, greater, memcmp}
use docker_yocto_kirkstone_n.HashIndex.{
  RaucHashIndex, Found, found, not_found, out_of_bounds, hash_at, middle_of, binary_search,
}
use docker_yocto_kirkstone_n.HashIndex.Memcmp.{AtMost, memcmp-same, memcmp_swap_less}

-- An index as r_hash_index_open builds it: `chunk` and `key` are what its arrays hold at each
-- position, sorted by hash, and by chunk number where hashes are the same.
pub record IsSorted (idx : RaucHashIndex) : Type 0 where
  pub chunk : ℕ → ℕ
  pub key : ℕ → Str
  pub not_empty : 0 < idx.count
  pub small : idx.count < 2 ^ 32
  pub lookup_at : (i : ℕ) → i < idx.count → get_elem? idx.lookup i ≡ some (chunk i)
  pub hashes_at : (i : ℕ) → i < idx.count → get_elem? idx.hashes (chunk i) ≡ some (key i)
  pub by_hash : (i j : ℕ) → i ≤ j → j < idx.count → AtMost (key i) (key j)
  pub by_number : (i j : ℕ) → i ≤ j → j < idx.count → key i ≡ key j → chunk i ≤ chunk j

pub Cmp-split : (r : Cmp) → (r ≡ less) ⊎ ((r ≡ same) ⊎ (r ≡ greater))
Cmp-split less = inl refl
Cmp-split same = inr (inl refl)
Cmp-split greater = inr (inr refl)

pub middle_bounds :
    (left right : ℕ)
    → left ≤ right
    → right < 2 ^ 32
    → (left ≤ middle_of left right) × (middle_of left right ≤ right)
middle_bounds left right h k = omega arith

module _ (idx : RaucHashIndex) (sorted : IsSorted idx) (hash : Str) where
  pub hash_at_lem : (i : ℕ) → i < idx.count → hash_at idx i ≡ some (sorted.key i)
  hash_at_lem i h = rw (sorted.lookup_at i h) (sorted.hashes_at i h)

  -- What a search of the positions from `left` to `right` may answer.
  abbrev pub Answers : ℕ → ℕ → Found → Type 0
  Answers left right r =
      ((m : ℕ) × (r ≡ found m) × (m < idx.count) × (sorted.key m ≡ hash))
      ⊎ ((r ≡ not_found) × ((i : ℕ) → left ≤ i → i ≤ right → sorted.key i ≢ hash))

  below :
      (m i : ℕ) → m < idx.count → memcmp (sorted.key m) hash ≡ less → i ≤ m → sorted.key i ≢ hash
  below m i small h le e =
      subst (λ k. AtMost k (sorted.key m)) e (sorted.by_hash i m le small)
        (memcmp_swap_less (sorted.key m) hash h)

  above :
      (m i : ℕ) → i < idx.count → memcmp (sorted.key m) hash ≡ greater → m ≤ i → sorted.key i ≢ hash
  above m i small h le e = subst (AtMost (sorted.key m)) e (sorted.by_hash m i le small) h

  abbrev pub Searched : ℕ → Type 0
  Searched fuel =
      (left right : ℕ)
      → left ≤ suc right
      → right < idx.count
      → suc right < fuel + left
      → Answers left right (binary_search fuel idx hash left right)

  abbrev looked : ℕ → ℕ → ℕ → ℕ → Found
  looked fuel left right m = elim (hash_at idx m) [
    | none ↦ out_of_bounds
    | some h ↦ elim (memcmp h hash) [
      | same ↦ found m
      | less ↦ binary_search fuel idx hash ((m + 1) % 2 ^ 32) right
      | greater ↦ elim (ltb 0 m) [
        | true ↦ binary_search fuel idx hash left (m - 1)
        | false ↦ not_found
      ]
    ]
  ]

  go_right :
      (left right m : ℕ) (r : Found)
      → m < idx.count
      → memcmp (sorted.key m) hash ≡ less
      → Answers (m + 1) right r
      → Answers left right r
  go_right left right m r small h (inl found_it) = inl found_it
  go_right left right m r small h (inr (e, none_is)) = inr (
    e,
    λ i from to. elim (Bool-cases (leb i m)) [
      | inl le ↦ below m i small h (ground arith)
      | inr gt ↦ none_is i (ground arith) to
    ],
  )

  go_left :
      (left right m : ℕ) (r : Found)
      → right < idx.count
      → 0 < m
      → memcmp (sorted.key m) hash ≡ greater
      → Answers left (m - 1) r
      → Answers left right r
  go_left left right m r small pos h (inl found_it) = inl found_it
  go_left left right m r small pos h (inr (e, none_is)) = inr (
    e,
    λ i from to. elim (Bool-cases (leb m i)) [
      | inl le ↦ above m i (omega arith) h (ground arith)
      | inr gt ↦ none_is i from (ground arith)
    ],
  )

  looked_lem :
      (fuel left right m : ℕ)
      → Searched fuel
      → left ≤ m
      → m ≤ right
      → right < idx.count
      → suc right < suc fuel + left
      → Answers left right (looked fuel left right m)
  looked_lem fuel left right m rec from to small enough =
      let chunk_in = sorted.lookup_at m (omega arith) in
      let key_in = sorted.hashes_at m (omega arith) in
      let limit = sorted.small in
      elim (Cmp-split (memcmp (sorted.key m) hash)) [
        | inl h ↦
            rw (chunk_in, key_in, h, looked)
              (go_right left right m _ (omega arith) h (
                subst (λ l. Answers l right (binary_search fuel idx hash ((m + 1) % 2 ^ 32) right))
                  (omega arith) (rec ((m + 1) % 2 ^ 32) right (omega arith) small (omega arith))))
        | inr (inl h) ↦
            rw (chunk_in, key_in, h, looked)
              (inl (m, refl, omega arith, memcmp-same (sorted.key m) hash h))
        | inr (inr h) ↦ elim (Bool-cases (ltb 0 m)) [
          | inl pos ↦
              rw (chunk_in, key_in, h, pos, looked)
                (go_left left right m _ small (ground arith) h
                  (rec left (m - 1) (ground arith) (omega arith) (ground arith)))
          | inr at_zero ↦
              rw (chunk_in, key_in, h, at_zero, looked)
                (inr (refl, λ i le to. above m i (omega arith) h (ground arith)))
        ]
      ]

  -- With a unit of fuel more than there are positions the search ends, inside the arrays.
  pub binary_search_lem : (fuel : ℕ) → Searched fuel
  unfolding binary_search
  binary_search_lem zero left right a b c = absurd (omega arith)
  binary_search_lem (suc fuel) left right a b c = elim (Bool-cases (leb left right)) [
    | inr over ↦ rw (over, binary_search) (inr (refl, λ i h k. absurd (ground arith)))
    | inl on ↦
        let limit = sorted.small in
        let m = middle_bounds left right (ground arith) (omega arith) in
        rw (on, binary_search)
          (looked_lem fuel left right (middle_of left right) (binary_search_lem fuel) m.0 m.1 b c)
  ]
