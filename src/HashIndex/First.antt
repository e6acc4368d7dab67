-- ===== src/HashIndex/First.antt =====
-- The first chunk with a hash, and the first valid one.
use docker_yocto_kirkstone_n.Prelude.{
  ℕ, zero, suc, ◌+◌, ◌-◌, ◌≤◌, ◌<◌, ◌≡◌, ◌≢◌, refl, sym, ◌∙◌, true, false, none, some, Str, str_eq,
  str_eq_iff, ltb, leb, Bool-cases, ◌⊎◌, inl, inr, get_elem?, arith,
}
use mathlib.Core.Path.{subst}
use docker_yocto_kirkstone_n.HashIndex.{
  RaucHashIndex, Found, found, not_found, out_of_bounds, hash_at, first_with_hash, first_valid,
}
use docker_yocto_kirkstone_n.HashIndex.Memcmp.{AtMost, AtMost-antisym}
use docker_yocto_kirkstone_n.HashIndex.Search.{IsSorted}

module _ (idx : RaucHashIndex) (sorted : IsSorted idx) (hash : Str) where
  -- Between two positions with the hash, all have it.
  pub between :
      (i j k : ℕ)
      → i ≤ j
      → j ≤ k
      → k < idx.count
      → sorted.key i ≡ hash
      → sorted.key k ≡ hash
      → sorted.key j ≡ hash
  between i j k a b small e f =
      AtMost-antisym (sorted.key j) hash
        (subst (AtMost (sorted.key j)) f (sorted.by_hash j k b small))
        (subst (λ h. AtMost h (sorted.key j)) e (sorted.by_hash i j a (omega arith)))

  -- Where the loop ends: at the first position with the hash, or where it began and the hash is at 0.
  abbrev pub FirstOf : ℕ → Found → Type 0
  FirstOf m r =
      (f : ℕ) × (r ≡ found f)
      × (f ≤ m)
      × (sorted.key f ≡ hash)
      × (((i : ℕ) → i < f → sorted.key i ≢ hash) ⊎ ((f ≡ m) × (sorted.key 0 ≡ hash)))

  abbrev pub stepped : ℕ → ℕ → Found
  stepped m i = elim (hash_at idx i) [
    | none ↦ out_of_bounds
    | some h ↦ elim (str_eq h hash) [ true ↦ first_with_hash idx hash m i | false ↦ found (suc i) ]
  ]

  pub first_with_hash_lem :
      (m i : ℕ)
      → i ≤ m
      → m < idx.count
      → sorted.key m ≡ hash
      → sorted.key i ≡ hash
      → FirstOf m (first_with_hash idx hash m i)
  unfolding first_with_hash
  first_with_hash_lem m zero a small e at = (m, refl, omega arith, e, inr (refl, at))
  first_with_hash_lem m (suc i) a small e at =
      let chunk_in = sorted.lookup_at i (omega arith) in
      let key_in = sorted.hashes_at i (omega arith) in
      elim (Bool-cases (str_eq (sorted.key i) hash)) [
        | inl same ↦
            rw (chunk_in, key_in, same, first_with_hash)
              (first_with_hash_lem m i (omega arith) small e
                ((str_eq_iff (sorted.key i) hash).0 same))
        | inr other ↦
            rw (chunk_in, key_in, other, first_with_hash)
              (
                suc i,
                refl,
                a,
                at,
                inl (λ j below q. cc (
                  other,
                  (str_eq_iff (sorted.key i) hash).1
                      (between j i (suc i) (omega arith) (omega arith) (omega arith) q at),
                )),
              )
      ]

  abbrev pub IsValid : ℕ → Type 0
  IsValid i =
      (sorted.key i ≡ hash)
      × (idx.invalid_below ≤ sorted.chunk i)
      × (sorted.chunk i < idx.invalid_from)

  -- The loop ends inside the arrays, at a valid position or at none.
  abbrev pub ValidOrNone : Found → Type 0
  ValidOrNone r = ((i : ℕ) × (r ≡ found i) × (i < idx.count) × IsValid i) ⊎ (r ≡ not_found)

  abbrev tried : ℕ → ℕ → Found
  tried remaining i = elim (get_elem? idx.lookup i) [
    | none ↦ out_of_bounds
    | some curr ↦ elim (get_elem? idx.hashes curr) [
      | none ↦ out_of_bounds
      | some h ↦ elim (str_eq h hash) [
        | false ↦ not_found
        | true ↦ elim (leb idx.invalid_from curr) [
          | true ↦ not_found
          | false ↦ elim (ltb curr idx.invalid_below) [
            | false ↦ found i
            | true ↦ elim (ltb i (idx.count - 1)) [
              | true ↦ first_valid idx hash remaining (suc i)
              | false ↦ not_found
            ]
          ]
        ]
      ]
    ]
  ]

  pub first_valid_lem :
      (remaining i : ℕ) → remaining + i ≡ idx.count → ValidOrNone (first_valid idx hash remaining i)
  unfolding first_valid
  first_valid_lem zero i h = inr refl
  first_valid_lem (suc remaining) i h =
      let chunk_in = sorted.lookup_at i (omega arith) in
      let key_in = sorted.hashes_at i (omega arith) in
      elim (Bool-cases (str_eq (sorted.key i) hash)) [
        | inr other ↦ rw (chunk_in, key_in, other, first_valid) (inr refl)
        | inl same ↦ elim (Bool-cases (leb idx.invalid_from (sorted.chunk i))) [
          | inl late ↦ rw (chunk_in, key_in, same, late, first_valid) (inr refl)
          | inr in_time ↦ elim (Bool-cases (ltb (sorted.chunk i) idx.invalid_below)) [
            | inr valid ↦
                rw (chunk_in, key_in, same, in_time, valid, first_valid)
                  (inl (
                    i,
                    refl,
                    omega arith,
                    ((str_eq_iff (sorted.key i) hash).0 same, ground arith, ground arith),
                  ))
            | inl early ↦ elim (Bool-cases (ltb i (idx.count - 1))) [
              | inl more ↦
                  rw (chunk_in, key_in, same, in_time, early, more, first_valid)
                    (first_valid_lem remaining (suc i) (omega arith))
              | inr last ↦ rw (chunk_in, key_in, same, in_time, early, last, first_valid) (inr refl)
            ]
          ]
        ]
      ]

  -- From a position before a valid one, with the hash at both, a valid one is found, at the latest
  -- that one.
  pub first_valid_complete :
      (remaining i v : ℕ)
      → remaining + i ≡ idx.count
      → i ≤ v
      → v < idx.count
      → sorted.key i ≡ hash
      → IsValid v
      → (r : ℕ) × (first_valid idx hash remaining i ≡ found r) × (r ≤ v)
  unfolding first_valid
  first_valid_complete zero i v h a b e valid = absurd (omega arith)
  first_valid_complete (suc remaining) i v h a b e (at, from, to) =
      let chunk_in = sorted.lookup_at i (omega arith) in
      let key_in = sorted.hashes_at i (omega arith) in
      let same = (str_eq_iff (sorted.key i) hash).1 e in
      let order = sorted.by_number i v a b (e ∙ sym at) in
      elim (Bool-cases (leb idx.invalid_from (sorted.chunk i))) [
        | inl late ↦ absurd (ground arith)
        | inr in_time ↦ elim (Bool-cases (ltb (sorted.chunk i) idx.invalid_below)) [
          | inr valid ↦ (i, rw (chunk_in, key_in, same, in_time, valid, first_valid) refl, a)
          | inl early ↦ elim (Bool-cases (leb v i)) [
            | inl last ↦ absurd (ground (arith, from_last last, early))
            | inr before ↦
                rw (chunk_in, key_in, same, in_time, early, more before, first_valid)
                  (first_valid_complete remaining (suc i) v (omega arith) (ground arith) b
                    (between i (suc i) v (omega arith) (ground arith) b e at) (at, from, to))
          ]
        ]
      ]
    where
      from_last : leb v i ≡ true → idx.invalid_below ≤ sorted.chunk i
      from_last last = subst (λ k. idx.invalid_below ≤ sorted.chunk k) (ground arith) from

      more : leb v i ≡ false → ltb i (idx.count - 1) ≡ true
      more before = ground arith
