-- ===== src/HashIndex/Find.antt =====
-- The position of the chunk that r_hash_index_get_chunk reads.
use docker_yocto_kirkstone_n.Prelude.{
  ℕ, suc, ◌-◌, ◌≤◌, ◌<◌, ◌≡◌, ◌≢◌, refl, Str, ltb, Bool-cases, ◌⊎◌, inl, inr, arith,
}
use docker_yocto_kirkstone_n.HashIndex.{RaucHashIndex, Found, found, not_found, find_chunk}
use docker_yocto_kirkstone_n.HashIndex.Search.{IsSorted, binary_search_lem}
use docker_yocto_kirkstone_n.HashIndex.First.{
  ValidOrNone, first_with_hash_lem, first_valid_lem, first_valid_complete,
}

module _ (idx : RaucHashIndex) (sorted : IsSorted idx) (hash : Str) where
  -- The search of a sorted index ends and reads no array behind its end: it finds a position whose
  -- chunk has the hash and is in the valid range, or it finds none.
  pub find_chunk_lem :
      ((i : ℕ) × (find_chunk idx hash ≡ found i)
        × (i < idx.count)
        × (sorted.key i ≡ hash)
        × (idx.invalid_below ≤ sorted.chunk i)
        × (sorted.chunk i < idx.invalid_from))
      ⊎ (find_chunk idx hash ≡ not_found)
  unfolding find_chunk
  find_chunk_lem =
      let pos = sorted.not_empty in
      elim (binary_search_lem idx sorted hash (suc idx.count) 0 (idx.count - 1) (omega arith)
        (omega arith) (omega arith)) [
          | inl (m, searched, small, at) ↦
              let (f, first, le, at_first, _) =
                first_with_hash_lem idx sorted hash m m (omega arith) small at at in
              rw (searched, first, find_chunk)
                (flat (first_valid_lem idx sorted hash (idx.count - f) f (omega arith)))
          | inr (searched, none_is) ↦ rw (searched, find_chunk) (inr refl)
        ]
    where
      flat :
          {r : Found}
          → ValidOrNone idx sorted hash r
          → ((i : ℕ) × (r ≡ found i)
              × (i < idx.count)
              × (sorted.key i ≡ hash)
              × (idx.invalid_below ≤ sorted.chunk i)
              × (sorted.chunk i < idx.invalid_from))
            ⊎ (r ≡ not_found)
      flat (inl (i, e, small, (at, from, to))) = inl (i, e, small, at, from, to)
      flat (inr e) = inr e

  -- If the first hash of the sorted index is another one, the search finds the hash wherever a chunk
  -- in the valid range has it, and at the latest at that chunk's position.
  pub find_chunk_complete :
      (v : ℕ)
      → sorted.key 0 ≢ hash
      → v < idx.count
      → sorted.key v ≡ hash
      → idx.invalid_below ≤ sorted.chunk v
      → sorted.chunk v < idx.invalid_from
      → (r : ℕ) × (find_chunk idx hash ≡ found r) × (r ≤ v)
  unfolding find_chunk
  find_chunk_complete v other small at from to =
      let pos = sorted.not_empty in
      elim (binary_search_lem idx sorted hash (suc idx.count) 0 (idx.count - 1) (omega arith)
        (omega arith) (omega arith)) [
          | inr (searched, none_is) ↦ absurd (none_is v (omega arith) (omega arith) at)
          | inl (m, searched, small_m, at_m) ↦
              let (f, first, le, at_first, where_first) =
                first_with_hash_lem idx sorted hash m m (omega arith) small_m at_m at_m in
              rw (searched, first, find_chunk)
                (first_valid_complete idx sorted hash (idx.count - f) f v (omega arith)
                  (not_behind f m where_first) small at_first (at, from, to))
        ]
    where
      not_behind :
          (f m : ℕ)
          → ((i : ℕ) → i < f → sorted.key i ≢ hash) ⊎ ((f ≡ m) × (sorted.key 0 ≡ hash))
          → f ≤ v
      not_behind f m (inr (e, at_zero)) = absurd (other at_zero)
      not_behind f m (inl before) = elim (Bool-cases (ltb v f)) [
        | inl behind ↦ absurd (before v (ground arith) at)
        | inr le ↦ ground arith
      ]
