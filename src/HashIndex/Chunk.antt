-- ===== src/HashIndex/Chunk.antt =====
-- The chunk that r_hash_index_get_chunk returns.
use docker_yocto_kirkstone_n.Prelude.{
  ℕ, ◌*◌, ◌≤◌, ◌<◌, ◌≡◌, refl, sym, ap, ◌∙◌, false, some, Str, ◌⊎◌, inl, inr, get_elem?, ◌==◌,
  arith,
}
use docker_yocto_kirkstone_n.Exec.{
  Error, ok, err, file_error, hash_index_not_found, hash_index_modified,
}
use docker_yocto_kirkstone_n.Io.{Device, pread_exact}
use docker_yocto_kirkstone_n.Io.Pread.{FileOf, slice, pread_exact_lem}
use docker_yocto_kirkstone_n.HashIndex.{
  RaucHashIndex, RaucHashIndexChunk, found, not_found, find_chunk, read_checked, read_chunk,
  chunk_of, get_chunk,
}
use docker_yocto_kirkstone_n.HashIndex.Search.{IsSorted}
use docker_yocto_kirkstone_n.HashIndex.Find.{find_chunk_lem}
use docker_yocto_kirkstone_n.HashIndex.Checked.{read_checked_sound, read_checked_error}

module _ (d : Device) (file : FileOf d) (sha256 : Str → Str) (idx : RaucHashIndex)
    (sorted : IsSorted idx) (hash : Str) where
  get_chunk-find_chunk :
      (chunk : RaucHashIndexChunk) (s : d.State)
      → get_chunk d sha256 idx hash chunk s
        ≡ chunk_of d sha256 idx hash chunk (find_chunk idx hash) s
  unfolding get_chunk
  get_chunk-find_chunk chunk s = rw (not_zero idx.count sorted.not_empty) refl
    where
      not_zero : (n : ℕ) → 0 < n → (n == 0) ≡ false
      not_zero n h = ground arith

  pub get_chunk-found :
      (chunk : RaucHashIndexChunk) (s : d.State) (i : ℕ)
      → find_chunk idx hash ≡ found i
      → i < idx.count
      → (get_chunk d sha256 idx hash chunk s).0
        ≡ read_checked sha256 idx.skip_hash_check hash chunk
            (pread_exact d 4096 (sorted.chunk i * 4096) s).0
  get_chunk-found chunk s i found_at small =
      ap (λ r. r.0) (get_chunk-find_chunk chunk s)
      ∙ ap (λ f. (chunk_of d sha256 idx hash chunk f s).0) found_at
      ∙ ap (λ o. (read_chunk d sha256 idx hash chunk o s).0) (sorted.lookup_at i small)

  pub get_chunk-not_found :
      (chunk : RaucHashIndexChunk) (s : d.State)
      → find_chunk idx hash ≡ not_found
      → (get_chunk d sha256 idx hash chunk s).0 ≡ err hash_index_not_found
  get_chunk-not_found chunk s none_is =
      ap (λ r. r.0) (get_chunk-find_chunk chunk s)
      ∙ ap (λ f. (chunk_of d sha256 idx hash chunk f s).0) none_is

  read_ended :
      (offset : ℕ) (s : d.State)
      → ((b : Str) × ((pread_exact d 4096 offset s).0 ≡ ok b))
        ⊎ ((pread_exact d 4096 offset s).0 ≡ err file_error)
  read_ended offset s = elim (pread_exact_lem d file 4096 offset s) [
    | inl (e, whole) ↦ inl (slice 4096 offset (file.content s), e)
    | inr e ↦ inr e
  ]

  read_slice :
      (offset : ℕ) (s : d.State) (bytes : Str)
      → (pread_exact d 4096 offset s).0 ≡ ok bytes
      → slice 4096 offset (file.content s) ≡ bytes
  read_slice offset s bytes h = elim (pread_exact_lem d file 4096 offset s) [
    | inl (e, whole) ↦ the_bytes (sym e ∙ h)
    | inr e ↦ absurd (no_bytes (sym e ∙ h))
  ]
    where
      the_bytes : {a b : Str} → ok a ≡ ok b → a ≡ b
      the_bytes q = cc

      no_bytes : {a : Str} → err file_error ≡ ok a → ⊥
      no_bytes q = cc

  -- A chunk that r_hash_index_get_chunk returns is the 4096 bytes of the file at the place of a
  -- chunk that is in the valid range and has the hash in the index; and unless the check of the hash
  -- is skipped, SHA256 of these bytes is the hash. The index has to be sorted.
  pub get_chunk_sound :
      (chunk result : RaucHashIndexChunk) (s : d.State)
      → (get_chunk d sha256 idx hash chunk s).0 ≡ ok result
      → (c : ℕ) × (slice 4096 (c * 4096) (file.content s) ≡ result.data_bytes)
        × (get_elem? idx.hashes c ≡ some hash)
        × (idx.invalid_below ≤ c)
        × (c < idx.invalid_from)
        × (idx.skip_hash_check ≡ false → (sha256 result.data_bytes ≡ hash) × (result.hash ≡ hash))
  get_chunk_sound chunk result s h = elim (find_chunk_lem idx sorted hash) [
    | inr none_is ↦ absurd (no_chunk (sym (get_chunk-not_found chunk s none_is) ∙ h))
    | inl (i, found_at, small, at, from, to) ↦
        let (bytes, hashed) =
          read_checked_sound sha256 hash idx.skip_hash_check chunk result
            (pread_exact d 4096 (sorted.chunk i * 4096) s).0
            (sym (get_chunk-found chunk s i found_at small) ∙ h) in
        (
          sorted.chunk i,
          read_slice (sorted.chunk i * 4096) s result.data_bytes bytes,
          sorted.hashes_at i small ∙ ap some at,
          from,
          to,
          hashed,
        )
  ]
    where
      no_chunk : {a : RaucHashIndexChunk} → err hash_index_not_found ≡ ok a → ⊥
      no_chunk q = cc

  -- What r_hash_index_get_chunk fails with on a sorted index: the hash was not found, the file could
  -- not be read, or the chunk was modified.
  pub get_chunk_error :
      (chunk : RaucHashIndexChunk) (e : Error) (s : d.State)
      → (get_chunk d sha256 idx hash chunk s).0 ≡ err e
      → (e ≡ hash_index_not_found)
        ⊎ ((e ≡ file_error) ⊎ ((e ≡ hash_index_modified) × (idx.skip_hash_check ≡ false)))
  get_chunk_error chunk e s h = elim (find_chunk_lem idx sorted hash) [
    | inr none_is ↦ inl (cc (h, get_chunk-not_found chunk s none_is))
    | inl (i, found_at, small, at, from, to) ↦ inr (
        read_checked_error sha256 hash idx.skip_hash_check chunk e
          (pread_exact d 4096 (sorted.chunk i * 4096) s).0 (read_ended (sorted.chunk i * 4096) s)
          (sym (get_chunk-found chunk s i found_at small) ∙ h))
  ]
