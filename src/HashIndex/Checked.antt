-- ===== src/HashIndex/Checked.antt =====
-- The check of the hash of a chunk that was read.
use docker_yocto_kirkstone_n.Prelude.{
  ◌≡◌, refl, sym, ap, ◌∙◌, Bool, true, false, Str, str_eq, str_eq_iff, Bool-cases, ◌⊎◌, inl, inr,
}
use mathlib.Core.Path.{subst}
use docker_yocto_kirkstone_n.Exec.{Error, Result, ok, err, file_error, hash_index_modified}
use docker_yocto_kirkstone_n.HashIndex.{RaucHashIndexChunk, checked, read_checked}

module _ (sha256 : Str → Str) (hash : Str) where
  abbrev Checked : Bool → Str → RaucHashIndexChunk → Type 0
  Checked skip bytes result =
      (result.data_bytes ≡ bytes)
      × (skip ≡ false → (sha256 result.data_bytes ≡ hash) × (result.hash ≡ hash))

  checked_sound :
      (skip : Bool) (chunk result : RaucHashIndexChunk)
      → checked sha256 skip hash chunk ≡ ok result
      → Checked skip chunk.data_bytes result
  checked_sound true chunk result h =
      subst (Checked true chunk.data_bytes) (the_chunk h) (refl, λ e. cc)
    where
      the_chunk : {a b : RaucHashIndexChunk} → ok a ≡ ok b → a ≡ b
      the_chunk q = cc
  checked_sound false chunk result h = elim (Bool-cases (str_eq (sha256 chunk.data_bytes) hash)) [
    | inl same ↦
        let e = (str_eq_iff (sha256 chunk.data_bytes) hash).0 same in
        subst (Checked false chunk.data_bytes) (the_chunk (sym (passes same) ∙ h))
          (refl, λ q. (e, e))
    | inr other ↦ absurd (no_chunk (sym (refuses other) ∙ h))
  ]
    where
      the_chunk : {a b : RaucHashIndexChunk} → ok a ≡ ok b → a ≡ b
      the_chunk q = cc

      no_chunk : {a : RaucHashIndexChunk} → err hash_index_modified ≡ ok a → ⊥
      no_chunk q = cc

      passes :
          str_eq (sha256 chunk.data_bytes) hash ≡ true
          → checked sha256 false hash chunk ≡ ok (record chunk { hash = sha256 chunk.data_bytes })
      passes same = rw same refl

      refuses :
          str_eq (sha256 chunk.data_bytes) hash ≡ false
          → checked sha256 false hash chunk ≡ err hash_index_modified
      refuses other = rw other refl

  pub read_checked_sound :
      (skip : Bool) (chunk result : RaucHashIndexChunk) (bytes : Result Str)
      → read_checked sha256 skip hash chunk bytes ≡ ok result
      → (bytes ≡ ok result.data_bytes)
        × (skip ≡ false → (sha256 result.data_bytes ≡ hash) × (result.hash ≡ hash))
  read_checked_sound skip chunk result (err e) h = cc
  read_checked_sound skip chunk result (ok bytes) h =
      let (same, hashed) = checked_sound skip (record chunk { data_bytes = bytes }) result h in
      (ap ok (sym same), hashed)

  pub read_checked_error :
      (skip : Bool) (chunk : RaucHashIndexChunk) (e : Error) (bytes : Result Str)
      → ((b : Str) × (bytes ≡ ok b)) ⊎ (bytes ≡ err file_error)
      → read_checked sha256 skip hash chunk bytes ≡ err e
      → (e ≡ file_error) ⊎ ((e ≡ hash_index_modified) × (skip ≡ false))
  read_checked_error skip chunk e (err k) (inl (b, q)) h = cc
  read_checked_error skip chunk e (err k) (inr q) h = inl (cc (q, h))
  read_checked_error true chunk e (ok b) read h = cc
  read_checked_error false chunk e (ok b) read h = elim (Bool-cases (str_eq (sha256 b) hash)) [
    | inl same ↦ absurd (not_both same h)
    | inr other ↦ inr (modified other h, refl)
  ]
    where
      not_both :
          str_eq (sha256 b) hash ≡ true → read_checked sha256 false hash chunk (ok b) ≡ err e → ⊥
      not_both same = rw same (λ q. cc)

      modified :
          str_eq (sha256 b) hash ≡ false
          → read_checked sha256 false hash chunk (ok b) ≡ err e
          → e ≡ hash_index_modified
      modified other = rw other (λ q. cc)
