-- ===== src/Io/Pread.antt =====
-- What r_pread_exact reads of a file.
use docker_yocto_kirkstone_n.Prelude.{
  ℕ, zero, suc, ◌+◌, ◌-◌, ◌≤◌, ◌<◌, ◌≡◌, ◌≢◌, ◌⊎◌, refl, sym, ap, ◌∙◌, true, false, [], ◌∷◌, ◌++◌,
  Str, ◌==◌, leb, length, take, drop, length-append, take-split, drop-drop, inl, inr, arith,
}
use mathlib.Core.Path.{subst}
use docker_yocto_kirkstone_n.Exec.{Result, ok, err, file_error}
use docker_yocto_kirkstone_n.Io.{ReadResult, read_failed, got, Device, pread_rounds, pread_exact}

-- The bytes of a file at an offset.
abbrev pub slice : ℕ → ℕ → Str → Str
slice size offset content = take size (drop offset content)

-- The manual of pread() on a file that nothing else writes: it returns bytes that stand at the
-- offset, no more than asked for, and none only at the end of the file.
pub record FileOf (d : Device) : Type 0 where
  pub content : d.State → Str
  pub kept : (n offset : ℕ) (s : d.State) → content (d.pread n offset s).1 ≡ content s
  pub bytes_at :
      (n offset : ℕ) (s : d.State) (bytes : Str)
      → (d.pread n offset s).0 ≡ got bytes
      → (length bytes ≤ n) × (slice (length bytes) offset (content s) ≡ bytes)
  pub end_of_file :
      (n offset : ℕ) (s : d.State)
      → 0 < n
      → (d.pread n offset s).0 ≡ got []
      → length (content s) ≤ offset

ReadResult-cases : (r : ReadResult) → (r ≡ read_failed) ⊎ ((bytes : Str) × (r ≡ got bytes))
ReadResult-cases read_failed = inl refl
ReadResult-cases (got bytes) = inr (bytes, refl)

module _ (d : Device) (file : FileOf d) where
  abbrev ReadTo : ℕ → ℕ → d.State → Result Str × d.State → Type 0
  ReadTo size offset s r =
      (r.0 ≡ ok (slice size offset (file.content s)))
      × (length (slice size offset (file.content s)) ≡ size)

  slice_next :
      (remaining offset : ℕ) (s : d.State) (bytes : Str)
      → (d.pread remaining offset s).0 ≡ got bytes
      → bytes
          ++ slice
              (remaining - length bytes)
              (offset + length bytes)
              (file.content (d.pread remaining offset s).1)
        ≡ slice remaining offset (file.content s)
  slice_next remaining offset s bytes h =
      let (short, same) = file.bytes_at remaining offset s bytes h in
      ap (λ c. bytes ++ slice (remaining - length bytes) (offset + length bytes) c)
        (file.kept remaining offset s)
      ∙ ap (λ b. b ++ slice (remaining - length bytes) (offset + length bytes) (file.content s))
          (sym same)
      ∙ ap (λ l. slice (length bytes) offset (file.content s) ++ take (remaining - length bytes) l)
          (sym (drop-drop offset (length bytes) (file.content s)))
      ∙ take-split remaining (length bytes) (drop offset (file.content s)) short

  abbrev Outcome : ℕ → ℕ → d.State → Result Str × d.State → Type 0
  Outcome size offset s r = ReadTo size offset s r ⊎ (r.0 ≡ err file_error)

  joined :
      (fuel remaining offset : ℕ) (s : d.State) (bytes : Str)
      → (d.pread (suc remaining) offset s).0 ≡ got bytes
      → (length bytes == 0) ≡ false
      → leb (length bytes) (suc remaining) ≡ true
      → Outcome
          (suc remaining - length bytes)
          (offset + length bytes)
          (d.pread (suc remaining) offset s).1
          (pread_rounds d fuel
            (suc remaining - length bytes)
            (offset + length bytes)
            (d.pread (suc remaining) offset s).1)
      → Outcome (suc remaining) offset s (pread_rounds d (suc fuel) (suc remaining) offset s)
  unfolding pread_rounds
  joined fuel remaining offset s bytes h some_bytes short (inl (e, whole)) =
      let next = slice_next (suc remaining) offset s bytes h in
      rw (h, some_bytes, short, e, pread_rounds)
        (inl (ap ok next, ap length (sym next) ∙ length-append bytes _ ∙ ground arith))
  joined fuel remaining offset s bytes h some_bytes short (inr e) =
      rw (h, some_bytes, short, e, pread_rounds) (inr refl)

  -- A call that asks for bytes failed, read nothing, or read some.
  first_call :
      (remaining offset : ℕ) (s : d.State)
      → ((d.pread (suc remaining) offset s).0 ≡ read_failed)
        ⊎ (((d.pread (suc remaining) offset s).0 ≡ got [])
            ⊎ ((bytes : Str) × ((d.pread (suc remaining) offset s).0 ≡ got bytes)
                × ((length bytes == 0) ≡ false)
                × (leb (length bytes) (suc remaining) ≡ true)))
  first_call remaining offset s = elim (ReadResult-cases (d.pread (suc remaining) offset s).0) [
    | inl h ↦ inl h
    | inr ([], h) ↦ inr (inl h)
    | inr (b ∷ bytes, h) ↦
        let (short, same) = file.bytes_at (suc remaining) offset s (b ∷ bytes) h in
        inr (inr (b ∷ bytes, h, ground arith, ground arith))
  ]

  pub pread_rounds_lem :
      (fuel remaining offset : ℕ) (s : d.State)
      → remaining ≤ fuel
      → Outcome remaining offset s (pread_rounds d fuel remaining offset s)
  unfolding pread_rounds take
  pread_rounds_lem fuel zero offset s enough = inl (refl, refl)
  pread_rounds_lem zero (suc remaining) offset s enough = absurd (omega arith)
  pread_rounds_lem (suc fuel) (suc remaining) offset s enough =
      elim (first_call remaining offset s) [
        | inl h ↦ rw (h, pread_rounds) (inr refl)
        | inr (inl h) ↦ rw (h, pread_rounds) (inr refl)
        | inr (inr (bytes, h, some_bytes, short)) ↦
            joined fuel remaining offset s bytes h some_bytes short (
              pread_rounds_lem fuel (suc remaining - length bytes) (offset + length bytes)
                (d.pread (suc remaining) offset s).1 (ground arith))
      ]

  -- r_pread_exact ends: it returns exactly `size` bytes, those of the file from the offset, however
  -- few bytes each pread() returned, or it fails with a file error.
  pub pread_exact_lem :
      (size offset : ℕ) (s : d.State)
      → ((pread_exact d size offset s).0 ≡ ok (slice size offset (file.content s)))
          × (length (slice size offset (file.content s)) ≡ size)
        ⊎ ((pread_exact d size offset s).0 ≡ err file_error)
  unfolding pread_exact
  pread_exact_lem size offset s = pread_rounds_lem size size offset s (omega arith)

  module _ (never : (n offset : ℕ) (s : d.State) → (d.pread n offset s).0 ≢ read_failed) where
    pread_rounds_ok :
        (fuel remaining offset : ℕ) (s : d.State)
        → remaining ≤ fuel
        → offset + remaining ≤ length (file.content s)
        → (pread_rounds d fuel remaining offset s).0 ≡ ok (slice remaining offset (file.content s))
    unfolding pread_rounds take
    pread_rounds_ok fuel zero offset s enough inside = refl
    pread_rounds_ok zero (suc remaining) offset s enough inside = absurd (omega arith)
    pread_rounds_ok (suc fuel) (suc remaining) offset s enough inside =
        elim (first_call remaining offset s) [
          | inl h ↦ absurd (never (suc remaining) offset s h)
          | inr (inl h) ↦
              let end = file.end_of_file (suc remaining) offset s (omega arith) h in
              absurd (omega arith)
          | inr (inr (bytes, h, some_bytes, short)) ↦
              let e =
                pread_rounds_ok fuel (suc remaining - length bytes) (offset + length bytes)
                  (d.pread (suc remaining) offset s).1 (ground arith)
                  (subst (λ c. (offset + length bytes) + (suc remaining - length bytes) ≤ length c)
                    (sym (file.kept (suc remaining) offset s)) (ground arith)) in
              rw (h, some_bytes, short, e, pread_rounds)
                (ap ok (slice_next (suc remaining) offset s bytes h))
        ]

    -- If no pread() fails and the file is long enough, r_pread_exact returns the bytes of the file
    -- from the offset.
    pub pread_exact_ok :
        (size offset : ℕ) (s : d.State)
        → offset + size ≤ length (file.content s)
        → (pread_exact d size offset s).0 ≡ ok (slice size offset (file.content s))
    unfolding pread_exact
    pread_exact_ok size offset s inside = pread_rounds_ok size size offset s (omega arith) inside
