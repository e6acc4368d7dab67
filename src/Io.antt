-- ===== src/Io.antt =====
-- The loop of kirkstone/local/rauc/src/utils.c around pread(). The system call is a parameter, with what it does to the
-- machine; TEMP_FAILURE_RETRY belongs to it.
pub mod Pread
use docker_yocto_kirkstone_n.Prelude.{
  ℕ, zero, suc, ◌+◌, ◌-◌, Bool, true, false, List, [], ◌∷◌, ◌++◌, Str, ◌==◌, leb, length, drop,
  str_eq, if◌then◌else◌,
}
use docker_yocto_kirkstone_n.Exec.{Result, ok, err, Exec, pure, raise, ◌>>=◌, file_error, aborted}

-- What one call returns: -1, or the bytes it read.
pub data ReadResult : Type 0 where
  read_failed : ReadResult
  got : Str → ReadResult

-- By the number of bytes asked for and the offset.
pub record Device : Type 1 where
  pub State : Type 0
  pub pread : ℕ → ℕ → State → ReadResult × State

module _ (d : Device) where
  open d use {State}

  -- A round for each unit of fuel; a round reads a byte at least. The buffer behind `pos` is what is
  -- returned.
  unfoldable pub pread_rounds : ℕ → ℕ → ℕ → Exec State Str
  pread_rounds fuel zero offset s = (ok [], s)
  pread_rounds zero (suc remaining) offset s = (err aborted, s)
  pread_rounds (suc fuel) (suc remaining) offset s = elim (d.pread (suc remaining) offset s).0 [
    | read_failed ↦ (err file_error, (d.pread (suc remaining) offset s).1)
    | got bytes ↦ elim (length bytes == 0) [
      | true ↦ (err file_error, (d.pread (suc remaining) offset s).1)
      | false ↦ elim (leb (length bytes) (suc remaining)) [
        | false ↦ (err aborted, (d.pread (suc remaining) offset s).1)
        | true ↦
            (pread_rounds fuel (suc remaining - length bytes) (offset + length bytes) >>= λ rest.
            pure (bytes ++ rest))
              (d.pread (suc remaining) offset s).1
      ]
    ]
  ]

  unfoldable pub pread_exact : ℕ → ℕ → Exec State Str
  pread_exact size offset = pread_rounds size size offset
