-- ===== src/Exec.antt =====
-- GError results and calls with effects. A C function that returns FALSE or NULL with a GError set
-- is an action that ends in `err`; what it did before it failed stays done.
pub mod Accepts
pub mod Keeps
use docker_yocto_kirkstone_n.Prelude.{ℕ, Bool, true, false, List, [], ◌∷◌, Option, none, some}

-- The GError domains and codes that the modelled functions set, without their messages.
pub data Error : Type 0 where
  -- include/bootchooser.h
  bootchooser_failed bootchooser_not_supported bootchooser_parse_failed : Error
  -- the errors of GLib's subprocess calls
  spawn_failed communicate_failed spawn_abnormal : Error
  spawn_exit : ℕ → Error
  -- include/config_file.h, R_SLOT_ERROR
  slot_no_config slot_no_bootslot slot_no_booted slot_failed : Error
  config_parent_loop config_duplicate_class config_invalid_format : Error
  -- include/install.h
  install_mark_bootable install_failed : Error
  install_compat_mismatch install_version_mismatch install_mark_nonbootable : Error
  install_mounted install_rejected install_target_group : Error
  -- include/manifest.h
  manifest_check : Error
  -- include/hash_index.h
  hash_index_not_found hash_index_modified : Error
  -- G_FILE_ERROR, a failed system call or an unexpected end of a file
  file_error : Error
  -- include/update_handler.h
  update_failed update_no_handler : Error
  -- include/utils.h, and the errors of GLib's number parser
  semver_parse number_invalid : Error
  -- `false` was returned and no GError was set
  unset_error : Error
  -- g_assert(), g_error() and failed g_return_val_if_fail() tests
  aborted : Error

pub data Result {ℓ} (A : Type ℓ) : Type ℓ where
  ok : A → Result A
  err : Error → Result A

abbrev pub Exec : Type 0 → Type 0 → Type 0
Exec S A = S → Result A × S

module _ {S A : Type 0} where
  abbrev pub pure : A → Exec S A
  pure a s = (ok a, s)

  abbrev pub raise : Error → Exec S A
  raise e s = (err e, s)

  abbrev pub lift : Result A → Exec S A
  lift r s = (r, s)

  abbrev pub or_else : Option A → Error → Exec S A
  or_else none e = raise e
  or_else (some a) e = pure a

module _ {S A B : Type 0} where
  abbrev pub next : Result A → (A → Exec S B) → Exec S B
  next (ok a) f s = f a s
  next (err e) f s = (err e, s)

  infixl 5 ◌>>=◌ ◌>>◌
  abbrev pub ◌>>=◌ : Exec S A → (A → Exec S B) → Exec S B
  ◌>>=◌ m f s = next (m s).0 f (m s).1

  abbrev pub ◌>>◌ : Exec S A → Exec S B → Exec S B
  m >> n = m >>= λ _. n

  -- `if (!call(..., &ierror)) { report; g_clear_error(&ierror); } else …`
  abbrev pub resume : Result A → (A → Exec S B) → (Error → Exec S B) → Exec S B
  resume (ok a) f h s = f a s
  resume (err e) f h s = h e s

  abbrev pub catch : Exec S A → (A → Exec S B) → (Error → Exec S B) → Exec S B
  catch m f h s = resume (m s).0 f h (m s).1

-- `if (bad) { g_set_error(); return FALSE; }`
abbrev pub fail_if : {S : Type 0} → Bool → Error → Exec S (Unit {0})
fail_if true e = raise e
fail_if false e = pure tt

-- A loop over a list that returns at the first failure.
unfoldable pub for_each : {S A : Type 0} → (A → Exec S (Unit {0})) → List A → Exec S (Unit {0})
for_each f [] = pure tt
for_each f (x ∷ xs) = f x >> for_each f xs

abbrev pub cons_state :
    {A : Type 0}
    → Result (Unit {0}) × A
    → Result (Unit {0}) × List A
    → List A
    → Result (Unit {0}) × List A
cons_state (ok u, x) (r, xs) old = (r, x ∷ xs)
cons_state (err e, x) rest old = (err e, x ∷ old)

-- The same where the body changes the element.
unfoldable pub for_each_element : {A : Type 0} → Exec A (Unit {0}) → Exec (List A) (Unit {0})
for_each_element f [] = (ok tt, [])
for_each_element f (x ∷ xs) = cons_state (f x) (for_each_element f xs) xs
