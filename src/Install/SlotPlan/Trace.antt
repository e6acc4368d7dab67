-- ===== src/Install/SlotPlan/Trace.antt =====
-- What handle_slot_install_plan (kirkstone/local/rauc/src/install.c) does to a slot and its status, in
-- which order, where the status is not kept in the slot itself.
use docker_yocto_kirkstone_n.Prelude.{
  ◌≡◌, refl, ap, Bool, true, false, not, ◌&&◌, ◌∷◌, Option, none, some, Str, codes, str_eq_iff,
  opt_eq, is_some, pos, Bool-cases, inl, inr, arith,
}
use docker_yocto_kirkstone_n.Exec.{
  Error, Result, ok, err, pure, raise, ◌>>◌, catch, install_mounted, aborted,
}
use docker_yocto_kirkstone_n.Slot.{RaucSlotStatus, RaucSlot}
use docker_yocto_kirkstone_n.Context.{RaucConfig}
use docker_yocto_kirkstone_n.Manifest.{RaucImage, RaucManifest}
use docker_yocto_kirkstone_n.Update.{ImgToSlotHandler}
use docker_yocto_kirkstone_n.Install.Device.{Device, RaucInstallArgs}
use docker_yocto_kirkstone_n.Install.Device.Logged.{
  saved, wrote, Log, succeeds, noted, unnoted, logged,
}
use docker_yocto_kirkstone_n.Install.SlotPlan.{
  update_slot_status, with_status, is_up_to_date, pending, updating, save_outcome, copy_image,
  install_loaded, handle_slot_install_plan,
}

-- The status tells the outcome of an installation of the image.
abbrev pub Tells : Str → RaucManifest → RaucImage → RaucSlotStatus → Type 0
Tells outcome manifest image st =
    (st.status ≡ some outcome)
    × (st.checksum ≡ image.checksum)
    × (st.bundle_hash ≡ manifest.hash)
    × (st.bundle_version ≡ manifest.update_version)

-- The status tells that the slot is about to be written, and no digest.
abbrev pub IsPending : RaucSlotStatus → Type 0
IsPending st =
    (st.status ≡ some (codes "pending")) × (st.checksum.digest ≡ none) × (st.checksum.size ≡ pos 0)

-- The status that the slot has tells that it was installed with this image.
abbrev pub HasImage : RaucSlot → RaucImage → Type 0
HasImage slot image =
    (slot.install_same ≡ false)
    × ((st : RaucSlotStatus) × (slot.status ≡ some st)
        × (st.status ≡ some (codes "ok"))
        × (image.checksum.digest ≡ st.checksum.digest))

-- The result, and the log after what was in it before.
pub data Trace (slot : RaucSlot) (manifest : RaucManifest) (image : RaucImage) (before : Log)
    : Result (Unit {0}) → Log → Type 0 where
  -- nothing is done
  refused : (e : Error) → Trace slot manifest image before (err e) before
  -- the slot has the image: only its status is saved
  left_as_it_is :
      (new : RaucSlotStatus) (r : Result (Unit {0}))
      → slot.mount_point ≡ none
      → HasImage slot image
      → Tells (codes "ok") manifest image new
      → Trace slot manifest image before r (saved slot.name (some new) (succeeds r) ∷ before)
  -- the slot is not written, since it could not be told to be pending
  not_pending :
      (p : RaucSlotStatus) (e : Error)
      → slot.mount_point ≡ none
      → IsPending p
      → Trace slot manifest image before (err e) (saved slot.name (some p) false ∷ before)
  -- the image is written to the pending slot, and then told to be there
  installed :
      (p new : RaucSlotStatus) (r : Result (Unit {0}))
      → slot.mount_point ≡ none
      → IsPending p
      → Tells (codes "ok") manifest image new
      → Trace slot manifest image before r (
          saved slot.name (some new) (succeeds r)
          ∷ wrote slot.name image true
          ∷ saved slot.name (some p) true
          ∷ before)
  -- writing the image to the pending slot fails, and so is told
  failed :
      (p new : RaucSlotStatus) (e : Error) (told : Bool)
      → slot.mount_point ≡ none
      → IsPending p
      → Tells (codes "failed") manifest image new
      → Trace slot manifest image before (err e) (
          saved slot.name (some new) told
          ∷ wrote slot.name image false
          ∷ saved slot.name (some p) true
          ∷ before)

not_some : (o : Option Str) → is_some o ≡ false → o ≡ none
not_some none h = refl
not_some (some a) h = cc

opt_eq-same : (a b : Option Str) → opt_eq a b ≡ true → a ≡ b
opt_eq-same none none h = refl
opt_eq-same none (some t) h = cc
opt_eq-same (some s) none h = cc
opt_eq-same (some s) (some t) h = ap some ((str_eq_iff s t).0 h)

up_to_date-HasImage :
    (slot : RaucSlot) (st : RaucSlotStatus) (image : RaucImage)
    → slot.status ≡ some st
    → is_up_to_date slot st image ≡ true
    → HasImage slot image
up_to_date-HasImage slot st image e h =
    let (s, o, d) =
      all_three slot.install_same (opt_eq st.status (some (codes "ok")))
        (opt_eq image.checksum.digest st.checksum.digest) h in
    (
      s,
      (
        st,
        e,
        opt_eq-same st.status (some (codes "ok")) o,
        opt_eq-same image.checksum.digest st.checksum.digest d,
      ),
    )
  where
    all_three : (a b c : Bool) → (not a && b && c) ≡ true → (a ≡ false) × (b ≡ true) × (c ≡ true)
    all_three a b c q = ground arith

module _ {S : Type 0} (d : Device S) (manifest : RaucManifest) (args : RaucInstallArgs)
    (hook : Option Str) (image : RaucImage) (before : Log) where
  abbrev Traced : RaucSlot → Result (Unit {0}) × (S × Log) → Type 0
  Traced slot r = Trace slot manifest image before r.0 r.1.1

  module _ (slot : RaucSlot) (free : slot.mount_point ≡ none) (st : RaucSlotStatus)
      (handler : ImgToSlotHandler) where
    abbrev marked : RaucSlot
    marked = with_status slot (pending st)

    abbrev while_written : RaucSlotStatus
    while_written = updating (pending st)

    abbrev written : RaucSlot
    written = with_status slot while_written

    -- The status after the handler of the image.
    abbrev after : Str → S → RaucSlotStatus
    after outcome s = update_slot_status while_written outcome manifest image args (d.now s)

    abbrev told_ok : Unit {0} → S × Log → Result (Unit {0}) × (S × Log)
    told_ok u = save_outcome (logged d) manifest args hook slot while_written image (codes "ok")

    abbrev told_failed : Error → S × Log → Result (Unit {0}) × (S × Log)
    told_failed e =
        catch (save_outcome (logged d) manifest args hook slot while_written image (codes "failed"))
          (λ u. raise e) (λ e'. raise e)

    is_pending : IsPending (pending st)
    is_pending = (refl, refl, refl)

    by_telling :
        (e : Error) (s : S) (r : Result (Unit {0}) × S)
        → Traced slot (
            catch
              (noted (saved slot.name (some (after (codes "failed") s))) (λ t. r))
              (λ u. raise e)
              (λ e'. raise e)
              (s, wrote slot.name image false ∷ saved slot.name (some (pending st)) true ∷ before))
    by_telling e s (ok u, t) =
        failed (pending st) (after (codes "failed") s) e true free is_pending
          (refl, refl, refl, refl)
    by_telling e s (err x, t) =
        failed (pending st) (after (codes "failed") s) e false free is_pending
          (refl, refl, refl, refl)

    by_handler :
        (s : S) (r : Result (Unit {0}) × S)
        → Traced slot (
            catch
              (noted (wrote slot.name image) (λ t. r))
              told_ok
              told_failed
              (s, saved slot.name (some (pending st)) true ∷ before))
    by_handler s (ok u, t) =
        installed (pending st) (after (codes "ok") t)
          (d.slot_status_save (with_status slot (after (codes "ok") t)) t).0 free is_pending
          (refl, refl, refl, refl)
    by_handler s (err e, t) =
        by_telling e t (d.slot_status_save (with_status slot (after (codes "failed") t)) t)

    by_save :
        (s : S) (r : Result (Unit {0}) × S)
        → Traced slot (
            (noted (saved slot.name (some (pending st))) (λ t. r)
                >> copy_image (logged d) manifest args hook slot (pending st) image handler)
              (s, before))
    by_save s (err e, t) = not_pending (pending st) e free is_pending
    by_save s (ok u, t) = by_handler t (d.slot_handler handler image written hook t)

    by_move :
        (s : S) (r : Result (Unit {0}) × S)
        → Traced slot (
            (catch (unnoted (λ t. r)) pure (λ e. pure tt)
                >> (logged d).slot_status_save marked
                >> copy_image (logged d) manifest args hook slot (pending st) image handler)
              (s, before))
    by_move s (ok u, t) = by_save t (d.slot_status_save marked t)
    by_move s (err e, t) = by_save t (d.slot_status_save marked t)

  module _ (config : RaucConfig)
      (central : opt_eq config.statusfile_path (some (codes "per-slot")) ≡ false) where
    loaded_trace :
        (slot : RaucSlot) (o : Option RaucSlotStatus) (handler : ImgToSlotHandler) (s : S)
        → slot.status ≡ o
        → Traced slot
            (install_loaded (logged d) manifest args hook config slot o image handler (s, before))
    loaded_trace slot none handler s e = refused aborted
    loaded_trace slot (some st) handler s e = elim (Bool-cases (is_some slot.mount_point)) [
      | inl m ↦ rw m (refused install_mounted)
      | inr m ↦ elim (Bool-cases (is_up_to_date slot st image)) [
        | inl u ↦
            rw (m, u)
              (left_as_it_is (update_slot_status st (codes "ok") manifest image args (d.now s))
                (d.slot_status_save
                  (with_status slot
                    (update_slot_status st (codes "ok") manifest image args (d.now s)))
                  s).0
                (not_some slot.mount_point m) (up_to_date-HasImage slot st image e u)
                (refl, refl, refl, refl))
        | inr u ↦
            rw (m, u, central)
              (by_move slot (not_some slot.mount_point m) st handler s (
                d.move_checksum_data_directory (with_status slot (pending st)) st.checksum.digest
                  s))
      ]
    ]

    -- Where the statuses are in a central file, handle_slot_install_plan does one of these, on any
    -- device. It fails and does nothing. It saves the status `ok` of a slot whose status was `ok`
    -- with the image's digest, if the slot has not to be installed again. It fails to save the status
    -- `pending`. It saves the status `pending` without a digest, then writes the image, and then saves
    -- the status `ok`. Or it saves that `pending`, fails to write the image, saves the status
    -- `failed` and fails. A status `ok` or `failed` has the image's checksum and the hash and the
    -- version of the manifest, and nothing is done to a mounted slot.
    pub handle_slot_install_plan-Trace :
        (target_slot : RaucSlot) (handler : ImgToSlotHandler) (s : S)
        → Trace
            (d.slot_status_load target_slot s).0
            manifest
            image
            before
            (handle_slot_install_plan
              (logged d)
              manifest
              args
              hook
              config
              image
              target_slot
              handler
              (s, before)).0
            (handle_slot_install_plan
              (logged d)
              manifest
              args
              hook
              config
              image
              target_slot
              handler
              (s, before)).1.1
    unfolding handle_slot_install_plan
    handle_slot_install_plan-Trace target_slot handler s =
        loaded_trace (d.slot_status_load target_slot s).0
          (d.slot_status_load target_slot s).0.status handler (d.slot_status_load target_slot s).1
          refl
