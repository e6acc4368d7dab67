-- ===== src/Boot/Uboot/Primary.antt =====
-- uboot_set_primary and uboot_get_primary.
use docker_yocto_kirkstone_n.Prelude.{
  ℕ, ◌<◌, ◌^◌, ◌≡◌, ◌≢◌, refl, sym, ap, ◌∙◌, true, false, List, [], ◌∷◌, some, Str, opt_eq, join,
  ltb, arith, In, All, inl, inr, Bool-cases, ◌⊎◌,
}
use docker_yocto_kirkstone_n.Prelude.Digits.{print_hex, print_hex-ne-nil}
use docker_yocto_kirkstone_n.Exec.{ok}
use docker_yocto_kirkstone_n.Process.{Processes}
use docker_yocto_kirkstone_n.Glib.{Glib, GlibLaws, space}
use docker_yocto_kirkstone_n.Slot.{RaucSlot}
use docker_yocto_kirkstone_n.Context.{RaucConfig}
use docker_yocto_kirkstone_n.Boot.Names.{join-spaced}
use docker_yocto_kirkstone_n.Boot.Hygiene.{
  BootName, EndsGraphic-ne-nil, join-EndsGraphic, strsplit-order,
}
use docker_yocto_kirkstone_n.Boot.Owners.{Owns, opt_eq_iff, opt_eq_named}
use docker_yocto_kirkstone_n.Boot.Uboot.{
  left_var, attempts_or, others_of, uboot_attempts_left, uboot_match, uboot_scan, uboot_get_primary,
  uboot_set_primary_order, uboot_set_primary,
}
use docker_yocto_kirkstone_n.Boot.Uboot.Tool.{FwEnv, env_get_set, env_set_lem}
use docker_yocto_kirkstone_n.Boot.Uboot.State.{
  order_var, left_var-ne-order, attempts_left_lem, left_of, left_of-print_hex, set_to,
  env-set_to_self, env-set_to_ne,
}

module _ (g : Glib) (p : Processes) (c : RaucConfig) where
  match_owner :
      (name : Str) (slots : List RaucSlot) (slot : RaucSlot) (n : ℕ) (s : p.State)
      → Owns slots slot name
      → uboot_attempts_left g p c name s ≡ (ok n, s)
      → ltb 0 n ≡ true
      → uboot_match g p c name slots s ≡ (ok (some slot), s)
  unfolding uboot_match
  match_owner name [] slot n s o left pos = absurd o.listed
  match_owner name (t ∷ slots) slot n s o left pos =
      elim (Bool-cases (opt_eq (some name) t.bootname)) [
        | inl h ↦
            rw (h, left, pos, uboot_match)
              (ap (λ x. (ok (some x), s)) (o.only t (inl refl) (opt_eq_iff name t.bootname h)))
        | inr h ↦ rw (h, uboot_match) (match_owner name slots slot n s (owner_below h) left pos)
      ]
    where
      below : opt_eq (some name) t.bootname ≡ false → (t ≡ slot) ⊎ In slot slots → In slot slots
      below h (inl e) = cc (opt_eq_named name t.bootname (ap (λ x. x.bootname) e ∙ o.named), h)
      below h (inr m) = m

      owner_below : opt_eq (some name) t.bootname ≡ false → Owns slots slot name
      owner_below h = record {
        listed = below h o.listed;
        named = o.named;
        only = λ x m e. o.only x (inr m) e;
      }

module _ (g : Glib) (laws : GlibLaws g) (p : Processes) (c : RaucConfig) (tool : FwEnv p) where
  primary_attempts_positive : ltb 0 (attempts_or 3 c.boot_attempts_primary) ≡ true
  primary_attempts_positive = ground arith

  module _ (slot : RaucSlot) (name current : Str) (s : p.State) (o : Owns c.slots slot name)
      (small : c.boot_attempts_primary < 2 ^ 31)
      (names : All BootName (name ∷ others_of (some name) (g.strsplit current space))) where
    abbrev rest : List Str
    rest = others_of (some name) (g.strsplit current space)

    abbrev order : Str
    order = join (name ∷ rest) space

    order-ne-nil : order ≢ []
    order-ne-nil = EndsGraphic-ne-nil order (join-EndsGraphic name rest names)

    abbrev attempts : ℕ
    attempts = attempts_or 3 c.boot_attempts_primary

    abbrev left_set : p.State
    left_set =
        set_to g laws p c tool (left_var name) (print_hex attempts) s (print_hex-ne-nil attempts)

    abbrev activated : p.State
    activated = set_to g laws p c tool order_var order left_set order-ne-nil

    set_order_lem : uboot_set_primary_order g p c slot current s ≡ (ok tt, activated)
    unfolding uboot_set_primary_order
    set_order_lem =
        simp (o.named, ← join-spaced name rest)
          (rw
            (env_set_lem g laws p c tool (left_var name) (print_hex attempts) s
              (print_hex-ne-nil attempts))
            (env_set_lem g laws p c tool order_var order left_set order-ne-nil))

    left-activated : uboot_attempts_left g p c name activated ≡ (ok attempts, activated)
    left-activated =
        attempts_left_lem g laws p c tool name activated
        ∙ ap (λ r. (r, activated))
            (ap (left_of g) (
                env-set_to_ne g laws p c tool order_var order left_set order-ne-nil (left_var name)
                  (λ e. left_var-ne-order name (sym e))
                ∙ env-set_to_self g laws p c tool (left_var name) (print_hex attempts) s
                    (print_hex-ne-nil attempts))
              ∙ left_of-print_hex g laws p c tool attempts (small_attempts))
      where
        small_attempts : attempts < 2 ^ 64
        small_attempts = ground arith

    get-activated : uboot_get_primary g p c activated ≡ (ok slot, activated)
    unfolding uboot_get_primary uboot_scan
    get-activated = rw (
      env_get_set g laws p c tool order_var order activated
          (env-set_to_self g laws p c tool order_var order left_set order-ne-nil),
      strsplit-order g laws name rest names,
      match_owner g p c name c.slots slot attempts activated o left-activated
          primary_attempts_positive,
    )

  -- uboot_set_primary succeeds, and uboot_get_primary then returns the slot that was made primary.
  -- The slot has to be the only one of the table with its boot name, BOOT_ORDER has to be set, the
  -- boot name and the other parts of BOOT_ORDER have to be free of white space and `=`, and the
  -- configured attempts are below 2^31.
  pub uboot_get_primary-uboot_set_primary :
      (slot : RaucSlot) (name current : Str) (s : p.State)
      → Owns c.slots slot name
      → c.boot_attempts_primary < 2 ^ 31
      → tool.env s order_var ≡ some current
      → All BootName (name ∷ others_of (some name) (g.strsplit (g.strchomp current) space))
      → ((uboot_set_primary g p c slot s).0 ≡ ok tt)
        × ((uboot_get_primary g p c (uboot_set_primary g p c slot s).1).0 ≡ ok slot)
  unfolding uboot_set_primary
  uboot_get_primary-uboot_set_primary slot name current s o small e names =
      (ap (λ r. r.0) set, ap (λ r. (uboot_get_primary g p c r.1).0) set ∙ ap (λ r. r.0) got)
    where
      set :
          uboot_set_primary g p c slot s
          ≡ (ok tt, activated slot name (g.strchomp current) s o small names)
      set =
          rw (env_get_set g laws p c tool order_var current s e)
            (set_order_lem slot name (g.strchomp current) s o small names)

      got :
          uboot_get_primary g p c (activated slot name (g.strchomp current) s o small names)
          ≡ (ok slot, activated slot name (g.strchomp current) s o small names)
      got = get-activated slot name (g.strchomp current) s o small names
