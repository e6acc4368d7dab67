-- ===== src/Boot/Barebox/State.antt =====
-- Marking a slot with barebox, and what barebox_get_state then returns.
use docker_yocto_kirkstone_n.Prelude.{
  ℕ, ◌<◌, ◌^◌, ◌≡◌, ◌≢◌, refl, ap, ◌∙◌, Bool, true, false, ◌&&◌, List, [], ◌∷◌, ◌++◌, map, some,
  Str, codes, ltb, All, All-append, Lacks, arith,
}
use docker_yocto_kirkstone_n.Exec.{ok}
use docker_yocto_kirkstone_n.Process.{Processes}
use docker_yocto_kirkstone_n.Glib.{Glib, GlibLaws}
use docker_yocto_kirkstone_n.Slot.{RaucSlot}
use docker_yocto_kirkstone_n.Context.{RaucConfig}
use docker_yocto_kirkstone_n.Boot.Env.{equals}
use docker_yocto_kirkstone_n.Boot.Hygiene.{attempts-ne-priority, str_eq_self, str_eq-false}
use docker_yocto_kirkstone_n.Boot.Barebox.{
  priority_var, attempts_var, barebox_argv, attempts_or, set_state_pairs, barebox_set_state,
  barebox_get_state,
}
use docker_yocto_kirkstone_n.Boot.Barebox.Tool.{
  BareboxState, Assignable, Defined, renumbered, pair_text, barebox_state_get_lem,
  barebox_state_set_lem,
}

abbrev marks : RaucConfig → Str → Bool → List (Str × ℕ)
marks c name true = (attempts_var name, attempts_or c.boot_default_attempts) ∷ []
marks c name false = (priority_var name, 0) ∷ (attempts_var name, 0) ∷ []

marks-text :
    (c : RaucConfig) (name : Str) (good : Bool)
    → set_state_pairs c name good ≡ map pair_text (marks c name good)
marks-text c name true = refl
marks-text c name false = refl

priority_var-Lacks : (name : Str) → Lacks equals name → Lacks equals (priority_var name)
priority_var-Lacks name h =
    All-append (λ b. b ≢ equals) (codes "bootstate.") (name ++ codes ".priority") (ground arith)
      (All-append (λ b. b ≢ equals) name (codes ".priority") h (ground arith))

attempts_var-Lacks : (name : Str) → Lacks equals name → Lacks equals (attempts_var name)
attempts_var-Lacks name h =
    All-append (λ b. b ≢ equals) (codes "bootstate.") (name ++ codes ".remaining_attempts")
      (ground arith)
      (All-append (λ b. b ≢ equals) name (codes ".remaining_attempts") h (ground arith))

marks-Assignable :
    (has : Str → Type 0) (c : RaucConfig) (name : Str) (good : Bool)
    → has (priority_var name)
    → has (attempts_var name)
    → Lacks equals name
    → c.boot_default_attempts < 2 ^ 31
    → All (Assignable has) (marks c name good)
marks-Assignable has c name true hp ha l h = ((ha, (attempts_var-Lacks name l, ground arith)), tt)
marks-Assignable has c name false hp ha l h = (
  (hp, (priority_var-Lacks name l, omega arith)),
  ((ha, (attempts_var-Lacks name l, omega arith)), tt),
)

attempts_var-ne : (name : Str) → attempts_var name ≢ priority_var name
attempts_var-ne name =
    attempts-ne-priority (codes "bootstate." ++ name) (codes "bootstate." ++ name)

-- Attempts that are set for a good slot are above 0.
attempts_or_positive : (b : Bool) (d : ℕ) → (b && ltb 0 (attempts_or d)) ≡ b
attempts_or_positive true d = ground arith
attempts_or_positive false d = refl

and_false : (b : Bool) → (b && false) ≡ false
and_false true = refl
and_false false = refl

module _ (g : Glib) (laws : GlibLaws g) (p : Processes) (c : RaucConfig)
    (tool : BareboxState p c) where
  pub barebox_get_state_lem :
      (slot : RaucSlot) (name : Str) (s : p.State)
      → slot.bootname ≡ some name
      → Defined g laws p c tool (some name)
      → barebox_get_state g p c slot s ≡ (
        ok (ltb 0 (tool.value s (priority_var name)) && ltb 0 (tool.value s (attempts_var name))),
        s,
      )
  unfolding barebox_get_state
  barebox_get_state_lem slot name s named known =
      simp named (rw (barebox_state_get_lem g laws p c tool name s known))

  abbrev marked : Str → Bool → p.State → p.State
  marked name good s = (p.run (barebox_argv c (codes "-s") (map pair_text (marks c name good))) s).1

  set_lem :
      (slot : RaucSlot) (name : Str) (good : Bool) (s : p.State)
      → slot.bootname ≡ some name
      → All (Assignable tool.has) (marks c name good)
      → barebox_set_state g p c slot good s ≡ (ok tt, marked name good s)
  unfolding barebox_set_state
  set_lem slot name good s named h =
      simp (named, marks-text c name good)
        (barebox_state_set_lem g laws p c tool (marks c name good) s h)

  marked_state :
      (name : Str) (good : Bool) (s : p.State)
      → Defined g laws p c tool (some name)
      → All (Assignable tool.has) (marks c name good)
      → (ltb 0 (tool.value (marked name good s) (priority_var name))
          && ltb 0 (tool.value (marked name good s) (attempts_var name)))
        ≡ (good && ltb 0 (tool.value s (priority_var name)))
  unfolding renumbered
  marked_state name true s (hp, ha) h =
      ap (λ n. ltb 0 n && ltb 0 (tool.value (marked name true s) (attempts_var name)))
        (after (priority_var name) hp ∙ rw (str_eq-false _ _ (attempts_var-ne name)))
      ∙ ap (λ n. ltb 0 (tool.value s (priority_var name)) && ltb 0 n)
          (after (attempts_var name) ha ∙ rw (str_eq_self (attempts_var name)))
      ∙ attempts_or_positive (ltb 0 (tool.value s (priority_var name))) c.boot_default_attempts
    where
      after :
          (j : Str)
          → tool.has j
          → tool.value (marked name true s) j ≡ renumbered (marks c name true) j (tool.value s j)
      after j k = tool.set_value (marks c name true) s j h k
  marked_state name false s (hp, ha) h =
      ap (λ n. ltb 0 (tool.value (marked name false s) (priority_var name)) && ltb 0 n)
        out_of_attempts
      ∙ and_false (ltb 0 (tool.value (marked name false s) (priority_var name)))
    where
      out_of_attempts : tool.value (marked name false s) (attempts_var name) ≡ 0
      out_of_attempts =
          tool.set_value (marks c name false) s (attempts_var name) h ha
          ∙ rw (str_eq_self (attempts_var name))

  -- After a slot is marked bad, barebox_get_state finds it bad. After it is marked good,
  -- barebox_get_state finds it good if its priority is above 0, and bad otherwise. The state
  -- defines the variables of the boot name, which is free of `=`, and the configured attempts are
  -- below 2^31.
  pub barebox_get_state-barebox_set_state :
      (slot : RaucSlot) (name : Str) (good : Bool) (s : p.State)
      → Lacks equals name
      → c.boot_default_attempts < 2 ^ 31
      → slot.bootname ≡ some name
      → Defined g laws p c tool (some name)
      → ((barebox_set_state g p c slot good s).0 ≡ ok tt)
        × ((barebox_get_state g p c slot (barebox_set_state g p c slot good s).1).0
            ≡ ok (good && ltb 0 (tool.value s (priority_var name))))
  barebox_get_state-barebox_set_state slot name good s l small named known =
      let marking = marks-Assignable tool.has c name good known.0 known.1 l small in
      (
        ap (λ r. r.0) (set_lem slot name good s named marking),
        ap (λ r. (barebox_get_state g p c slot r.1).0) (set_lem slot name good s named marking)
            ∙ ap (λ r. r.0) (barebox_get_state_lem slot name (marked name good s) named known)
            ∙ ap ok (marked_state name good s known marking),
      )
