-- ===== src/Boot/Uboot/State.antt =====
-- uboot_set_state and uboot_get_state: a slot that is marked is read back as marked.
use docker_yocto_kirkstone_n.Prelude.{
  ℕ, ◌<◌, ◌^◌, ◌≡◌, ◌≢◌, refl, sym, ap, ◌∙◌, Bool, true, false, ◌&&◌, List, [], ◌∷◌, ◌++◌, Option,
  none, some, Str, codes, join, ltb, if◌then◌else◌, arith, All, inl, inr, Bool-cases, ◌⊎◌, str_eq,
  str_eq_iff, keep,
}
use mathlib.Core.Path.{subst}
use mathlib.Core.List.{append_cancel_right, append_cancel_left}
use docker_yocto_kirkstone_n.Prelude.Digits.{print_hex, print_hex-ne-nil, print_hex_last}
use docker_yocto_kirkstone_n.Exec.{Result, ok, err, spawn_exit, ◌>>=◌, pure}
use docker_yocto_kirkstone_n.Process.{Processes}
use docker_yocto_kirkstone_n.Glib.{Glib, GlibLaws, space}
use docker_yocto_kirkstone_n.Slot.{RaucSlot}
use docker_yocto_kirkstone_n.Context.{RaucConfig}
use docker_yocto_kirkstone_n.Boot.Names.{is_listed}
use docker_yocto_kirkstone_n.Boot.Hygiene.{
  BootName, left-ne-order, EndsGraphic-ne-nil, join-EndsGraphic, strchomp_ends, str_eq-false,
  str_eq_self, strsplit-order,
}
use docker_yocto_kirkstone_n.Boot.Owners.{is_listed-keep-false}
use docker_yocto_kirkstone_n.Boot.Uboot.{
  left_var, attempts_or, others_of, is_other, setenv_argv, uboot_attempts_left, uboot_left_positive,
  uboot_get_state, uboot_set_left, uboot_set_state,
}
use docker_yocto_kirkstone_n.Boot.Uboot.Tool.{FwEnv, env_get_set, env_get_unset, env_set_lem}

abbrev pub order_var : Str
order_var = codes "BOOT_ORDER"

pub left_var-ne-order : (name : Str) → left_var name ≢ order_var
left_var-ne-order name = left-ne-order (codes "BOOT_" ++ name)

pub left_ne : (a b : Str) → a ≢ b → left_var a ≢ left_var b
left_ne a b h e =
    h (append_cancel_right a b (codes "_LEFT") (append_cancel_left (codes "BOOT_") _ _ e))

-- What uboot_get_state returns, read off BOOT_ORDER and `BOOT_<name>_LEFT`.
abbrev pub left_of : Glib → Option Str → Result ℕ
left_of g none = err (spawn_exit 1)
left_of g (some v) = ok (g.strtoull (g.strchomp v) 16)

abbrev pub positive : Result ℕ → Result Bool
positive (ok n) = ok (ltb 0 n)
positive (err e) = err e

abbrev pub state_of : Glib → Str → Option Str → Option Str → Result Bool
state_of g name none left = err (spawn_exit 1)
state_of g name (some order) left =
    if is_listed (g.strsplit (g.strchomp order) space) name
    then positive (left_of g left)
    else ok false

-- The second list has the words of the first, in their order, but no empty word and not the name.
pub data Without (name : Str) : List Str → List Str → Type 0 where
  no_words : Without name [] []
  left_out :
      {word : Str} {words rest : List Str}
      → (word ≡ name) ⊎ (word ≡ [])
      → Without name words rest
      → Without name (word ∷ words) rest
  kept :
      {word : Str} {words rest : List Str}
      → word ≢ name
      → word ≢ []
      → Without name words rest
      → Without name (word ∷ words) (word ∷ rest)

others_of-Without :
    (name : Str) (words : List Str) → Without name words (others_of (some name) words)
unfolding others_of keep
others_of-Without name [] = no_words
others_of-Without name (word ∷ words) = elim (Bool-cases (str_eq word name)) [
  | inl e ↦ rw e (left_out (inl ((str_eq_iff word name).0 e)) (others_of-Without name words))
  | inr e ↦ elim (Bool-cases (str_eq word [])) [
    | inl f ↦ rw (e, f) (left_out (inr ((str_eq_iff word []).0 f)) (others_of-Without name words))
    | inr f ↦
        rw (e, f) (kept (differs word name e) (differs word [] f) (others_of-Without name words))
  ]
]
  where
    differs : (a b : Str) → str_eq a b ≡ false → a ≢ b
    differs a b e q = cc (e, (str_eq_iff a b).1 q)

module _ (g : Glib) (laws : GlibLaws g) (p : Processes) (c : RaucConfig) (tool : FwEnv p) where
  attempts_of :
      (name : Str) (s : p.State) (left : Option Str)
      → tool.env s (left_var name) ≡ left
      → uboot_attempts_left g p c name s ≡ (left_of g left, s)
  unfolding uboot_attempts_left
  attempts_of name s none e = rw (env_get_unset g laws p c tool (left_var name) s e)
  attempts_of name s (some v) e = rw (env_get_set g laws p c tool (left_var name) v s e)

  pub attempts_left_lem :
      (name : Str) (s : p.State)
      → uboot_attempts_left g p c name s ≡ (left_of g (tool.env s (left_var name)), s)
  attempts_left_lem name s = attempts_of name s _ refl

  get_state_of :
      (slot : RaucSlot) (name : Str) (s : p.State) (order left : Option Str)
      → slot.bootname ≡ some name
      → tool.env s order_var ≡ order
      → tool.env s (left_var name) ≡ left
      → uboot_get_state g p c slot s ≡ (state_of g name order left, s)
  unfolding uboot_get_state uboot_left_positive
  get_state_of slot name s none left named e f =
      simp named (rw (env_get_unset g laws p c tool order_var s e))
  get_state_of slot name s (some order) left named e f = simp named (
      rw (env_get_set g laws p c tool order_var order s e)
        (elim (Bool-cases (is_listed (g.strsplit (g.strchomp order) space) name)) [
          | inr h ↦ rw h
          | inl h ↦ rw h (listed left (attempts_of name s left f))
        ]))
    where
      listed :
          (l : Option Str)
          → uboot_attempts_left g p c name s ≡ (left_of g l, s)
          → (uboot_attempts_left g p c name >>= λ n. pure (ltb 0 n)) s ≡ (positive (left_of g l), s)
      listed none h = rw h
      listed (some v) h = rw h

  -- For a slot with a boot name, uboot_get_state reads BOOT_ORDER and `BOOT_<name>_LEFT` and
  -- changes nothing: a slot that is not in the order is bad, a missing variable is an error, and
  -- otherwise attempts must be left.
  pub uboot_get_state-state_of :
      (slot : RaucSlot) (name : Str) (s : p.State)
      → slot.bootname ≡ some name
      → uboot_get_state g p c slot s
        ≡ (state_of g name (tool.env s order_var) (tool.env s (left_var name)), s)
  uboot_get_state-state_of slot name s named = get_state_of slot name s _ _ named refl refl

  -- A printed number of attempts is read back.
  pub left_of-print_hex : (n : ℕ) → n < 2 ^ 64 → left_of g (some (print_hex n)) ≡ ok n
  left_of-print_hex n h = ap ok (
      ap (λ t. (g.strtoull t 16)) (strchomp_ends g laws (print_hex n) (print_hex_last n))
      ∙ laws.strtoull-print_hex n h)

  module _ (key value : Str) (s : p.State) (h : value ≢ []) where
    abbrev pub set_to : p.State
    set_to = (p.run (setenv_argv key value) s).1

    pub env-set_to_self : tool.env set_to key ≡ some value
    env-set_to_self = tool.set_env key value s key h ∙ rw (str_eq_self key)

    pub env-set_to_ne : (j : Str) → key ≢ j → tool.env set_to j ≡ tool.env s j
    env-set_to_ne j d = tool.set_env key value s j h ∙ rw (str_eq-false key j d)

  -- The attempts that marking writes.
  abbrev pub mark_attempts : Bool → ℕ
  mark_attempts good = if good then attempts_or 3 c.boot_default_attempts else 0

  mark_attempts-lt : (good : Bool) → c.boot_default_attempts < 2 ^ 31 → mark_attempts good < 2 ^ 64
  mark_attempts-lt true h = ground arith
  mark_attempts-lt false h = omega arith

  mark_attempts_positive : (good : Bool) → ltb 0 (mark_attempts good) ≡ good
  mark_attempts_positive true = ground arith
  mark_attempts_positive false = refl

  state_of_left :
      (name order : Str) (left : Option Str) (n : ℕ) (good : Bool)
      → left_of g left ≡ ok n
      → ltb 0 n ≡ good
      → state_of g name (some order) left
        ≡ ok (is_listed (g.strsplit (g.strchomp order) space) name && good)
  state_of_left name order left n good e f =
      elim (Bool-cases (is_listed (g.strsplit (g.strchomp order) space) name)) [
        | inl h ↦ rw h (ap positive e ∙ ap ok f)
        | inr h ↦ rw h
      ]

  module _ (slot : RaucSlot) (name : Str) (good : Bool) (s : p.State)
      (named : slot.bootname ≡ some name) (small : c.boot_default_attempts < 2 ^ 31) where
    abbrev left_value : Str
    left_value = print_hex (mark_attempts good)

    abbrev left_set : p.State
    left_set = set_to (left_var name) left_value s (print_hex-ne-nil (mark_attempts good))

    set_left_lem : uboot_set_left g p c slot good s ≡ (ok tt, left_set)
    unfolding uboot_set_left
    set_left_lem =
        simp named (env_set_lem g laws p c tool (left_var name) left_value s (print_hex-ne-nil _))

    left_set_state :
        (order : Str)
        → tool.env s order_var ≡ some order
        → uboot_get_state g p c slot left_set
          ≡ (ok (is_listed (g.strsplit (g.strchomp order) space) name && good), left_set)
    left_set_state order e =
        uboot_get_state-state_of slot name left_set named
        ∙ ap (λ r. (r, left_set))
            (simp
              (
                env-set_to_ne (left_var name) left_value s (print_hex-ne-nil _) order_var
                      (left_var-ne-order name)
                    ∙ e,
                env-set_to_self (left_var name) left_value s (print_hex-ne-nil _),
              )
              (state_of_left name order (some left_value) (mark_attempts good) good
                (left_of-print_hex _ (mark_attempts-lt good small)) (mark_attempts_positive good)))

  -- After a slot with a boot name is marked good, uboot_get_state finds it good if it is in the
  -- current boot order, which has to be set, and bad otherwise. The configured attempts are below
  -- 2^31.
  pub uboot_get_state-uboot_set_state_good :
      (slot : RaucSlot) (name order : Str) (s : p.State)
      → c.boot_default_attempts < 2 ^ 31
      → slot.bootname ≡ some name
      → tool.env s order_var ≡ some order
      → ((uboot_set_state g p c slot true s).0 ≡ ok tt)
        × ((uboot_get_state g p c slot (uboot_set_state g p c slot true s).1).0
            ≡ ok (is_listed (g.strsplit (g.strchomp order) space) name))
  unfolding uboot_set_state
  uboot_get_state-uboot_set_state_good slot name order s small named e = (
    ap (λ r. r.0) (set_left_lem slot name true s named small),
    ap (λ r. (uboot_get_state g p c slot r.1).0) (set_left_lem slot name true s named small)
        ∙ ap (λ r. r.0) (left_set_state slot name true s named small order e)
        ∙ ap ok (and_true _),
  )
    where
      and_true : (b : Bool) → (b && true) ≡ b
      and_true true = refl
      and_true false = refl

  -- What marking bad leaves of the boot order.
  abbrev pub others : Str → Str → List Str
  others name order = others_of (some name) (g.strsplit (g.strchomp order) space)

  module _ (slot : RaucSlot) (name order b : Str) (bs : List Str) (s : p.State)
      (named : slot.bootname ≡ some name) (small : c.boot_default_attempts < 2 ^ 31)
      (e : tool.env s order_var ≡ some order) (rest : others name order ≡ b ∷ bs)
      (names : All BootName (b ∷ bs)) where
    abbrev new_order : Str
    new_order = join (b ∷ bs) space

    new_order-ne-nil : new_order ≢ []
    new_order-ne-nil = EndsGraphic-ne-nil new_order (join-EndsGraphic b bs names)

    abbrev removed : p.State
    removed = set_to order_var new_order s new_order-ne-nil

    set_bad_lem :
        uboot_set_state g p c slot false s ≡ (ok tt, left_set slot name false removed named small)
    unfolding uboot_set_state
    set_bad_lem = simp named (
        rw
          (
            env_get_set g laws p c tool order_var order s e,
            rest,
            env_set_lem g laws p c tool order_var new_order s new_order-ne-nil,
          )
          (set_left_lem slot name false removed named small))

    not_listed : is_listed (g.strsplit (g.strchomp new_order) space) name ≡ false
    unfolding others_of
    not_listed =
        ap (λ l. is_listed l name) (strsplit-order g laws b bs names ∙ sym rest)
        ∙ is_listed-keep-false (is_other (some name)) (g.strsplit (g.strchomp order) space) name
            (rw (str_eq_self name))

    -- Marking a slot bad succeeds. BOOT_ORDER then holds the names that it held, in their order and
    -- joined by spaces, without empty words and without the name of the slot, and uboot_get_state
    -- finds the slot bad. The rest of the order has to be boot names, at least one, and the configured
    -- attempts below 2^31.
    pub uboot_get_state-uboot_set_state_bad :
        ((uboot_set_state g p c slot false s).0 ≡ ok tt)
        × (tool.env (uboot_set_state g p c slot false s).1 order_var ≡ some (join (b ∷ bs) space))
        × Without name (g.strsplit (g.strchomp order) space) (b ∷ bs)
        × ((uboot_get_state g p c slot (uboot_set_state g p c slot false s).1).0 ≡ ok false)
    uboot_get_state-uboot_set_state_bad = (
      ap (λ r. r.0) set_bad_lem,
      ap (λ r. tool.env r.1 order_var) set_bad_lem
          ∙ env-set_to_ne (left_var name) _ removed (print_hex-ne-nil _) order_var
              (left_var-ne-order name)
          ∙ env-set_to_self order_var new_order s new_order-ne-nil,
      subst (Without name (g.strsplit (g.strchomp order) space)) rest
          (others_of-Without name (g.strsplit (g.strchomp order) space)),
      ap (λ r. (uboot_get_state g p c slot r.1).0) set_bad_lem
          ∙ ap (λ r. r.0)
              (left_set_state slot name false removed named small new_order
                (env-set_to_self order_var new_order s new_order-ne-nil))
          ∙ ap (λ l. ok (l && false)) not_listed,
    )
