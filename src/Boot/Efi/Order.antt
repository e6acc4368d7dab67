-- ===== src/Boot/Efi/Order.antt =====
-- A boot order that is written is read back as the same entries.
use docker_yocto_kirkstone_n.Prelude.{
  ◌≡◌, refl, ap, Bool, List, [], ◌∷◌, map, Option, none, some, Str, str_eq, str_eq_iff,
  find_first_sound, In, All, Bool-cases, inl, inr,
}
use mathlib.Core.Path.{subst}
use docker_yocto_kirkstone_n.Boot.Efi.Entries.{
  EfiBootentry, entries_of, get_efi_entry_by_bootnum, append_entry, in_order, remove_first,
}
use docker_yocto_kirkstone_n.Boot.Efi.Tool.{BootNum}

-- The entry is the one that its number finds.
abbrev pub Known : List EfiBootentry → EfiBootentry → Type 0
Known entries e = get_efi_entry_by_bootnum entries e.num ≡ some e

found_Known :
    (entries : List EfiBootentry) (n : Str) (e : EfiBootentry)
    → get_efi_entry_by_bootnum entries n ≡ some e
    → Known entries e
unfolding get_efi_entry_by_bootnum
found_Known entries n e h =
    let (m, passes) = find_first_sound (λ e. str_eq n e.num) entries h in
    subst (λ k. get_efi_entry_by_bootnum entries k ≡ some e) ((str_eq_iff n e.num).0 passes) h

pub in_order-Known :
    (entries : List EfiBootentry) (ns : List Str) → All (Known entries) (in_order entries ns)
unfolding in_order
in_order-Known entries [] = tt
in_order-Known entries (n ∷ ns) =
    go (get_efi_entry_by_bootnum entries n) (found_Known entries n) (in_order-Known entries ns)
  where
    go :
        (o : Option EfiBootentry)
        → ((e : EfiBootentry) → o ≡ some e → Known entries e)
        → All (Known entries) (in_order entries ns)
        → All (Known entries) (append_entry o (in_order entries ns))
    go none h hs = hs
    go (some e) h hs = (h e refl, hs)

pub remove_first-All :
    (P : EfiBootentry → Type 0) (fits : EfiBootentry → Bool) (es : List EfiBootentry)
    → All P es
    → All P (remove_first fits es)
unfolding remove_first
remove_first-All P fits [] h = tt
remove_first-All P fits (e ∷ es) (h, hs) = elim (Bool-cases (fits e)) [
  | inl f ↦ rw f hs
  | inr f ↦ rw f (h, remove_first-All P fits es hs)
]

-- Entries that their numbers find are read back from their numbers.
pub in_order-nums :
    (entries es : List EfiBootentry)
    → All (Known entries) es
    → in_order entries (map (λ e. e.num) es) ≡ es
unfolding in_order
in_order-nums entries [] h = refl
in_order-nums entries (e ∷ es) (h, hs) = rw h (ap (λ r. e ∷ r) (in_order-nums entries es hs))

num_of_entry :
    (ms : List (Str × Str)) (e : EfiBootentry)
    → All (λ m. BootNum m.0) ms
    → In e (entries_of ms)
    → BootNum e.num
num_of_entry [] e h m = absurd m
num_of_entry ((n, t) ∷ ms) e (h, hs) (inl q) = subst (λ y. BootNum y.num) q h
num_of_entry ((n, t) ∷ ms) e (h, hs) (inr m) = num_of_entry ms e hs m

pub Known-BootNum :
    (ms : List (Str × Str)) (e : EfiBootentry)
    → All (λ m. BootNum m.0) ms
    → Known (entries_of ms) e
    → BootNum e.num
unfolding get_efi_entry_by_bootnum
Known-BootNum ms e h k =
    num_of_entry ms e h (find_first_sound (λ y. str_eq e.num y.num) (entries_of ms) k).0

pub nums-BootNum :
    (ms : List (Str × Str)) (es : List EfiBootentry)
    → All (λ m. BootNum m.0) ms
    → All (Known (entries_of ms)) es
    → All BootNum (map (λ e. e.num) es)
nums-BootNum ms [] h k = tt
nums-BootNum ms (e ∷ es) h (k, ks) = (Known-BootNum ms e h k, nums-BootNum ms es h ks)
