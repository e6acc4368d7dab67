-- ===== src/Boot/Efi/Tool.antt =====
-- What the code relies on of efibootmgr and of the matches in its output, and efi_bootorder_get.
use docker_yocto_kirkstone_n.Prelude.{
  ◌≡◌, ◌≢◌, refl, ap, ◌∙◌, List, [], ◌∷◌, Option, none, some, Str, join, Lacks, All,
}
use docker_yocto_kirkstone_n.Exec.{Result, ok, err, bootchooser_failed}
use docker_yocto_kirkstone_n.Process.{Processes, ended, code, communicate}
use docker_yocto_kirkstone_n.Glib.{Glib, GlibLaws}
use docker_yocto_kirkstone_n.Context.{RaucConfig}
use docker_yocto_kirkstone_n.Boot.Efi.Entries.{EfiBootorder, EfiRegex, comma, entries_of, in_order}
use docker_yocto_kirkstone_n.Boot.Efi.{
  list_argv, bootorder_argv, bootnext_argv, next_entry, parsed_listing, efi_bootorder_get,
}

-- A boot number is four hexadecimal digits; what matters is that it is not empty and has no comma.
abbrev pub BootNum : Str → Type 0
BootNum n = (n ≢ []) × Lacks comma n

-- There is no line BootOrder where the order is empty.
abbrev pub order_text : List Str → Option Str
order_text [] = none
order_text (n ∷ ns) = some (join (n ∷ ns) comma)

-- The manual of efibootmgr: without options it lists the entries, the order and what boots next;
-- `--bootorder` and `--bootnext` set those and leave the rest.
pub record EfiBootmgr (x : EfiRegex) (p : Processes) : Type 0 where
  pub entries : p.State → List (Str × Str)
  pub order : p.State → List Str
  pub next : p.State → Option Str
  pub listing : p.State → Str
  pub clean_entries : (s : p.State) → All (λ m. BootNum m.0) (entries s)
  pub clean_order : (s : p.State) → All BootNum (order s)
  pub list_run : (s : p.State) → p.run list_argv s ≡ (ended (listing s) (code 0), s)
  pub entry_matches : (s : p.State) → x.boot_entries (listing s) ≡ entries s
  pub next_matches : (s : p.State) → x.boot_next (listing s) ≡ next s
  pub order_matches : (s : p.State) → x.boot_order (listing s) ≡ order_text (order s)
  pub set_order_exit :
      (n : Str) (ns : List Str) (s : p.State)
      → All BootNum (n ∷ ns)
      → (p.run (bootorder_argv (join (n ∷ ns) comma)) s).0 ≡ ended [] (code 0)
  pub set_order :
      (n : Str) (ns : List Str) (s : p.State)
      → All BootNum (n ∷ ns)
      → (order (p.run (bootorder_argv (join (n ∷ ns) comma)) s).1 ≡ n ∷ ns)
        × (entries (p.run (bootorder_argv (join (n ∷ ns) comma)) s).1 ≡ entries s)
        × (next (p.run (bootorder_argv (join (n ∷ ns) comma)) s).1 ≡ next s)
  pub set_next_exit :
      (n : Str) (s : p.State) → BootNum n → (p.run (bootnext_argv n) s).0 ≡ ended [] (code 0)
  pub set_next :
      (n : Str) (s : p.State)
      → BootNum n
      → (next (p.run (bootnext_argv n) s).1 ≡ some n)
        × (entries (p.run (bootnext_argv n) s).1 ≡ entries s)
        × (order (p.run (bootnext_argv n) s).1 ≡ order s)

-- What efi_bootorder_get returns, read off the entries, BootNext and BootOrder.
abbrev pub view_of : List (Str × Str) → Option Str → List Str → Result EfiBootorder
view_of [] next order = err bootchooser_failed
view_of (m ∷ ms) next [] = err bootchooser_failed
view_of (m ∷ ms) next (n ∷ ns) = ok (record {
  bootorder_entries = in_order (entries_of (m ∷ ms)) (n ∷ ns);
  all_entries = entries_of (m ∷ ms);
  bootnext = next_entry (entries_of (m ∷ ms)) next;
})

join-ne-nil : (n : Str) (ns : List Str) → n ≢ [] → join (n ∷ ns) comma ≢ []
unfolding join
join-ne-nil [] ns h = absurd (h refl)
join-ne-nil (c ∷ n) [] h = cc
join-ne-nil (c ∷ n) (m ∷ ns) h = cc

no_commas : (ns : List Str) → All BootNum ns → All (Lacks comma) ns
no_commas [] h = tt
no_commas (n ∷ ns) ((a, b), hs) = (b, no_commas ns hs)

module _ (g : Glib) (laws : GlibLaws g) (x : EfiRegex) (p : Processes) (c : RaucConfig)
    (tool : EfiBootmgr x p) where
  parsed_view :
      (out : Str) (ms : List (Str × Str)) (order : List Str)
      → All BootNum order
      → x.boot_order out ≡ order_text order
      → parsed_listing g x out ms ≡ view_of ms (x.boot_next out) order
  parsed_view out [] order h e = refl
  parsed_view out (m ∷ ms) [] h e = rw e
  parsed_view out (m ∷ ms) (n ∷ ns) h e =
      rw (e, laws.strsplit-join (n ∷ ns) comma (cc) (join-ne-nil n ns h.0.0) (no_commas (n ∷ ns) h))

  -- Reading leaves the machine as it is.
  pub efi_bootorder_get_lem :
      (s : p.State)
      → efi_bootorder_get g x p c s ≡ (view_of (tool.entries s) (tool.next s) (tool.order s), s)
  unfolding efi_bootorder_get communicate
  efi_bootorder_get_lem s = rw (tool.list_run s) (
      ap (λ r. (r, s))
        (parsed_view (tool.listing s) _ (tool.order s) (tool.clean_order s) (tool.order_matches s)
          ∙ ap (λ ms. view_of ms (x.boot_next (tool.listing s)) (tool.order s))
              (tool.entry_matches s)
          ∙ ap (λ o. view_of (tool.entries s) o (tool.order s)) (tool.next_matches s)))
