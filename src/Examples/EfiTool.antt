-- ===== src/Examples/EfiTool.antt =====
-- efibootmgr on a boot order and the number that boots next, with two entries.
use docker_yocto_kirkstone_n.Prelude.{
  ◌≡◌, refl, ap, ◌∙◌, Bool, true, false, List, [], ◌∷◌, Option, none, some, Str, codes, str_eq,
  join, Lacks, All, inl, inr, Bool-cases, if◌then◌else◌,
}
use docker_yocto_kirkstone_n.Process.{Outcome, Processes, not_started, ended, code}
use docker_yocto_kirkstone_n.Boot.Efi.Entries.{EfiRegex, comma}
use docker_yocto_kirkstone_n.Boot.Efi.Tool.{BootNum, EfiBootmgr, order_text}
use docker_yocto_kirkstone_n.Examples.Split.{pieces, pieces-join}
use docker_yocto_kirkstone_n.Examples.GrubTool.{lacks, lacks_sound, lacks_complete}

-- The number that boots next, empty for none, and the order.
abbrev pub BootVars : Type 0
BootVars = Str × List Str

unfoldable pub is_num : Str → Bool
unfolding lacks
is_num [] = false
is_num (c ∷ n) = lacks comma (c ∷ n)

is_num_sound : (n : Str) → is_num n ≡ true → BootNum n
unfolding is_num
is_num_sound [] h = cc
is_num_sound (c ∷ n) h = (cc, lacks_sound comma (c ∷ n) h)

is_num_complete : (n : Str) → BootNum n → is_num n ≡ true
unfolding is_num
is_num_complete [] (h, l) = absurd (h refl)
is_num_complete (c ∷ n) (h, l) = lacks_complete comma (c ∷ n) l

unfoldable pub only_nums : List Str → List Str
unfolding is_num
only_nums [] = []
only_nums (n ∷ ns) = if is_num n then n ∷ only_nums ns else only_nums ns

only_nums-BootNum : (ns : List Str) → All BootNum (only_nums ns)
unfolding only_nums
only_nums-BootNum [] = tt
only_nums-BootNum (n ∷ ns) = elim (Bool-cases (is_num n)) [
  | inl h ↦ rw h (is_num_sound n h, only_nums-BootNum ns)
  | inr h ↦ rw h (only_nums-BootNum ns)
]

only_nums_same : (ns : List Str) → All BootNum ns → only_nums ns ≡ ns
unfolding only_nums
only_nums_same [] h = refl
only_nums_same (n ∷ ns) (h, hs) = rw (is_num_complete n h) (ap (λ r. n ∷ r) (only_nums_same ns hs))

no_commas : (ns : List Str) → All BootNum ns → All (Lacks comma) ns
no_commas [] h = tt
no_commas (n ∷ ns) ((a, b), hs) = (b, no_commas ns hs)

abbrev pub next_text : Str → Str
next_text n = if is_num n then n else []

next_text-Lacks : (n : Str) → Lacks comma (next_text n)
next_text-Lacks n = elim (Bool-cases (is_num n)) [
  | inl h ↦ rw h (is_num_sound n h).1
  | inr h ↦ rw h tt
]

abbrev pub next_of : Str → Option Str
next_of [] = none
next_of (c ∷ n) = some (c ∷ n)

abbrev pub head_of : List Str → Str
head_of [] = []
head_of (p ∷ ps) = p

abbrev pub tail_of : List Str → List Str
tail_of [] = []
tail_of (p ∷ ps) = ps

abbrev pub boot_listing : BootVars → Str
boot_listing (next, order) = join (next_text next ∷ only_nums order) comma

abbrev pub boot_table : List (Str × Str)
boot_table = (codes "0001", codes "A") ∷ (codes "0002", codes "B") ∷ []

abbrev pub boot_regex : EfiRegex
boot_regex = record {
  boot_entries = λ out. boot_table;
  boot_next = λ out. next_of (head_of (pieces comma out));
  boot_order = λ out. order_text (tail_of (pieces comma out));
}

unfoldable pub run : List Str → BootVars → Outcome × BootVars
unfolding str_eq pieces only_nums is_num
run (prog ∷ []) s = (ended (boot_listing s) (code 0), s)
run (prog ∷ flag ∷ value ∷ []) (next, order) =
    if str_eq flag (codes "--bootorder")
    then (ended [] (code 0), (next, pieces comma value))
    else (ended [] (code 0), (value, order))
run _ s = (not_started, s)

abbrev pub boot_tools : Processes
boot_tools = record { State = BootVars; run = run }

listing_pieces : (s : BootVars) → pieces comma (boot_listing s) ≡ next_text s.0 ∷ only_nums s.1
listing_pieces (next, order) =
    pieces-join comma (next_text next) (only_nums order)
      (next_text-Lacks next, no_commas (only_nums order) (only_nums-BootNum order))

order_kept :
    (n : Str) (ns : List Str)
    → All BootNum (n ∷ ns)
    → only_nums (pieces comma (join (n ∷ ns) comma)) ≡ n ∷ ns
order_kept n ns h =
    ap only_nums (pieces-join comma n ns (no_commas (n ∷ ns) h)) ∙ only_nums_same (n ∷ ns) h

next_kept : (n : Str) → BootNum n → next_of (next_text n) ≡ some n
next_kept [] (h, l) = absurd (h refl)
next_kept (c ∷ n) h = rw (is_num_complete (c ∷ n) h)

pub efi_bootmgr : EfiBootmgr boot_regex boot_tools
unfolding run str_eq
efi_bootmgr = record {
  entries = λ s. boot_table;
  order = λ s. only_nums s.1;
  next = λ s. next_of (next_text s.0);
  listing = boot_listing;
  clean_entries = λ s. (
    (cc, lacks_sound comma (codes "0001") refl),
    ((cc, lacks_sound comma (codes "0002") refl), tt),
  );
  clean_order = λ s. only_nums-BootNum s.1;
  list_run = λ s. refl;
  entry_matches = λ s. refl;
  next_matches = λ s. ap (λ l. next_of (head_of l)) (listing_pieces s);
  order_matches = λ s. ap (λ l. order_text (tail_of l)) (listing_pieces s);
  set_order_exit = λ n ns s h. refl;
  set_order = λ n ns s h. (order_kept n ns h, refl, refl);
  set_next_exit = λ n s h. refl;
  set_next = λ n s h. (next_kept n h, refl, refl);
}
