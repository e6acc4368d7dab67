-- ===== src/Exec/Keeps.antt =====
-- A property of states that an action keeps, whether it succeeds or fails.
use docker_yocto_kirkstone_n.Prelude.{Bool, true, false, if◌then◌else◌}
use docker_yocto_kirkstone_n.Exec.{Error, Result, ok, err, Exec, ◌>>=◌, next, catch, resume}

module _ {S : Type 0} (P : S → Type 0) where
  abbrev pub Keeps : {A : Type 0} → Exec S A → Type 0
  Keeps m = (s : S) → P s → P (m s).1

  pub next-Keeps :
      {A B : Type 0} (r : Result A) (f : A → Exec S B) → ((a : A) → Keeps (f a)) → Keeps (next r f)
  next-Keeps (ok a) f h s p = h a s p
  next-Keeps (err e) f h s p = p

  pub >>=-Keeps :
      {A B : Type 0} (m : Exec S A) (f : A → Exec S B)
      → Keeps m
      → ((a : A) → Keeps (f a))
      → Keeps (m >>= f)
  >>=-Keeps m f k h s p = next-Keeps (m s).0 f h (m s).1 (k s p)

  pub resume-Keeps :
      {A B : Type 0} (r : Result A) (f : A → Exec S B) (g : Error → Exec S B)
      → ((a : A) → Keeps (f a))
      → ((e : Error) → Keeps (g e))
      → Keeps (resume r f g)
  resume-Keeps (ok a) f g h i s p = h a s p
  resume-Keeps (err e) f g h i s p = i e s p

  pub catch-Keeps :
      {A B : Type 0} (m : Exec S A) (f : A → Exec S B) (g : Error → Exec S B)
      → Keeps m
      → ((a : A) → Keeps (f a))
      → ((e : Error) → Keeps (g e))
      → Keeps (catch m f g)
  catch-Keeps m f g k h i s p = resume-Keeps (m s).0 f g h i (m s).1 (k s p)

  pub if-Keeps :
      {A : Type 0} (b : Bool) (m n : Exec S A) → Keeps m → Keeps n → Keeps (if b then m else n)
  if-Keeps true m n h i = h
  if-Keeps false m n h i = i
