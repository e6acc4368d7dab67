-- ===== src/Examples/HashIndexRun.antt =====
-- The search of small indices, and the read of a chunk of a file.
use docker_yocto_kirkstone_n.Prelude.{
  ℕ, zero, suc, ◌*◌, ◌≤◌, ◌<◌, ◌≡◌, ◌≢◌, ◌⊎◌, refl, ap, ◌∙◌, false, [], ◌∷◌, some, Str, str_eq,
  get_elem?, length, take, drop, arith,
}
use mathlib.Core.Path.{subst}
use docker_yocto_kirkstone_n.Exec.{ok, err, file_error, hash_index_not_found, hash_index_modified}
use docker_yocto_kirkstone_n.Io.{got, Device, pread_exact}
use docker_yocto_kirkstone_n.Io.Pread.{FileOf, slice, pread_exact_lem, pread_exact_ok}
use docker_yocto_kirkstone_n.Compare.{memcmp}
use docker_yocto_kirkstone_n.HashIndex.{
  RaucHashIndex, RaucHashIndexChunk, found, not_found, binary_search, first_with_hash, first_valid,
  find_chunk, read_checked, get_chunk,
}
use docker_yocto_kirkstone_n.HashIndex.Memcmp.{AtMost}
use docker_yocto_kirkstone_n.HashIndex.Search.{IsSorted}
use docker_yocto_kirkstone_n.HashIndex.Find.{find_chunk_lem, find_chunk_complete}
use docker_yocto_kirkstone_n.HashIndex.Chunk.{
  get_chunk-found, get_chunk-not_found, get_chunk_sound, get_chunk_error,
}

abbrev hash_a : Str
hash_a = 0 ∷ []

abbrev hash_b : Str
hash_b = 1 ∷ []

abbrev hash_c : Str
hash_c = 2 ∷ []

-- A file.
abbrev pub disk : Device
disk = record { State = Str; pread = λ n offset s. (got (take n (drop offset s)), s) }

length-take_le : (n : ℕ) (xs : Str) → length (take n xs) ≤ n
unfolding take
length-take_le zero xs = omega arith
length-take_le (suc n) [] = omega arith
length-take_le (suc n) (x ∷ xs) = omega (arith, length-take_le n xs)

take-length : (n : ℕ) (xs : Str) → take (length (take n xs)) xs ≡ take n xs
unfolding take
take-length zero xs = refl
take-length (suc n) [] = refl
take-length (suc n) (x ∷ xs) = ap (λ r. x ∷ r) (take-length n xs)

drop_empty : (k : ℕ) (n : ℕ) (xs : Str) → 0 < n → take n (drop k xs) ≡ [] → length xs ≤ k
unfolding take drop
drop_empty k n [] pos h = omega arith
drop_empty zero zero (x ∷ xs) pos h = absurd (omega arith)
drop_empty zero (suc n) (x ∷ xs) pos h = cc
drop_empty (suc k) n (x ∷ xs) pos h = omega (arith, drop_empty k n xs pos h)

the_bytes : {a b : Str} → got a ≡ got b → a ≡ b
the_bytes q = cc

bytes_at :
    (n offset : ℕ) (s bytes : Str)
    → got (take n (drop offset s)) ≡ got bytes
    → (length bytes ≤ n) × (slice (length bytes) offset s ≡ bytes)
bytes_at n offset s bytes h =
    subst (λ b. (length b ≤ n) × (slice (length b) offset s ≡ b)) (the_bytes h)
      (length-take_le n (drop offset s), take-length n (drop offset s))

abbrev disk_file : FileOf disk
disk_file = record {
  content = λ s. s;
  kept = λ n offset s. refl;
  bytes_at = bytes_at;
  end_of_file = λ n offset s pos h. drop_empty offset n s pos (the_bytes h);
}

unfoldable filled : ℕ → Str
filled zero = []
filled (suc n) = 7 ∷ filled n

length-filled : (n : ℕ) → length (filled n) ≡ n
unfolding filled
length-filled zero = refl
length-filled (suc n) = ap suc (length-filled n)

-- Chunks 0 and 2 have the hash b, chunk 1 has a, and chunk 0 is not valid.
abbrev three : RaucHashIndex
three = record {
  count = 3;
  hashes = hash_b ∷ hash_a ∷ hash_b ∷ [];
  lookup = 1 ∷ 0 ∷ 2 ∷ [];
  invalid_below = 1;
  invalid_from = 4294967295;
  skip_hash_check = false;
}

abbrev chunk_at : ℕ → ℕ
chunk_at zero = 1
chunk_at (suc zero) = 0
chunk_at (suc (suc i)) = 2

abbrev key_at : ℕ → Str
key_at zero = hash_a
key_at (suc i) = hash_b

lookup_at : (i : ℕ) → i < 3 → get_elem? three.lookup i ≡ some (chunk_at i)
unfolding get_elem?
lookup_at zero h = refl
lookup_at (suc zero) h = refl
lookup_at (suc (suc zero)) h = refl
lookup_at (suc (suc (suc i))) h = absurd (omega arith)

hashes_at : (i : ℕ) → i < 3 → get_elem? three.hashes (chunk_at i) ≡ some (key_at i)
unfolding get_elem?
hashes_at zero h = refl
hashes_at (suc zero) h = refl
hashes_at (suc (suc i)) h = refl

by_hash : (i j : ℕ) → i ≤ j → j < 3 → AtMost (key_at i) (key_at j)
unfolding memcmp
by_hash zero zero h k = λ q. cc
by_hash zero (suc j) h k = λ q. cc
by_hash (suc i) zero h k = absurd (omega arith)
by_hash (suc i) (suc j) h k = λ q. cc

a-ne-b : hash_a ≢ hash_b
a-ne-b q = cc

by_number : (i j : ℕ) → i ≤ j → j < 3 → key_at i ≡ key_at j → chunk_at i ≤ chunk_at j
by_number zero zero h k e = omega arith
by_number zero (suc j) h k e = absurd (a-ne-b e)
by_number (suc i) zero h k e = absurd (omega arith)
by_number (suc zero) (suc j) h k e = omega arith
by_number (suc (suc i)) (suc zero) h k e = absurd (omega arith)
by_number (suc (suc i)) (suc (suc j)) h k e = omega arith

abbrev three-IsSorted : IsSorted three
three-IsSorted = record {
  chunk = chunk_at;
  key = key_at;
  not_empty = omega arith;
  small = omega arith;
  lookup_at = lookup_at;
  hashes_at = hashes_at;
  by_hash = by_hash;
  by_number = by_number;
}

b_found : find_chunk three hash_b ≡ found 2
unfolding find_chunk binary_search first_with_hash first_valid memcmp str_eq get_elem?
b_found = refl

-- All chunks have the same hash, and only chunk 0 is valid: it is not found.
missed_chunk :
    find_chunk
      (record {
        count = 3;
        hashes = hash_a ∷ hash_a ∷ hash_a ∷ [];
        lookup = 0 ∷ 1 ∷ 2 ∷ [];
        invalid_below = 0;
        invalid_from = 1;
        skip_hash_check = false;
      })
      hash_a
    ≡ not_found
unfolding find_chunk binary_search first_with_hash first_valid memcmp str_eq get_elem?
missed_chunk = refl

find_chunk_lem_example :
    ((i : ℕ) × (find_chunk three hash_b ≡ found i)
      × (i < 3)
      × (key_at i ≡ hash_b)
      × (1 ≤ chunk_at i)
      × (chunk_at i < 4294967295))
    ⊎ (find_chunk three hash_b ≡ not_found)
find_chunk_lem_example = find_chunk_lem three three-IsSorted hash_b

find_chunk_complete_example : (r : ℕ) × (find_chunk three hash_b ≡ found r) × (r ≤ 2)
find_chunk_complete_example =
    find_chunk_complete three three-IsSorted hash_b 2 a-ne-b (omega arith) refl (omega arith)
      (omega arith)

-- 3 chunks.
abbrev image : Str
image = filled 12288

constant_hash : Str → Str
constant_hash bytes = hash_b

abbrev blank : RaucHashIndexChunk
blank = record { data_bytes = []; hash = [] }

abbrev second : RaucHashIndexChunk
second = record { data_bytes = slice 4096 8192 image; hash = hash_b }

pread_exact_ok_example : (pread_exact disk 4096 8192 image).0 ≡ ok (slice 4096 8192 image)
pread_exact_ok_example =
    pread_exact_ok disk disk_file (λ n offset s q. cc) 4096 8192 image
      (omega (arith, length-filled 12288))

read_second : (get_chunk disk constant_hash three hash_b blank image).0 ≡ ok second
unfolding constant_hash str_eq
read_second =
    get_chunk-found disk disk_file constant_hash three three-IsSorted hash_b blank image 2 b_found
      (omega arith)
    ∙ ap (read_checked constant_hash false hash_b blank) pread_exact_ok_example

get_chunk_sound_example :
    (c : ℕ) × (slice 4096 (c * 4096) image ≡ slice 4096 8192 image)
    × (get_elem? three.hashes c ≡ some hash_b)
    × (1 ≤ c)
    × (c < 4294967295)
    × (false ≡ false → (constant_hash (slice 4096 8192 image) ≡ hash_b) × (hash_b ≡ hash_b))
get_chunk_sound_example =
    get_chunk_sound disk disk_file constant_hash three three-IsSorted hash_b blank second image
      read_second

missing : find_chunk three hash_c ≡ not_found
unfolding find_chunk binary_search first_with_hash first_valid memcmp str_eq get_elem?
missing = refl

get_chunk_error_example :
    (hash_index_not_found ≡ hash_index_not_found)
    ⊎ ((hash_index_not_found ≡ file_error)
        ⊎ ((hash_index_not_found ≡ hash_index_modified) × (false ≡ false)))
get_chunk_error_example =
    get_chunk_error disk disk_file constant_hash three three-IsSorted hash_c blank
      hash_index_not_found image
      (get_chunk-not_found disk disk_file constant_hash three three-IsSorted hash_c blank image
        missing)

pread_exact_lem_example :
    ((pread_exact disk 4096 8192 image).0 ≡ ok (slice 4096 8192 image))
      × (length (slice 4096 8192 image) ≡ 4096)
    ⊎ ((pread_exact disk 4096 8192 image).0 ≡ err file_error)
pread_exact_lem_example = pread_exact_lem disk disk_file 4096 8192 image
