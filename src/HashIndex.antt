-- ===== src/HashIndex.antt =====
-- kirkstone/local/rauc/src/hash_index.c: the search of an index of chunk hashes for a chunk. The arrays are lists, and a
-- read behind their end is an outcome of its own. The statistics of matches are left out.
pub mod Memcmp
pub mod Search
pub mod First
pub mod Find
pub mod Checked
pub mod Chunk
use docker_yocto_kirkstone_n.Prelude.{
  ℕ, zero, suc, ◌+◌, ◌-◌, ◌*◌, ◌/◌, ◌%◌, ◌^◌, Bool, true, false, List, [], ◌∷◌, Option, none, some,
  Str, ltb, leb, ◌==◌, str_eq, if◌then◌else◌, get_elem?,
}
use docker_yocto_kirkstone_n.Compare.{less, same, greater, memcmp}
use docker_yocto_kirkstone_n.Io.{Device, pread_exact}
use docker_yocto_kirkstone_n.Exec.{
  Result, ok, err, Exec, raise, hash_index_not_found, hash_index_modified, unset_error, aborted,
}

-- `hashes` holds the hash of each chunk, 32 bytes each.
pub record RaucHashIndex : Type 0 where
  pub count : ℕ
  pub hashes : List Str
  pub lookup : List ℕ
  pub invalid_below : ℕ
  pub invalid_from : ℕ
  pub skip_hash_check : Bool

pub data Found : Type 0 where
  found : ℕ → Found
  not_found : Found
  -- an array was read behind its end
  out_of_bounds : Found
  -- the fuel ran out
  unfinished : Found

abbrev pub at_hash : List Str → Option ℕ → Option Str
at_hash hashes none = none
at_hash hashes (some c) = get_elem? hashes c

-- hashes[idx->lookup[i]]
abbrev pub hash_at : RaucHashIndex → ℕ → Option Str
hash_at idx i = at_hash idx.hashes (get_elem? idx.lookup i)

-- `guint32 middle = left + (right - left) / 2`
abbrev pub middle_of : ℕ → ℕ → ℕ
middle_of left right = (left + (right - left) / 2) % 2 ^ 32

-- The binary search, a round for each unit of fuel.
unfoldable pub binary_search : ℕ → RaucHashIndex → Str → ℕ → ℕ → Found
unfolding memcmp
binary_search zero idx hash left right = unfinished
binary_search (suc fuel) idx hash left right = elim (leb left right) [
  | false ↦ not_found
  | true ↦ elim (hash_at idx (middle_of left right)) [
    | none ↦ out_of_bounds
    | some h ↦ elim (memcmp h hash) [
      | same ↦ found (middle_of left right)
      | less ↦ binary_search fuel idx hash ((middle_of left right + 1) % 2 ^ 32) right
      | greater ↦ elim (ltb 0 (middle_of left right)) [
        | true ↦ binary_search fuel idx hash left (middle_of left right - 1)
        | false ↦ not_found
      ]
    ]
  ]
]

-- The loop `for (i = middle; i > 0; i--)` to the first chunk with the hash. It leaves `middle` as it
-- is where it comes to 0.
unfoldable pub first_with_hash : RaucHashIndex → Str → ℕ → ℕ → Found
unfolding str_eq
first_with_hash idx hash middle zero = found middle
first_with_hash idx hash middle (suc i) = elim (hash_at idx i) [
  | none ↦ out_of_bounds
  | some h ↦ elim (str_eq h hash) [
    | true ↦ first_with_hash idx hash middle i
    | false ↦ found (suc i)
  ]
]

-- The loop `for (i = middle; i < count; i++)` to the first valid chunk with the hash, `remaining`
-- rounds before `count`.
unfoldable pub first_valid : RaucHashIndex → Str → ℕ → ℕ → Found
unfolding str_eq
first_valid idx hash zero i = not_found
first_valid idx hash (suc remaining) i = elim (get_elem? idx.lookup i) [
  | none ↦ out_of_bounds
  | some curr ↦ elim (get_elem? idx.hashes curr) [
    | none ↦ out_of_bounds
    | some h ↦ elim (str_eq h hash) [
      | false ↦ not_found
      | true ↦ elim (leb idx.invalid_from curr) [
        | true ↦ not_found
        | false ↦ elim (ltb curr idx.invalid_below) [
          | false ↦ found i
          | true ↦ elim (ltb i (idx.count - 1)) [
            | true ↦ first_valid idx hash remaining (suc i)
            | false ↦ not_found
          ]
        ]
      ]
    ]
  ]
]

abbrev pub then_at : Found → (ℕ → Found) → Found
then_at (found i) f = f i
then_at not_found f = not_found
then_at out_of_bounds f = out_of_bounds
then_at unfinished f = unfinished

-- The index into `lookup` of the chunk that is read.
unfoldable pub find_chunk : RaucHashIndex → Str → Found
unfolding binary_search first_with_hash first_valid
find_chunk idx hash = then_at (binary_search (suc idx.count) idx hash 0 (idx.count - 1)) (λ middle.
    then_at (first_with_hash idx hash middle middle)
      (λ first. first_valid idx hash (idx.count - first) first))

pub record RaucHashIndexChunk : Type 0 where
  pub data_bytes : Str
  pub hash : Str

-- SHA256 is a parameter.
module _ (sha256 : Str → Str) where
  abbrev pub checked : Bool → Str → RaucHashIndexChunk → Result RaucHashIndexChunk
  checked true hash chunk = ok chunk
  checked false hash chunk =
      if str_eq (sha256 chunk.data_bytes) hash
      then ok (record chunk { hash = sha256 chunk.data_bytes })
      else err hash_index_modified

  abbrev pub read_checked : Bool → Str → RaucHashIndexChunk → Result Str → Result RaucHashIndexChunk
  read_checked skip hash chunk (err e) = err e
  read_checked skip hash chunk (ok bytes) = checked skip hash (record chunk { data_bytes = bytes })

-- The device has the open file of the index.
module _ (d : Device) (sha256 : Str → Str) where
  open d use {State}

  abbrev pub read_chunk :
      RaucHashIndex → Str → RaucHashIndexChunk → Option ℕ → Exec State RaucHashIndexChunk
  read_chunk idx hash chunk none s = (err aborted, s)
  read_chunk idx hash chunk (some c) s = (
    read_checked sha256 idx.skip_hash_check hash chunk (pread_exact d 4096 (c * 4096) s).0,
    (pread_exact d 4096 (c * 4096) s).1,
  )

  abbrev pub chunk_of :
      RaucHashIndex → Str → RaucHashIndexChunk → Found → Exec State RaucHashIndexChunk
  chunk_of idx hash chunk (found i) = read_chunk idx hash chunk (get_elem? idx.lookup i)
  chunk_of idx hash chunk not_found = raise hash_index_not_found
  chunk_of idx hash chunk out_of_bounds = raise aborted
  chunk_of idx hash chunk unfinished = raise aborted

  unfoldable pub get_chunk :
      RaucHashIndex → Str → RaucHashIndexChunk → Exec State RaucHashIndexChunk
  unfolding str_eq find_chunk
  get_chunk idx hash chunk =
      if idx.count == 0 then raise unset_error else chunk_of idx hash chunk (find_chunk idx hash)
