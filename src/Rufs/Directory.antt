-- ===== src/Rufs/Directory.antt =====
-- p4/code/rufs.c: `dir_find` and `dir_add`.
pub mod Find
pub mod Spots
pub mod Adding
use cs416_os.Prelude.{
  ℕ, ◌+◌, ◌==◌, ltb, Bool, not, ◌&&◌, if◌then◌else◌, Option, none, some, List, [], ◌∷◌, get_or, set,
  length, replicate, ◌>>=◌,
}
use cs416_os.Rufs.Layout.{
  Name, same_name, Inode, Dirent, zero_dirent, valid_mark, invalid_mark, dirents_in_block,
  name_bytes,
}
use cs416_os.Rufs.Disk.{bio_read, as_dirents, dirents}
use cs416_os.Rufs.Inodes.{Fs, write_block, get_avail_blkno, block_number, readi, writei}

abbrev pub is_valid : ℕ → Bool
is_valid v = not (v == invalid_mark)

-- The inner loop: the first valid entry of a block with the name.
unfoldable pub find_entry : Name → List Dirent → Option Dirent
find_entry fname [] = none
find_entry fname (curr ∷ rest) =
    let later = find_entry fname rest in
    if is_valid curr.valid && same_name fname curr.name then some curr else later

-- The loop over the pointers that `wanted` tells.
unfoldable pub find_entry_in : (ℕ → Bool) → Fs → Name → List ℕ → Option (Option Dirent)
find_entry_in wanted fs fname [] = some none
find_entry_in wanted fs fname (p ∷ ptrs) =
    let later = find_entry_in wanted fs fname ptrs in
    if wanted p
    then (as_dirents (bio_read fs.disk p).1 >>= λ buf. elim (find_entry fname buf) [
      | some e ↦ some (some e)
      | none ↦ later
    ])
    else later

-- The result is the entry copied to `dirent`, or 0.
unfoldable pub dir_find : Fs → ℕ → Name → Option (Option Dirent)
dir_find fs ino fname = do
  dir_inode ← readi fs ino
  if is_valid dir_inode.valid
      then find_entry_in is_valid fs fname dir_inode.direct_ptr
      else some none

-- The results 1, 0 and -1.
pub data Added : Type 0 where
  added : Added
  already_there : Added
  no_space : Added

-- Where a new entry can stand: a pointer that has no block, or a free place in a pointer's block.
pub data Spot : Type 0 where
  new_block : ℕ → Spot
  place : ℕ → ℕ → Spot

unfoldable pub free_place : List Dirent → ℕ → Option ℕ
free_place [] j = none
free_place (curr ∷ rest) j =
    let later = free_place rest (j + 1) in if is_valid curr.valid then later else some j

-- The free place of a block at pointer `i`, or what is found later.
unfoldable pub place_or_later : ℕ → Option ℕ → Option (Option Spot) → Option (Option Spot)
place_or_later i none later = later
place_or_later i (some j) later = some (some (place i j))

-- The loop that looks for a spot, at pointer `i`.
unfoldable pub find_spot : Fs → List ℕ → ℕ → Option (Option Spot)
unfolding place_or_later
find_spot fs [] i = some none
find_spot fs (p ∷ ptrs) i =
    let later = find_spot fs ptrs (i + 1) in
    if p == invalid_mark
    then some (some (new_block i))
    else (as_dirents (bio_read fs.disk p).1 >>= λ buf. place_or_later i (free_place buf 0) later)

abbrev pub new_entry : ℕ → Name → Dirent
new_entry f_ino fname = record {
  ino = f_ino;
  valid = valid_mark;
  name = fname;
  len = length fname + 1;
}

-- A block of invalid entries, with the new one first, is written to a newly taken block.
unfoldable pub add_in_new_block : Inode → ℕ → Name → ℕ → Fs → Option Fs
add_in_new_block dir_inode f_ino fname i fs = do
  (taken, fs₁) ← get_avail_blkno fs
  let new_blk = block_number taken
  writei dir_inode.ino (record dir_inode { direct_ptr = set dir_inode.direct_ptr i new_blk })
      (write_block new_blk
        (dirents (set (replicate dirents_in_block zero_dirent) 0 (new_entry f_ino fname))) fs₁)

unfoldable pub add_in_place : Inode → ℕ → Name → ℕ → ℕ → Fs → Option Fs
add_in_place dir_inode f_ino fname i j fs = do
  let blk_num = get_or dir_inode.direct_ptr i 0
  buf ← as_dirents (bio_read fs.disk blk_num).1
  some (write_block blk_num (dirents (set buf j (new_entry f_ino fname))) fs)

-- `none` also where `strcpy` writes past the entry's name.
abbrev pub add_at : Inode → ℕ → Name → Fs → Option Spot → Option (Added × Fs)
add_at dir_inode f_ino fname fs none = some (no_space, fs)
add_at dir_inode f_ino fname fs (some (new_block i)) =
    if ltb (length fname) name_bytes
    then (add_in_new_block dir_inode f_ino fname i fs >>= λ fs'. some (added, fs'))
    else none
add_at dir_inode f_ino fname fs (some (place i j)) =
    if ltb (length fname) name_bytes
    then (add_in_place dir_inode f_ino fname i j fs >>= λ fs'. some (added, fs'))
    else none

-- The search for the name reads the pointers that are equal to `VALID`.
unfoldable pub dir_add : Inode → ℕ → Name → Fs → Option (Added × Fs)
dir_add dir_inode f_ino fname fs =
    if is_valid dir_inode.valid
    then (find_entry_in (λ p. p == valid_mark) fs fname dir_inode.direct_ptr >>= λ used. elim used [
      | some e ↦ some (already_there, fs)
      | none ↦ (find_spot fs dir_inode.direct_ptr 0 >>= add_at dir_inode f_ino fname fs)
    ])
    else some (already_there, fs)
