-- ===== src/Rufs/Tests.antt =====
-- p4/code: the theorems at a bitmap of two bytes, and at a new file system.
mod Files
use cs416_os.Prelude.{
  ℕ, ◌∙◌, sym, ap, some, ◌==◌, ◌≡◌, true, false, List, [], ◌∷◌, ◌++◌, ◌>>=◌, arith, if◌then◌else◌,
  ltb, ◌||◌, ◌<◌, length, refl,
}
use cs416_os.Prelude.BitArray.{IsBytes}
use cs416_os.Rufs.Bitmap.{get_bitmap, set_bitmap, unset_bitmap, set_below}
use cs416_os.Rufs.Bitmap.Laws.{get_bitmap-set_bitmap, get_bitmap-unset_bitmap, get_bitmap-set_below}
use cs416_os.Rufs.Bitmap.Alloc.{Allocated, get_avail_lem}
use cs416_os.Rufs.Layout.{Name, name_bytes, same_name}
use cs416_os.Rufs.Inodes.{readi}
use cs416_os.Rufs.Inodes.Numbers.{is_taken}
use cs416_os.Rufs.Entries.Create.{CreatesFile, rufs_create_lem}
use cs416_os.Rufs.Paths.{
  split_last, get_node_by_path, slash, walk, strtok_tokens, dirname, basename,
}
use cs416_os.Rufs.Paths.Names.{IsName, step, walk_lem}
use cs416_os.Rufs.Disk.{Disk, zeros}
use cs416_os.Rufs.Format.Inodes.{WritesInode, writei_lem}
use cs416_os.Rufs.Format.Numbers.{TakesBlock, get_avail_blkno_lem}
use cs416_os.Rufs.Setup.Format.{IsBlank}
use cs416_os.Rufs.Setup.Root.{MakesFileSystem, rufs_mkfs_lem}
use cs416_os.Rufs.Directory.Adding.{AddsEntry}
use cs416_os.Rufs.Directory.Adding.Total.{dir_add_lem}

-- Bits 0, 1, 2 and 8.
abbrev bitmap : List ℕ
bitmap = 7 ∷ 1 ∷ []

bitmap-IsBytes : IsBytes bitmap
bitmap-IsBytes = (omega arith, (omega arith, tt))

get_bitmap-set_below_example : get_bitmap (set_below bitmap 5) 4 ≡ (ltb 4 5 || get_bitmap bitmap 4)
get_bitmap-set_below_example = get_bitmap-set_below bitmap 5 4 bitmap-IsBytes (omega arith)

-- A new disk file, and the file system that `rufs_mkfs` makes on it at time 5.
abbrev pub blank_disk : Disk
blank_disk = record { content = λ n. zeros; broken = λ n. false }

pub blank_disk-IsBlank : IsBlank blank_disk
blank_disk-IsBlank = record { works = λ n u. refl; blank = λ n. refl }

abbrev pub made : MakesFileSystem 5 blank_disk
made = rufs_mkfs_lem 5 blank_disk blank_disk-IsBlank

-- "a"
abbrev name_a : Name
name_a = 97 ∷ []

rufs_mkfs_lem_example : MakesFileSystem 5 blank_disk
rufs_mkfs_lem_example = rufs_mkfs_lem 5 blank_disk blank_disk-IsBlank

writei_lem_example : WritesInode made.after 17 made.root
writei_lem_example = writei_lem made.after made.formatted 17 (omega arith) made.root

get_avail_blkno_lem_example : TakesBlock made.after
get_avail_blkno_lem_example = get_avail_blkno_lem made.after made.formatted

dir_add_lem_example : AddsEntry made.after made.root 1 name_a
dir_add_lem_example =
    dir_add_lem made.after made.root 1 name_a made.formatted made.directory (omega arith)

-- "/d" and "ab"
abbrev path_d : List ℕ
path_d = slash ∷ 100 ∷ []

abbrev name_ab : Name
name_ab = 97 ∷ 98 ∷ []

name_ab-IsName : IsName name_ab
name_ab-IsName = ((refl, (refl, tt)), λ e. cc)

walk_lem_example : walk made.after 0 (strtok_tokens (path_d ++ slash ∷ name_ab)) ≡ (
    walk made.after 0 (strtok_tokens (dirname (path_d ++ slash ∷ name_ab)))
    >>= step made.after (basename (path_d ++ slash ∷ name_ab)))
walk_lem_example = walk_lem made.after 0 path_d name_ab name_ab-IsName

-- "/a"
abbrev path_a : List ℕ
path_a = slash ∷ name_a

leads_root :
    get_node_by_path made.after (dirname path_a) made.after.root_dir_ino ≡ some (some made.root)
unfolding dirname split_last get_node_by_path same_name
leads_root =
    ap (λ n. readi made.after n >>= λ i. some (some i)) (made.root_dir_ino ∙ sym made.number)
    ∙ ap (λ r. r >>= λ i. some (some i)) made.directory.stored

root_taken : is_taken (made.after.disk.content 1) made.root.ino ≡ true
root_taken = ap (is_taken (made.after.disk.content 1)) made.number ∙ made.inode_bits 0 (omega arith)

short_a : length (basename path_a) < name_bytes
unfolding basename split_last
short_a = omega arith

rufs_create_lem_example : CreatesFile 6 path_a made.after made.root
rufs_create_lem_example =
    rufs_create_lem 6 path_a made.after made.root made.pointer made.free_block 1 made.formatted
      made.directory leads_root root_taken
      (omega (arith, made.directory.size, made.pointer_in_range)) made.pointer_unset made.in_range
      made.is_free (omega arith) (made.inode_bits 1 (omega arith)) short_a
