-- ===== src/Rufs/Layout.antt =====
-- p4/code/rufs.h: the records on the disk. A name is its bytes before the NUL. `struct inode` takes 256
-- bytes and `struct dirent` 214; the code never reads `indirect_ptr`, nor of `struct stat` more than
-- the fields here.
use cs416_os.Prelude.{ℕ, ◌==◌, Bool, true, false, ◌&&◌, List, [], ◌∷◌, replicate}

abbrev pub block_size : ℕ
block_size = 4096

abbrev pub magic_num : ℕ
magic_num = 0x5C3A

abbrev pub valid_mark : ℕ
valid_mark = 1

abbrev pub invalid_mark : ℕ
invalid_mark = 0

abbrev pub directory_type : ℕ
directory_type = 1

abbrev pub file_type : ℕ
file_type = 2

abbrev pub sizeof_inode : ℕ
sizeof_inode = 256

abbrev pub inodes_in_block : ℕ
inodes_in_block = 16

abbrev pub dirents_in_block : ℕ
dirents_in_block = 19

abbrev pub direct_ptrs : ℕ
direct_ptrs = 16

-- The field `name` of a directory entry, with the NUL.
abbrev pub name_bytes : ℕ
name_bytes = 208

abbrev pub Name : Type 0
Name = List ℕ

-- `strcmp(a, b) == 0`
unfoldable pub same_name : Name → Name → Bool
same_name [] [] = true
same_name [] (b ∷ bs) = false
same_name (a ∷ as') [] = false
same_name (a ∷ as') (b ∷ bs) = a == b && same_name as' bs

pub record Superblock : Type 0 where
  pub magic : ℕ
  pub max_inum : ℕ
  pub max_dnum : ℕ
  pub i_bitmap_blk : ℕ
  pub d_bitmap_blk : ℕ
  pub i_start_blk : ℕ
  pub d_start_blk : ℕ

-- `struct stat`
pub record Stat : Type 0 where
  pub st_mode : ℕ
  pub st_nlink : ℕ
  pub st_size : ℕ
  pub st_atime : ℕ
  pub st_mtime : ℕ

pub record Inode : Type 0 where
  pub ino : ℕ
  pub valid : ℕ
  pub size : ℕ
  pub type : ℕ
  pub link : ℕ
  pub direct_ptr : List ℕ
  pub vstat : Stat

pub record Dirent : Type 0 where
  pub ino : ℕ
  pub valid : ℕ
  pub name : Name
  pub len : ℕ

abbrev pub zero_stat : Stat
zero_stat = record { st_mode = 0; st_nlink = 0; st_size = 0; st_atime = 0; st_mtime = 0 }

abbrev pub zero_inode : Inode
zero_inode = record {
  ino = 0;
  valid = 0;
  size = 0;
  type = 0;
  link = 0;
  direct_ptr = replicate direct_ptrs 0;
  vstat = zero_stat;
}

abbrev pub zero_dirent : Dirent
zero_dirent = record { ino = 0; valid = 0; name = []; len = 0 }
