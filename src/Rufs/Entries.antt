-- ===== src/Rufs/Entries.antt =====
-- p4/code/rufs.c: the FUSE operations on paths and directories. `now` is the time.
pub mod Create
pub mod Unwritten
use cs416_os.Prelude.{
  ℕ, ◌+◌, ◌%◌, ◌^◌, Bool, true, false, if◌then◌else◌, Option, none, some, List, [], ◌∷◌, ◌++◌,
  replicate, ◌>>=◌,
}
use cs416_os.Rufs.Layout.{
  Name, Inode, Stat, Dirent, valid_mark, invalid_mark, directory_type, file_type, direct_ptrs,
}
use cs416_os.Rufs.Disk.{bio_read, as_dirents}
use cs416_os.Rufs.Inodes.{Fs, get_avail_ino, inode_number, readi, writei}
use cs416_os.Rufs.Directory.{is_valid, added, already_there, no_space, dir_add}
use cs416_os.Rufs.Paths.{get_node_by_path, dirname, basename}
use cs416_os.Rufs.Setup.{directory_mode, dot, dot_dot}

-- The values that the operations return.
pub data Status : Type 0 where
  success : Status
  enoent : Status
  enomem : Status
  efbig : Status
  eexist : Status
  minus_one : Status

-- `S_IFREG | 0666`
abbrev pub file_mode : ℕ
file_mode = 0x81B6

unfoldable pub rufs_getattr : Fs → List ℕ → Option (Option Stat)
rufs_getattr fs path = get_node_by_path fs path fs.root_dir_ino >>= λ found. elim found [
  | none ↦ some none
  | some i ↦ some (some (record i.vstat { st_size = i.size }))
]

unfoldable pub rufs_opendir : Fs → List ℕ → Option Status
rufs_opendir fs path = get_node_by_path fs path fs.root_dir_ino >>= λ found. elim found [
  | none ↦ some minus_one
  | some i ↦ some success
]

unfoldable pub rufs_open : Fs → List ℕ → Option Status
rufs_open fs path = get_node_by_path fs path fs.root_dir_ino >>= λ found. elim found [
  | none ↦ some minus_one
  | some i ↦ some success
]

-- FUSE's `filler` takes a name into its buffer of names, or is full.
module _ (is_full : List Name → Bool) where
  unfoldable pub fill_block : List Dirent → List Name → Bool × List Name
  fill_block [] names = (true, names)
  fill_block (e ∷ es) names =
      let more = fill_block es (names ++ (e.name ∷ [])) in
      let same = fill_block es names in
      if is_valid e.valid then (if is_full names then (false, names) else more) else same

  unfoldable pub fill_blocks : Fs → List ℕ → List Name → Option (Bool × List Name)
  unfolding fill_block
  fill_blocks fs [] names = some (true, names)
  fill_blocks fs (p ∷ ptrs) names =
      let skip = fill_blocks fs ptrs names in
      if is_valid p
      then (as_dirents (bio_read fs.disk p).1 >>= λ buf.
          let r = fill_block buf names in
          elim r.0 [ true ↦ fill_blocks fs ptrs r.1 | false ↦ some (false, r.1) ])
      else skip

  unfoldable pub rufs_readdir : Fs → List ℕ → Option (Status × List Name)
  unfolding fill_blocks
  rufs_readdir fs path = get_node_by_path fs path fs.root_dir_ino >>= λ found. elim found [
    | none ↦ some (enoent, [])
    | some i ↦ (fill_blocks fs i.direct_ptr [] >>= λ r. some (if r.0 then success else enomem, r.1))
  ]

-- The new inode of `rufs_mkdir` and of `rufs_create`, over what its number held.
abbrev pub new_directory : ℕ → ℕ → Inode → Inode
new_directory new_ino now i = record i {
  ino = new_ino;
  valid = valid_mark;
  type = directory_type;
  direct_ptr = replicate direct_ptrs invalid_mark;
  vstat = record i.vstat { st_mode = directory_mode; st_atime = now; st_mtime = now };
}

abbrev pub new_file : ℕ → ℕ → Inode → Inode
new_file new_ino now i = record i {
  ino = new_ino;
  valid = valid_mark;
  size = 0;
  type = file_type;
  direct_ptr = replicate direct_ptrs invalid_mark;
  vstat = record i.vstat { st_mode = file_mode; st_atime = now; st_mtime = now };
}

-- What `rufs_mkdir` does once the parent has the new entry.
unfoldable pub make_directory : ℕ → Inode → ℕ → Fs → Option Fs
make_directory now nodei new_ino fs = do
  old ← readi fs new_ino
  let i : Inode = new_directory new_ino now old
  fs₁ ← writei new_ino i fs
  (r₁, fs₂) ← dir_add i new_ino dot fs₁
  j ← readi fs₂ new_ino
  (r₂, fs₃) ← dir_add j nodei.ino dot_dot fs₂
  parent ← readi fs₃ nodei.ino
  writei parent.ino
      (record parent {
        link = (parent.link + 1) % 2 ^ 32;
        vstat = record parent.vstat { st_nlink = (parent.vstat.st_nlink + 1) % 2 ^ 64 };
      })
      fs₃

-- What `rufs_create` does then.
unfoldable pub make_file : ℕ → ℕ → Fs → Option Fs
make_file now new_ino fs = do old ← readi fs new_ino; writei new_ino (new_file new_ino now old) fs

-- The part that both share: the parent, a number, and the entry; then `make`.
unfoldable pub add_node : (Inode → ℕ → Fs → Option Fs) → List ℕ → Fs → Option (Status × Fs)
add_node make path fs = get_node_by_path fs (dirname path) fs.root_dir_ino >>= λ found. elim found [
  | none ↦ some (enoent, fs)
  | some nodei ↦ (do
    (taken, fs₁) ← get_avail_ino fs
    let new_ino = inode_number taken
    (r, fs₂) ← dir_add nodei new_ino (basename path) fs₁
    elim r [
      | no_space ↦ some (efbig, fs₂)
      | already_there ↦ some (eexist, fs₂)
      | added ↦ (make nodei new_ino fs₂ >>= λ fs₃. some (success, fs₃))
    ])
]

unfoldable pub rufs_mkdir : ℕ → List ℕ → Fs → Option (Status × Fs)
unfolding make_directory add_node
rufs_mkdir now = add_node (make_directory now)

unfoldable pub rufs_create : ℕ → List ℕ → Fs → Option (Status × Fs)
unfolding make_file add_node
rufs_create now = add_node (λ nodei. make_file now)
