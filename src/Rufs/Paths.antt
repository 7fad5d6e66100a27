-- ===== src/Rufs/Paths.antt =====
-- p4/code/rufs.c: `get_node_by_path`. A path is its bytes. `strtok` with the delimiter "/", `dirname`
-- and `basename` are those of the C library; the last two on the absolute paths without a slash at
-- the end that FUSE hands over.
pub mod Names
use cs416_os.Prelude.{ℕ, ◌==◌, if◌then◌else◌, Option, none, some, List, [], ◌∷◌, ◌>>=◌}
use cs416_os.Rufs.Layout.{Name, same_name, Inode}
use cs416_os.Rufs.Inodes.{Fs, readi}
use cs416_os.Rufs.Directory.{dir_find}

abbrev pub slash : ℕ
slash = 47

-- A token is not empty.
abbrev pub keep : Name → List Name → List Name
keep [] tokens = tokens
keep (c ∷ cs) tokens = (c ∷ cs) ∷ tokens

-- The bytes before the first slash, and the tokens behind it.
unfoldable pub split : List ℕ → Name × List Name
split [] = ([], [])
split (c ∷ cs) = let r = split cs in if c == slash then ([], keep r.0 r.1) else (c ∷ r.0, r.1)

unfoldable pub strtok_tokens : List ℕ → List Name
unfolding split
strtok_tokens path = keep (split path).0 (split path).1

-- What stands before and behind the last slash.
unfoldable pub split_last : List ℕ → Option (List ℕ × Name)
split_last [] = none
split_last (c ∷ cs) = elim (split_last cs) [
  | some (dir, base) ↦ some (c ∷ dir, base)
  | none ↦ if c == slash then some ([], cs) else none
]

abbrev pub or_root : List ℕ → List ℕ
or_root [] = slash ∷ []
or_root (c ∷ cs) = c ∷ cs

unfoldable pub dirname : List ℕ → List ℕ
dirname path = elim (split_last path) [ none ↦ path | some (dir, base) ↦ or_root dir ]

unfoldable pub basename : List ℕ → Name
basename path = elim (split_last path) [ none ↦ path | some (dir, base) ↦ base ]

-- The loop over the tokens.
unfoldable pub walk : Fs → ℕ → List Name → Option (Option ℕ)
walk fs ino [] = some (some ino)
walk fs ino (str ∷ tokens) =
    dir_find fs ino str >>= λ found. elim found [ none ↦ some none | some e ↦ walk fs e.ino tokens ]

-- The result is the inode for 0, and nothing for 1.
unfoldable pub get_node_by_path : Fs → List ℕ → ℕ → Option (Option Inode)
unfolding walk
get_node_by_path fs path ino =
    if same_name path (slash ∷ [])
    then (readi fs fs.root_dir_ino >>= λ i. some (some i))
    else (walk fs ino (strtok_tokens path) >>= λ found. elim found [
      | none ↦ some none
      | some n ↦ (readi fs n >>= λ i. some (some i))
    ])
