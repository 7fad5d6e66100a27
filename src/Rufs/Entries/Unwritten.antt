-- ===== src/Rufs/Entries/Unwritten.antt =====
-- p4/code/rufs.c: the operations that were left unwritten. They say that they succeeded and change
-- nothing.
use cs416_os.Prelude.{ℕ, List}
use cs416_os.Rufs.Layout.{Name, Inode}
use cs416_os.Rufs.Inodes.{Fs}
use cs416_os.Rufs.Entries.{Status, success}

unfoldable dir_remove : Inode → Name → Fs → Status × Fs
dir_remove dir_inode fname fs = (success, fs)

unfoldable rufs_rmdir : List ℕ → Fs → Status × Fs
rufs_rmdir path fs = (success, fs)

unfoldable rufs_releasedir : List ℕ → Fs → Status × Fs
rufs_releasedir path fs = (success, fs)

unfoldable rufs_unlink : List ℕ → Fs → Status × Fs
rufs_unlink path fs = (success, fs)

unfoldable rufs_truncate : List ℕ → ℕ → Fs → Status × Fs
rufs_truncate path size fs = (success, fs)

unfoldable rufs_release : List ℕ → Fs → Status × Fs
rufs_release path fs = (success, fs)

unfoldable rufs_flush : List ℕ → Fs → Status × Fs
rufs_flush path fs = (success, fs)

unfoldable rufs_utimens : List ℕ → ℕ → ℕ → Fs → Status × Fs
rufs_utimens path atime mtime fs = (success, fs)
