-- ===== src/Rufs/Tests/Files.antt =====
-- p4/code/rufs.c: the theorems on files, on a new file system whose inode 0 is made a file, which the
-- path "/" leads to. It ends where its last block starts, and has no blocks.
use mathlib.Core.Path.{subst}
use cs416_os.Prelude.{
  ℕ, ◌≤◌, ◌≡◌, ◌∙◌, refl, sym, ap, arith, some, List, [], ◌∷◌, take, ◌>>=◌, inl, inr,
}
use cs416_os.Prelude.Slices.{length-replicate, get_or-replicate}
use cs416_os.Rufs.Layout.{Inode, zero_inode, same_name, block_size, direct_ptrs}
use cs416_os.Rufs.Bitmap.{max_dnum}
use cs416_os.Rufs.Disk.{zeros, as_bytes, zero_bytes}
use cs416_os.Rufs.Inodes.{Fs, readi}
use cs416_os.Rufs.Inodes.Numbers.{is_taken}
use cs416_os.Rufs.Format.Inodes.{WritesInode, writei_lem}
use cs416_os.Rufs.Format.Count.{free_blocks, count_false-some}
use cs416_os.Rufs.Paths.{get_node_by_path, slash}
use cs416_os.Rufs.Files.{rufs_read}
use cs416_os.Rufs.Files.Ready.{IsByteBlock, IsReady}
use cs416_os.Rufs.Files.Writing.{WritesFile, rufs_write_lem, rufs_read-rufs_write}
use cs416_os.Rufs.Tests.{made}

abbrev sparse_file : Inode
sparse_file = record zero_inode { valid = 1; size = 61440; type = 2 }

abbrev stored : WritesInode made.after 0 sparse_file
stored = writei_lem made.after made.formatted 0 (omega arith) sparse_file

abbrev root_path : List ℕ
root_path = slash ∷ []

leads_root :
    (fs : Fs)
    → fs.root_dir_ino ≡ 0
    → get_node_by_path fs root_path fs.root_dir_ino ≡ (readi fs 0 >>= λ i. some (some i))
unfolding get_node_by_path same_name
leads_root fs e = ap (λ n. readi fs n >>= λ i. some (some i)) e

leads : get_node_by_path stored.after root_path stored.after.root_dir_ino ≡ some (some sparse_file)
leads =
    leads_root stored.after (stored.root ∙ made.root_dir_ino)
    ∙ ap (λ r. r >>= λ i. some (some i)) (stored.reads 0 (omega arith))

zeros-IsByteBlock : IsByteBlock zeros
unfolding as_bytes zero_bytes
zeros-IsByteBlock = record {
  buf = zero_bytes block_size;
  reads = refl;
  size = length-replicate {A = ℕ} block_size 0;
}

same_bitmap : stored.after.disk.content 2 ≡ made.after.disk.content 2
same_bitmap = stored.others 2 (inl (omega arith))

after-IsReady : IsReady stored.after sparse_file.direct_ptr
after-IsReady = record {
  formatted = stored.keeps;
  size = length-replicate {A = ℕ} direct_ptrs 0;
  blocks = λ i v. absurd (ground (arith, v, get_or-replicate {A = ℕ} direct_ptrs 0 i));
  distinct = λ i j ne v. absurd (ground (arith, v, get_or-replicate {A = ℕ} direct_ptrs 0 i));
  blank = λ q l u e.
      subst IsByteBlock
        (sym
          (stored.others q (inr l) ∙ made.blank q l (sym (ap (λ c. is_taken c q) same_bitmap) ∙ e)))
        zeros-IsByteBlock;
}

space : 1 ≤ free_blocks stored.after
space =
    count_false-some (is_taken (stored.after.disk.content 2)) max_dnum made.free_block made.in_range
      (ap (λ c. is_taken c made.free_block) same_bitmap ∙ made.is_free)

-- "abc"
abbrev abc : List ℕ
abc = 97 ∷ 98 ∷ 99 ∷ []

abbrev offset : ℕ
offset = 61440

rufs_write_lem_example : WritesFile 7 root_path abc offset stored.after sparse_file
rufs_write_lem_example =
    rufs_write_lem 7 root_path abc offset stored.after sparse_file leads (omega arith) after-IsReady
      (omega arith) space

abbrev done : WritesFile 7 root_path abc offset stored.after sparse_file
done =
    rufs_write_lem 7 root_path abc offset stored.after sparse_file leads (omega arith) after-IsReady
      (omega arith) space

three : done.count ≡ 3
three = done.how_many

rufs_read-rufs_write_example :
    (fs : Fs) × (rufs_read 9 root_path done.count offset done.after
      ≡ some (some (take done.count abc), fs))
rufs_read-rufs_write_example =
    rufs_read-rufs_write 7 9 root_path abc offset stored.after done.after sparse_file done.count
      leads (omega arith) after-IsReady (omega arith) space done.runs
      (leads_root done.after (done.root ∙ stored.root ∙ made.root_dir_ino)) (omega arith)
      (omega (arith, three)) (omega (arith, three))
