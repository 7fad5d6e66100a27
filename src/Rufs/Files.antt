-- ===== src/Rufs/Files.antt =====
-- p4/code/rufs.c: `rufs_read` and `rufs_write`. Sizes and offsets are below 2^31, as `int` holds them.
-- `now` is the time.
pub mod Splice
pub mod Ready
pub mod Own
pub mod Part
pub mod RoundTrip
pub mod Writing
use cs416_os.Prelude.{
  ℕ, zero, suc, ◌+◌, ◌-◌, ◌/◌, ◌%◌, ◌^◌, ◌==◌, leb, ltb, Bool, true, false, if◌then◌else◌, Option,
  none, some, List, [], ◌∷◌, ◌++◌, get_or, set, take, drop, length, ◌>>=◌,
}
use cs416_os.Rufs.Layout.{Inode, invalid_mark, block_size, direct_ptrs}
use cs416_os.Rufs.Disk.{bio_read, bytes, as_bytes}
use cs416_os.Rufs.Inodes.{Fs, write_block, get_avail_blkno, block_number, writei}
use cs416_os.Rufs.Paths.{get_node_by_path}

-- What of `remaining` bytes fits in a block behind `buf_offset`.
abbrev pub in_block : ℕ → ℕ → ℕ
in_block buf_offset remaining =
    if leb remaining (block_size - buf_offset) then remaining else block_size - buf_offset

-- The loop of `rufs_read`, with `k` blocks left of the 16: whether it was left by `return`, and the
-- bytes read.
unfoldable pub read_blocks : ℕ → Fs → List ℕ → ℕ → ℕ → ℕ → Option (Bool × List ℕ)
read_blocks zero fs ptrs blk buf_offset remaining = some (false, [])
read_blocks (suc k) fs ptrs blk buf_offset zero = some (false, [])
read_blocks (suc k) fs ptrs blk buf_offset (suc more) =
    let remaining = suc more in
    let read_size = in_block buf_offset remaining in
    let rest = read_blocks k fs ptrs (blk + 1) 0 (remaining - read_size) in
    if get_or ptrs blk 0 == invalid_mark
    then some (true, [])
    else (as_bytes (bio_read fs.disk (get_or ptrs blk 0)).1 >>= λ buf.
        rest >>= λ r. some (r.0, take read_size (drop buf_offset buf) ++ r.1))

abbrev pub accessed : ℕ → Inode → Inode
accessed now i = record i { vstat = record i.vstat { st_atime = now } }

-- The result is the bytes, or -ENOENT.
unfoldable pub rufs_read : ℕ → List ℕ → ℕ → ℕ → Fs → Option (Option (List ℕ) × Fs)
unfolding read_blocks
rufs_read now path size offset fs = get_node_by_path fs path fs.root_dir_ino >>= λ found.
    elim found [
      | none ↦ some (none, fs)
      | some nodei ↦
          let readable = nodei.size - offset in
          let wanted = if ltb readable size then readable else size in
          let blk = offset / block_size in
          if leb nodei.size offset
          then some (some [], fs)
          else (read_blocks (direct_ptrs - blk) fs nodei.direct_ptr blk (offset % block_size) wanted
              >>= λ r.
                  if r.0
                  then some (some r.1, fs)
                  else (writei nodei.ino (accessed now nodei) fs >>= λ fs'. some (some r.1, fs')))
    ]

-- `memcpy(buf + buf_offset, ...)`
abbrev pub splice : List ℕ → ℕ → List ℕ → List ℕ
splice buf buf_offset part = take buf_offset buf ++ (part ++ drop (buf_offset + length part) buf)

-- The block of a pointer, newly taken if it has none.
unfoldable pub own_block : List ℕ → ℕ → Fs → Option (List ℕ × Fs)
own_block ptrs blk fs =
    if get_or ptrs blk 0 == invalid_mark
    then (get_avail_blkno fs >>= λ r. some (set ptrs blk (block_number r.0), r.1))
    else some (ptrs, fs)

-- The loop of `rufs_write`: what it does with one block, and the rounds. `remaining` is the bytes of
-- `buffer` behind `bytes_written`.
unfoldable pub write_part : List ℕ → ℕ → ℕ → List ℕ → Fs → Option (List ℕ × Fs)
unfolding own_block
write_part ptrs blk buf_offset part fs = own_block ptrs blk fs >>= λ r.
    let p = get_or r.0 blk 0 in
    as_bytes (bio_read r.1.disk p).1 >>= λ buf.
    some (r.0, write_block p (bytes (splice buf buf_offset part)) r.1)

unfoldable pub write_blocks : ℕ → List ℕ → ℕ → ℕ → List ℕ → Fs → Option (ℕ × List ℕ × Fs)
write_blocks zero ptrs blk buf_offset remaining fs = some (0, ptrs, fs)
write_blocks (suc k) ptrs blk buf_offset [] fs = some (0, ptrs, fs)
write_blocks (suc k) ptrs blk buf_offset (c ∷ cs) fs =
    let remaining = c ∷ cs in
    let write_size = in_block buf_offset (length remaining) in
    write_part ptrs blk buf_offset (take write_size remaining) fs >>= λ r.
    write_blocks k r.0 (blk + 1) 0 (drop write_size remaining) r.1 >>= λ s.
    some (write_size + s.0, s.1, s.2)

-- The file grows by what was written, wherever it was written.
abbrev pub written : ℕ → ℕ → List ℕ → Inode → Inode
written now n ptrs i = record i {
  size = (i.size + n) % 2 ^ 32;
  direct_ptr = ptrs;
  vstat = record i.vstat { st_size = i.vstat.st_size + n; st_atime = now; st_mtime = now };
}

-- The result is the number of bytes written, or -ENOENT.
unfoldable pub rufs_write : ℕ → List ℕ → List ℕ → ℕ → Fs → Option (Option ℕ × Fs)
unfolding write_blocks
rufs_write now path buffer offset fs = get_node_by_path fs path fs.root_dir_ino >>= λ found.
    elim found [
      | none ↦ some (none, fs)
      | some nodei ↦
          let blk = offset / block_size in
          (write_blocks (direct_ptrs - blk) nodei.direct_ptr blk (offset % block_size) buffer fs
            >>= λ r.
                writei nodei.ino (written now r.0 r.1 nodei) r.2 >>= λ fs'. some (some r.0, fs'))
    ]
