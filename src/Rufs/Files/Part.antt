-- ===== src/Rufs/Files/Part.antt =====
-- p4/code/rufs.c: one round of the loop of `rufs_write`.
use mathlib.Core.Path.{subst}
use cs416_os.Prelude.{
  ℕ, ◌+◌, ◌<◌, ◌≤◌, ◌≡◌, ◌≢◌, refl, sym, ◌∙◌, ap, arith, true, some, List, length, get_or,
}
use cs416_os.Rufs.Layout.{direct_ptrs, block_size}
use cs416_os.Rufs.Bitmap.{max_dnum}
use cs416_os.Rufs.Disk.{bytes, as_bytes}
use cs416_os.Rufs.Disk.Laws.{bio_read-working}
use cs416_os.Rufs.Inodes.{Fs}
use cs416_os.Rufs.Inodes.Numbers.{is_taken}
use cs416_os.Rufs.Format.{
  WellFormed-put, data-Fits, put_block, write_block-working, written_or_old, content-put,
}
use cs416_os.Rufs.Format.Count.{free_blocks, count_false}
use cs416_os.Rufs.Directory.{is_valid}
use cs416_os.Rufs.Files.{write_part, splice}
use cs416_os.Rufs.Files.Own.{OwnsBlock, own_block_lem}
use cs416_os.Rufs.Files.Ready.{IsByteBlock, HasBytes, IsReady}
use cs416_os.Rufs.Files.Splice.{length-splice}

-- Bytes written to a block that is taken.
module _ (fs : Fs) (ptrs : List ℕ) (r : IsReady fs ptrs) (p : ℕ) (h : HasBytes fs p) (buf : List ℕ)
    (size : length buf ≡ block_size) where
  abbrev put_fs : Fs
  put_fs = put_block p (bytes buf) fs

  bytes-IsByteBlock : IsByteBlock (bytes buf)
  unfolding as_bytes
  bytes-IsByteBlock = record { buf = buf; reads = refl; size = size }

  put_bitmap : put_fs.disk.content 2 ≡ fs.disk.content 2
  put_bitmap = content-put fs.disk p 2 (bytes buf) (λ e. omega (arith, e, h.data_block))

  put_same : (n : ℕ) → is_taken (put_fs.disk.content 2) n ≡ is_taken (fs.disk.content 2) n
  put_same n = ap (λ c. is_taken c n) put_bitmap

  put-IsByteBlock : (n : ℕ) → IsByteBlock (fs.disk.content n) → IsByteBlock (put_fs.disk.content n)
  put-IsByteBlock n b =
      written_or_old IsByteBlock p n (bytes buf) (fs.disk.content n) (λ _. bytes-IsByteBlock)
        (λ _. b)

  put-IsReady : IsReady put_fs ptrs
  put-IsReady = record {
    formatted = WellFormed-put fs p (bytes buf) r.formatted (data-Fits p (bytes buf) h.data_block);
    size = r.size;
    blocks = λ i v.
        let b = r.blocks i v in
        record {
          data_block = b.data_block;
          number = b.number;
          taken = put_same (get_or ptrs i 0) ∙ b.taken;
          block = put-IsByteBlock (get_or ptrs i 0) b.block;
        };
    distinct = r.distinct;
    blank = λ q g b e. put-IsByteBlock q (r.blank q g b (sym (put_same q) ∙ e));
  }

  put_content : as_bytes (put_fs.disk.content p) ≡ some buf
  unfolding as_bytes
  put_content =
      written_or_old (λ c. as_bytes c ≡ some buf) p p (bytes buf) _ (λ _. refl)
        (λ ne. absurd (ne refl))

-- What one round does: the pointer has a block, the part stands in it, and no other block of data
-- changes.
pub record WritesPart (ptrs : List ℕ) (blk off : ℕ) (part : List ℕ) (fs : Fs) : Type 0 where
  pub ptrs' : List ℕ
  pub after : Fs
  pub runs : write_part ptrs blk off part fs ≡ some (ptrs', after)
  pub ready : IsReady after ptrs'
  pub is_set : is_valid (get_or ptrs' blk 0) ≡ true
  pub others : (i : ℕ) → i ≢ blk → get_or ptrs' i 0 ≡ get_or ptrs i 0
  pub buf : List ℕ
  pub size : length buf ≡ block_size
  pub content : as_bytes (after.disk.content (get_or ptrs' blk 0)) ≡ some (splice buf off part)
  pub same : (n : ℕ) → 67 ≤ n → n ≢ get_or ptrs' blk 0 → after.disk.content n ≡ fs.disk.content n
  pub taken :
      (n : ℕ) → is_taken (fs.disk.content 2) n ≡ true → is_taken (after.disk.content 2) n ≡ true
  pub fresh :
      (c : ℕ)
      → is_taken (fs.disk.content 2) c ≡ true
      → get_or ptrs blk 0 ≢ c
      → get_or ptrs' blk 0 ≢ c
  pub free : free_blocks fs ≤ free_blocks after + 1
  pub root : after.root_dir_ino ≡ fs.root_dir_ino

module _ (ptrs : List ℕ) (blk off : ℕ) (part : List ℕ) (fs : Fs) (r : IsReady fs ptrs)
    (u : blk < direct_ptrs) (f : 1 ≤ free_blocks fs) (fits : off + length part ≤ block_size) where
  abbrev owned : OwnsBlock ptrs blk fs
  owned = own_block_lem ptrs blk fs r u f

  abbrev p : ℕ
  p = get_or owned.ptrs' blk 0

  abbrev has : HasBytes owned.after p
  has = owned.ready.blocks blk owned.is_set

  abbrev new_buf : List ℕ
  new_buf = splice has.block.buf off part

  new_size : length new_buf ≡ block_size
  new_size = length-splice has.block.buf part off (omega (arith, has.block.size)) ∙ has.block.size

  write_part-runs :
      write_part ptrs blk off part fs ≡ some (owned.ptrs', put_block p (bytes new_buf) owned.after)
  unfolding write_part
  write_part-runs = rw owned.runs (
      rw
        (
          bio_read-working owned.after.disk p (omega (arith, has.number))
              (owned.ready.formatted.inodes.works p has.number),
          has.block.reads,
        )
        (ap (λ x. some (owned.ptrs', x))
          (write_block-working owned.after p (bytes new_buf) has.number
            (owned.ready.formatted.inodes.works p has.number))))

  pub write_part_lem : WritesPart ptrs blk off part fs
  write_part_lem = record {
    ptrs' = owned.ptrs';
    after = put_block p (bytes new_buf) owned.after;
    runs = write_part-runs;
    ready = put-IsReady owned.after owned.ptrs' owned.ready p has new_buf new_size;
    is_set = owned.is_set;
    others = owned.others;
    buf = has.block.buf;
    size = has.block.size;
    content = put_content owned.after owned.ptrs' owned.ready p has new_buf new_size;
    same = λ n g ne.
        content-put owned.after.disk p n (bytes new_buf) (λ e. ne (sym e))
        ∙ owned.same n (λ e. omega (arith, e, g));
    taken = λ n e.
        put_same owned.after owned.ptrs' owned.ready p has new_buf new_size n ∙ owned.taken n e;
    fresh = owned.fresh;
    free =
        subst (λ c. free_blocks fs ≤ count_false (is_taken c) max_dnum + 1)
          (sym (put_bitmap owned.after owned.ptrs' owned.ready p has new_buf new_size)) owned.free;
    root = owned.root;
  }
