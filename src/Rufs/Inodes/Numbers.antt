-- ===== src/Rufs/Inodes/Numbers.antt =====
-- p4/code/rufs.c: `get_avail_ino` and `get_avail_blkno` with their bitmap blocks.
use cs416_os.Prelude.{
  ℕ, ◌*◌, ◌/◌, ◌%◌, ◌<◌, ◌≤◌, ◌^◌, ◌==◌, ◌≡◌, refl, sym, ◌∙◌, ap, arith, Bool, true, false,
  if◌then◌else◌, none, some, List, ◌++◌, length, get_or, take, drop,
}
use cs416_os.Prelude.BitArray.{IsBytes}
use cs416_os.Prelude.Bytes.{raise_bit}
use cs416_os.Prelude.Slices.{get_or-take, set-append, take-append-drop, length-take}
use cs416_os.Rufs.Layout.{block_size}
use cs416_os.Rufs.Bitmap.{get_bitmap, set_bitmap, get_avail, first_clear}
use cs416_os.Rufs.Bitmap.Laws.{get_bitmap-set_bitmap, set_bitmap-IsBytes, length-set_bitmap}
use cs416_os.Rufs.Bitmap.Alloc.{Search, nowhere, found, first_clear-Search, none_left, takes}
use cs416_os.Rufs.Disk.{Disk, Block, bytes, as_bytes}
use cs416_os.Rufs.Disk.Laws.{put, bio_read-working, bio_write-working}
use cs416_os.Rufs.Inodes.{take_number, write_back}

-- Whether the number `q` is taken in a block with a bitmap.
abbrev pub is_taken : Block → ℕ → Bool
is_taken b q = elim (as_bytes b) [ none ↦ false | some bits ↦ get_bitmap bits q ]

-- A whole block of bytes.
pub record IsBitmapBlock (b : Block) : Type 0 where
  pub bits : List ℕ
  pub reads : as_bytes b ≡ some bits
  pub all_bytes : IsBytes bits
  pub size : length bits ≡ block_size

pub is_taken-bits : (b : Block) (i : IsBitmapBlock b) (q : ℕ) → is_taken b q ≡ get_bitmap i.bits q
is_taken-bits b i q = rw (is_taken, i.reads) refl

-- Bits in the first `size` bytes of a buffer.
module _ (buf : List ℕ) (size : ℕ) (room : size ≤ length buf) where
  get_bitmap-take : (q : ℕ) → q < 8 * size → get_bitmap (take size buf) q ≡ get_bitmap buf q
  unfolding get_bitmap
  get_bitmap-take q h = rw (get_or-take size buf (q / 8) 0 (omega arith)) refl

  set_bitmap-take :
      (q : ℕ) → q < 8 * size → set_bitmap (take size buf) q ++ drop size buf ≡ set_bitmap buf q
  unfolding set_bitmap
  set_bitmap-take q h =
      let inside : q / 8 < length (take size buf) = omega (arith, length-take size buf room) in
      let same = get_or-take size buf (q / 8) 0 (omega arith) in
      rw
        (
          ← set-append (take size buf) (drop size buf) (q / 8)
              (raise_bit (get_or (take size buf) (q / 8) 0) (q % 8)) inside,
          same,
          take-append-drop size buf,
        )
        refl

-- What taking a number does: all are taken and the disk stays as it is, or the lowest that is free
-- is taken in the bitmap's block and nothing else changes.
pub data TakesNumber (d : Disk) (blk max size : ℕ) : Type 0 where
  none_free :
      (bits : List ℕ)
      → ((q : ℕ) → q < max → is_taken (d.content blk) q ≡ true)
      → take_number d blk max size ≡ some (none, bits, d)
      → TakesNumber d blk max size
  takes_number :
      (p : ℕ) (bits : List ℕ) (b : Block)
      → take_number d blk max size ≡ some (some p, bits, put d blk b)
      → p < max
      → is_taken (d.content blk) p ≡ false
      → ((q : ℕ) → q < p → is_taken (d.content blk) q ≡ true)
      → ((q : ℕ) → is_taken b q ≡ (if p == q then true else is_taken (d.content blk) q))
      → IsBitmapBlock b
      → TakesNumber d blk max size

module _ (d : Disk) (blk : ℕ) (small : blk < 2 ^ 31) (works : d.broken blk ≡ false)
    (i : IsBitmapBlock (d.content blk)) (max size : ℕ) (fits : size ≤ block_size)
    (numbers : max ≡ 8 * size) where
  take_number-reads :
      take_number d blk max size
      ≡ write_back d blk (drop size i.bits) (get_avail max (take size i.bits))
  unfolding take_number
  take_number-reads = rw (bio_read-working d blk small works, i.reads) refl

  take_number-none :
      first_clear (take size i.bits) max 0 ≡ none
      → take_number d blk max size ≡ some (none, take size i.bits, d)
  unfolding write_back
  take_number-none e = rw (take_number-reads, none_left max (take size i.bits) e) refl

  take_number-some :
      (p : ℕ)
      → p < max
      → first_clear (take size i.bits) max 0 ≡ some p
      → take_number d blk max size
        ≡ some (some p, set_bitmap (take size i.bits) p, put d blk (bytes (set_bitmap i.bits p)))
  unfolding write_back
  take_number-some p u e =
      let room : size ≤ length i.bits = omega (arith, i.size) in
      rw (take_number-reads, takes max (take size i.bits) p e)
        (rw (set_bitmap-take i.bits size room p (omega arith))
          (rw (bio_write-working d blk small works (bytes (set_bitmap i.bits p))) refl))

  pub take_number_lem : TakesNumber d blk max size
  unfolding as_bytes
  take_number_lem = go (first_clear-Search (take size i.bits) max 0 max (omega arith))
    where
      room : size ≤ length i.bits
      room = omega (arith, i.size)

      bit : (q : ℕ) → q < max → get_bitmap (take size i.bits) q ≡ is_taken (d.content blk) q
      bit q u =
          get_bitmap-take i.bits size room q (omega arith) ∙ sym (is_taken-bits (d.content blk) i q)

      go :
          Search (take size i.bits) 0 max (first_clear (take size i.bits) max 0)
          → TakesNumber d blk max size
      go (nowhere all e) =
          none_free (take size i.bits) (λ q u. sym (bit q u) ∙ all q (omega arith) u)
            (take_number-none e)
      go (found p l u c all e) =
          let inside : p < 8 * length i.bits = omega arith in
          takes_number p (set_bitmap (take size i.bits) p) (bytes (set_bitmap i.bits p))
            (take_number-some p u e) u (sym (bit p u) ∙ c)
            (λ q h. sym (bit q (omega arith)) ∙ all q (omega arith) h)
            (λ q.
              get_bitmap-set_bitmap i.bits i.all_bytes p inside q
              ∙ ap (λ t. if p == q then true else t) (sym (is_taken-bits (d.content blk) i q)))
            (record {
              bits = set_bitmap i.bits p;
              reads = refl;
              all_bytes = set_bitmap-IsBytes i.bits i.all_bytes p inside;
              size = length-set_bitmap i.bits p ∙ i.size;
            })
