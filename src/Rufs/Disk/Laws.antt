-- ===== src/Rufs/Disk/Laws.antt =====
-- p4/code/block.c: reads and writes at block numbers that work.
use cs416_os.Prelude.{ℕ, ◌<◌, ◌^◌, ◌==◌, ◌≡◌, refl, arith, true, false, if◌then◌else◌}
use cs416_os.Rufs.Disk.{Disk, Block, fails, bio_read, bio_write, no_block}

-- The disk after a write.
abbrev pub put : Disk → ℕ → Block → Disk
put d n b = record d { content = λ k. if n == k then b else d.content k }

module _ (d : Disk) (n : ℕ) (small : n < 2 ^ 31) (works : d.broken n ≡ false) where
  fails-working : fails d n ≡ false
  unfolding fails
  fails-working = ground arith

  pub bio_read-working : bio_read d n ≡ (true, d.content n)
  unfolding bio_read
  bio_read-working = rw fails-working refl

  pub bio_write-working : (b : Block) → bio_write d n b ≡ (true, put d n b)
  unfolding bio_write
  bio_write-working b = rw fails-working refl

pub bio_write-no_block : (d : Disk) (b : Block) → bio_write d no_block b ≡ (false, d)
unfolding bio_write fails
bio_write-no_block d b = refl

pub bio_read-no_block : (d : Disk) → (bio_read d no_block).0 ≡ false
unfolding bio_read fails
bio_read-no_block d = refl
