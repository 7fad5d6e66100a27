-- ===== src/Rufs/Setup/First.antt =====
-- p4/code/rufs.c: what `rufs_mkfs` takes on an empty disk file: the first inode number, and pointers
-- and blocks that are still free.
use native.Mathlib.Decide.{ℕ_discrete}
use cs416_os.Prelude.{
  true, ◌==◌, if◌then◌else◌, ℕ, zero, suc, ◌+◌, ◌<◌, ◌≤◌, ◌≡◌, ◌≢◌, refl, ◌∙◌, ap, arith, false,
  Option, none, some, replicate,
}
use cs416_os.Rufs.Layout.{Dirent}
use cs416_os.Rufs.Inodes.{Fs, get_avail_ino}
use cs416_os.Rufs.Inodes.Numbers.{is_taken}
use cs416_os.Rufs.Format.{WellFormed}
use cs416_os.Rufs.Format.Numbers.{TakesInode, no_inode_free, takes_inode}
use cs416_os.Rufs.Directory.Find.{first_in, first_step}

-- The first inode number is 0.
pub record FirstInode (fs : Fs) : Type 0 where
  pub after : Fs
  pub runs : get_avail_ino fs ≡ some (some 0, after)
  pub same : (n : ℕ) → n ≢ 1 → after.disk.content n ≡ fs.disk.content n
  pub keeps : WellFormed after
  pub law :
      (q : ℕ)
      → is_taken (after.disk.content 1) q
        ≡ (if 0 == q then true else is_taken (fs.disk.content 1) q)

pub first_inode : (fs : Fs) → TakesInode fs → is_taken (fs.disk.content 1) 0 ≡ false → FirstInode fs
first_inode fs (no_inode_free fs' e same all w') free = absurd (ground (arith, all 0 (omega arith)))
first_inode fs (takes_inode p fs' e u f lower law same w') free = elim (ℕ_discrete p 0) [
  | yes z ↦ record {
    after = fs';
    runs = e ∙ ap (λ x. some (some x, fs')) z;
    same = same;
    keeps = w';
    law = λ q. law q ∙ ap (λ x. if x == q then true else is_taken (fs.disk.content 1) q) z;
  }
  | no ne ↦ absurd (ground (arith, lower 0 (omega arith)))
]

pub first_in-unset : (f : ℕ → Option Dirent) (n : ℕ) → first_in f (replicate n 0) ≡ none
unfolding first_in first_step
first_in-unset f zero = refl
first_in-unset f (suc n) = first_in-unset f n

-- One of three numbers from `base` on that is neither of two.
pub neither : (base a b : ℕ) → (k : ℕ) × (base ≤ k) × (k < base + 3) × (k ≢ a) × (k ≢ b)
neither base a b = elim (ℕ_discrete base a) [
  | yes ea ↦ (elim (ℕ_discrete (base + 1) b) [
    | yes eb ↦ (base + 2, omega arith, omega arith, omega arith, omega arith)
    | no nb ↦ (base + 1, omega arith, omega arith, omega arith, nb)
  ])
  | no na ↦ (elim (ℕ_discrete base b) [
    | no nb ↦ (base, omega arith, omega arith, na, nb)
    | yes eb ↦ (elim (ℕ_discrete (base + 1) a) [
      | yes ea ↦ (base + 2, omega arith, omega arith, omega arith, omega arith)
      | no na' ↦ (base + 1, omega arith, omega arith, na', omega arith)
    ])
  ])
]
