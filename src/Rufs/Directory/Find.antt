-- ===== src/Rufs/Directory/Find.antt =====
-- p4/code/rufs.c: the search of `dir_find`, as a search through the blocks of a directory.
use native.Mathlib.Decide.{ℕ_discrete}
use cs416_os.Prelude.{
  ℕ, zero, suc, ◌<◌, ◌≤◌, ◌≡◌, ◌≢◌, refl, ap, arith, Bool, true, false, Option, none, some, List,
  [], ◌∷◌, length, get_or, set, Bool-cases, inl, inr,
}
use cs416_os.Rufs.Layout.{Name, Inode, Dirent, dirents_in_block, direct_ptrs}
use cs416_os.Rufs.Bitmap.{max_inum, max_dnum}
use cs416_os.Rufs.Disk.{Block, as_dirents}
use cs416_os.Rufs.Disk.Laws.{bio_read-working}
use cs416_os.Rufs.Inodes.{Fs, readi}
use cs416_os.Rufs.Inodes.Numbers.{is_taken}
use cs416_os.Rufs.Format.{WellFormed}
use cs416_os.Rufs.Directory.{is_valid, find_entry, find_entry_in, dir_find}

-- A whole block of entries.
pub record IsEntryBlock (b : Block) : Type 0 where
  pub entries : List Dirent
  pub reads : as_dirents b ≡ some entries
  pub size : length entries ≡ dirents_in_block

-- A block of a directory: a data block that is taken, with entries.
pub record HasEntries (fs : Fs) (p : ℕ) : Type 0 where
  pub data_block : 67 ≤ p
  pub number : p < max_dnum
  pub taken : is_taken (fs.disk.content 2) p ≡ true
  pub block : IsEntryBlock (fs.disk.content p)

-- Every pointer that is set is to such a block.
abbrev pub AllHaveEntries : Fs → List ℕ → Type 0
AllHaveEntries fs ptrs =
    (i : ℕ) → is_valid (get_or ptrs i 0) ≡ true → HasEntries fs (get_or ptrs i 0)

-- The inode that is stored under its number is a valid directory's.
pub record IsDirectory (fs : Fs) (dir : Inode) : Type 0 where
  pub number : dir.ino < max_inum
  pub stored : readi fs dir.ino ≡ some dir
  pub valid : is_valid dir.valid ≡ true
  pub size : length dir.direct_ptr ≡ direct_ptrs
  pub blocks : AllHaveEntries fs dir.direct_ptr

-- The entry of a block with the name.
unfoldable pub entry_at : Fs → Name → ℕ → Option Dirent
entry_at fs fname p = elim (as_dirents (fs.disk.content p)) [
  | none ↦ none
  | some es ↦ find_entry fname es
]

pub entry_at-reads :
    (fs : Fs) (fname : Name) (p : ℕ) (es : List Dirent)
    → as_dirents (fs.disk.content p) ≡ some es
    → entry_at fs fname p ≡ find_entry fname es
unfolding entry_at
entry_at-reads fs fname p es e = rw (entry_at, e) refl

pub entry_at-same :
    (fs fs' : Fs) (fname : Name) (p : ℕ)
    → fs'.disk.content p ≡ fs.disk.content p
    → entry_at fs' fname p ≡ entry_at fs fname p
unfolding entry_at
entry_at-same fs fs' fname p e =
    ap
      (λ b. elim (as_dirents b) as (λ _. Option Dirent) [
        | none ↦ none
        | some es ↦ find_entry fname es
      ])
      e

-- A search that found `o` at a pointer that is set or not, and later `r`.
unfoldable pub first_step : Bool → Option Dirent → Option Dirent → Option Dirent
first_step false o r = r
first_step true none r = r
first_step true (some e) r = some e

through :
    (b : Bool) (o r : Option Dirent)
    → first_step b o r ≡ none
    → (r ≡ none) × ((r' : Option Dirent) → first_step b o r' ≡ r')
unfolding first_step
through false o r e = (e, λ r'. refl)
through true none r e = (e, λ r'. refl)
through true (some x) r e = cc

-- The first that a search finds at a pointer that is set.
unfoldable pub first_in : (ℕ → Option Dirent) → List ℕ → Option Dirent
first_in f [] = none
first_in f (p ∷ ptrs) = first_step (is_valid p) (f p) (first_in f ptrs)

found_or_later :
    (o : Option Dirent) (later : Option (Option Dirent)) (r : Option Dirent)
    → later ≡ some r
    → (elim o as (λ _. Option (Option Dirent)) [ some e ↦ some (some e) | none ↦ later ])
      ≡ some (first_step true o r)
unfolding first_step
found_or_later none later r e = e
found_or_later (some x) later r e = refl

pub find_entry_in-first :
    (fs : Fs) (fname : Name) (ptrs : List ℕ)
    → WellFormed fs
    → AllHaveEntries fs ptrs
    → find_entry_in is_valid fs fname ptrs ≡ some (first_in (entry_at fs fname) ptrs)
unfolding find_entry_in first_in first_step
find_entry_in-first fs fname [] w all = refl
find_entry_in-first fs fname (p ∷ ptrs) w all =
    let later = find_entry_in-first fs fname ptrs w (λ i. all (suc i)) in
    elim (Bool-cases (is_valid p)) [
      | inr e ↦ rw e later
      | inl e ↦
          let h = all 0 e in
          rw
            (
              e,
              bio_read-working fs.disk p (omega (arith, h.number)) (w.inodes.works p h.number),
              h.block.reads,
              entry_at-reads fs fname p h.block.entries h.block.reads,
            )
            (found_or_later (find_entry fname h.block.entries) _ _ later)
    ]

-- On a formatted disk, `dir_find` in a directory finds what its blocks hold.
pub dir_find-first :
    (fs : Fs) (dir : Inode) (fname : Name)
    → WellFormed fs
    → IsDirectory fs dir
    → dir_find fs dir.ino fname ≡ some (first_in (entry_at fs fname) dir.direct_ptr)
unfolding dir_find
dir_find-first fs dir fname w d =
    rw (d.stored, d.valid) (find_entry_in-first fs fname dir.direct_ptr w d.blocks)

-- Searches through pointers.
pub first_in-same :
    (f g : ℕ → Option Dirent) (ptrs : List ℕ)
    → ((i : ℕ) → is_valid (get_or ptrs i 0) ≡ true → f (get_or ptrs i 0) ≡ g (get_or ptrs i 0))
    → first_in f ptrs ≡ first_in g ptrs
unfolding first_in first_step
first_in-same f g [] same = refl
first_in-same f g (p ∷ ptrs) same =
    let later = first_in-same f g ptrs (λ i. same (suc i)) in
    elim (Bool-cases (is_valid p)) [
      | inl e ↦ rw (e, same 0 e, later) refl
      | inr e ↦ rw (e, later) refl
    ]

-- A block that had nothing has the entry now.
pub first_in-found :
    (f g : ℕ → Option Dirent) (ptrs : List ℕ) (i q : ℕ) (e : Dirent)
    → first_in f ptrs ≡ none
    → ((p : ℕ) → p ≢ q → f p ≡ g p)
    → g q ≡ some e
    → i < length ptrs
    → get_or ptrs i 0 ≡ q
    → is_valid q ≡ true
    → first_in g ptrs ≡ some e
unfolding first_in first_step
first_in-found f g [] i q e absent same new u at v = absurd (omega arith)
first_in-found f g (p ∷ ptrs) zero q e absent same new u at v = rw (at, v, new) refl
first_in-found f g (p ∷ ptrs) (suc i) q e absent same new u at v =
    let t = through (is_valid p) (f p) (first_in f ptrs) absent in
    let later = first_in-found f g ptrs i q e t.0 same new (omega arith) at v in
    elim (ℕ_discrete p q) [
      | yes here ↦ rw (here, v, new) refl
      | no ne ↦ rw (← same p ne, t.1 (first_in g ptrs)) later
    ]

-- A pointer that was not set leads to a block without the name.
pub first_in-set :
    (g : ℕ → Option Dirent) (ptrs : List ℕ) (i q : ℕ)
    → is_valid (get_or ptrs i 0) ≡ false
    → g q ≡ none
    → first_in g (set ptrs i q) ≡ first_in g ptrs
unfolding first_in first_step
first_in-set g [] i q skip n = refl
first_in-set g (p ∷ ptrs) zero q skip n = elim (Bool-cases (is_valid q)) [
  | inl e ↦ rw (e, skip, n) refl
  | inr e ↦ rw (e, skip) refl
]
first_in-set g (p ∷ ptrs) (suc i) q skip n = rw (first_in-set g ptrs i q skip n) refl

-- Nothing found, nothing there.
pub first_in-none :
    (f : ℕ → Option Dirent) (ptrs : List ℕ) (i : ℕ)
    → first_in f ptrs ≡ none
    → is_valid (get_or ptrs i 0) ≡ true
    → f (get_or ptrs i 0) ≡ none
unfolding first_in first_step
first_in-none f [] i absent v = absurd (ground arith)
first_in-none f (p ∷ ptrs) zero absent v = ground (arith, absent, v)
first_in-none f (p ∷ ptrs) (suc i) absent v =
    first_in-none f ptrs i (through (is_valid p) (f p) (first_in f ptrs) absent).0 v
