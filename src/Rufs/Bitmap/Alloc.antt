-- ===== src/Rufs/Bitmap/Alloc.antt =====
-- p4/code/rufs.c: what `get_avail_ino` and `get_avail_blkno` hand out.
use cs416_os.Prelude.{
  ℕ, zero, suc, ◌+◌, ◌*◌, ◌<◌, ◌≤◌, ◌==◌, ◌≡◌, true, false, List, Option, none, some, arith, length,
  if◌then◌else◌, refl, Bool-cases, inl, inr,
}
use mathlib.Core.Path.{subst}
use native.Mathlib.Decide.{ℕ_discrete}
use cs416_os.Prelude.BitArray.{IsBytes}
use cs416_os.Rufs.Bitmap.{get_bitmap, set_bitmap, first_clear, get_avail}
use cs416_os.Rufs.Bitmap.Laws.{get_bitmap-set_bitmap}

-- The search from `i` found the first number below `n` whose bit is not set, or there is none.
pub data Search (b : List ℕ) (i n : ℕ) (r : Option ℕ) : Type 0 where
  nowhere : ((q : ℕ) → i ≤ q → q < n → get_bitmap b q ≡ true) → r ≡ none → Search b i n r
  found :
      (p : ℕ)
      → i ≤ p
      → p < n
      → get_bitmap b p ≡ false
      → ((q : ℕ) → i ≤ q → q < p → get_bitmap b q ≡ true)
      → r ≡ some p
      → Search b i n r

before :
    (b : List ℕ) (i n : ℕ)
    → get_bitmap b i ≡ true
    → ((q : ℕ) → i + 1 ≤ q → q < n → get_bitmap b q ≡ true)
    → (q : ℕ) → i ≤ q
    → q < n
    → get_bitmap b q ≡ true
before b i n h all q l u = elim (ℕ_discrete i q) [
  | yes e ↦ subst (λ q. get_bitmap b q ≡ true) e h
  | no ne ↦ all q (omega arith) u
]

Search-step :
    (b : List ℕ) (i n : ℕ) (r : Option ℕ)
    → get_bitmap b i ≡ true
    → Search b (i + 1) n r
    → Search b i n r
Search-step b i n r h (nowhere all e) = nowhere (before b i n h all) e
Search-step b i n r h (found p l u c all e) = found p (omega arith) u c (before b i p h all) e

pub first_clear-Search : (b : List ℕ) (k i n : ℕ) → i + k ≡ n → Search b i n (first_clear b k i)
unfolding first_clear
first_clear-Search b zero i n e = nowhere (λ q l u. absurd (omega arith)) refl
first_clear-Search b (suc k) i n e = elim (Bool-cases (get_bitmap b i)) [
  | inl s ↦ rw s (Search-step b i n _ s (first_clear-Search b k (i + 1) n (omega arith)))
  | inr c ↦ rw c (found i (omega arith) (omega arith) c (λ q l u. absurd (omega arith)) refl)
]

-- What `get_avail` did: all numbers are taken and nothing changes, or it took the lowest number
-- that was free and left every other number as it was.
pub data Allocated (max : ℕ) (b : List ℕ) : Type 0 where
  full : ((q : ℕ) → q < max → get_bitmap b q ≡ true) → get_avail max b ≡ (none, b) → Allocated max b
  taken :
      (p : ℕ) (b' : List ℕ)
      → get_avail max b ≡ (some p, b')
      → p < max
      → get_bitmap b p ≡ false
      → ((q : ℕ) → q < p → get_bitmap b q ≡ true)
      → ((q : ℕ) → get_bitmap b' q ≡ (if p == q then true else get_bitmap b q))
      → Allocated max b

pub none_left : (max : ℕ) (b : List ℕ) → first_clear b max 0 ≡ none → get_avail max b ≡ (none, b)
unfolding get_avail
none_left max b e = rw (get_avail, e) refl

pub takes :
    (max : ℕ) (b : List ℕ) (p : ℕ)
    → first_clear b max 0 ≡ some p
    → get_avail max b ≡ (some p, set_bitmap b p)
unfolding get_avail
takes max b p e = rw (get_avail, e) refl

-- On a bitmap of bytes with at least as many bits as there are numbers, allocating an inode or
-- block number hands out the lowest free one, in range, and marks it and no other; if none is free
-- the result is -1 and nothing changes.
pub get_avail_lem : (max : ℕ) (b : List ℕ) → IsBytes b → max ≤ 8 * length b → Allocated max b
get_avail_lem max b bytes room = go (first_clear-Search b max 0 max (omega arith))
  where
    go : Search b 0 max (first_clear b max 0) → Allocated max b
    go (nowhere all e) = full (λ q u. all q (omega arith) u) (none_left max b e)
    go (found p l u c all e) =
        taken p (set_bitmap b p) (takes max b p e) u c (λ q u. all q (omega arith) u)
          (get_bitmap-set_bitmap b bytes p (omega arith))
