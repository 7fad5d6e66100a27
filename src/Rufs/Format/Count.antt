-- ===== src/Rufs/Format/Count.antt =====
-- p4/code/rufs.h: how many block numbers are free.
use native.Mathlib.Decide.{ℕ_discrete}
use cs416_os.Prelude.{
  ℕ, zero, suc, ◌+◌, ◌<◌, ◌≤◌, ◌==◌, ◌≡◌, refl, arith, Bool, true, false, if◌then◌else◌,
}
use cs416_os.Rufs.Bitmap.{max_dnum}
use cs416_os.Rufs.Inodes.{Fs}
use cs416_os.Rufs.Inodes.Numbers.{is_taken}

-- The numbers below a bound at which a test fails.
unfoldable pub count_false : (ℕ → Bool) → ℕ → ℕ
count_false f zero = 0
count_false f (suc n) = (if f n then 0 else 1) + count_false f n

abbrev pub free_blocks : Fs → ℕ
free_blocks fs = count_false (is_taken (fs.disk.content 2)) max_dnum

pub count_false-all : (f : ℕ → Bool) (n : ℕ) → ((q : ℕ) → q < n → f q ≡ true) → count_false f n ≡ 0
unfolding count_false
count_false-all f zero all = refl
count_false-all f (suc n) all =
    let later = count_false-all f n (λ q u. all q (omega arith)) in
    ground (arith, all n (omega arith), later)

pub count_false-some : (f : ℕ → Bool) (n q : ℕ) → q < n → f q ≡ false → 1 ≤ count_false f n
unfolding count_false
count_false-some f zero q u e = absurd (omega arith)
count_false-some f (suc n) q u e = elim (ℕ_discrete q n) [
  | yes x ↦ (let e' : f n ≡ false = rw (← x) e in ground (arith, e'))
  | no ne ↦ (let later = count_false-some f n q (omega arith) e in omega arith)
]

count_false-same :
    (f g : ℕ → Bool) (n : ℕ) → ((q : ℕ) → q < n → g q ≡ f q) → count_false g n ≡ count_false f n
unfolding count_false
count_false-same f g zero same = refl
count_false-same f g (suc n) same =
    rw (same n (omega arith), count_false-same f g n (λ q u. same q (omega arith))) refl

-- Taking one number leaves all other free ones.
pub count_false-taken :
    (f g : ℕ → Bool) (p n : ℕ)
    → ((q : ℕ) → g q ≡ (if p == q then true else f q))
    → count_false f n ≤ count_false g n + 1
unfolding count_false
count_false-taken f g p zero law = omega arith
count_false-taken f g p (suc n) law = elim (ℕ_discrete p n) [
  | yes x ↦
      (let same = count_false-same f g n (λ q u. ground (arith, law q)) in ground (arith, same))
  | no ne ↦
      (let same : g n ≡ f n = ground (arith, law n) in
        let later = count_false-taken f g p n law in ground (arith, same, later))
]
