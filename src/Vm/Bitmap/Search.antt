-- ===== src/Vm/Bitmap/Search.antt =====
-- p3/code/my_vm.c: what `first_available_position` finds.
use cs416_os.Prelude.{
  ℕ, zero, suc, ◌+◌, ◌-◌, ◌*◌, ◌/◌, ◌%◌, ◌<◌, ◌≤◌, ◌≡◌, true, false, List, arith, ◌⊎◌, inl, inr,
  Bool-cases, Bool, ◌∙◌, sym,
}
use mathlib.Core.Path.{subst}
use native.Mathlib.Decide.{ℕ_discrete, dec_lt}
use cs416_os.Prelude.Bytes.{test_bit}
use cs416_os.Vm.Bitmap.{
  no_position, byte_at, bit_set_at, lowest_unset_from, lowest_unset_bit, first_available_from,
  first_available_position,
}

-- The bits from `a` up to `b` are all set.
abbrev pub AllSet : (ℕ → Bool) → ℕ → ℕ → Type 0
AllSet set a b = (q : ℕ) → a ≤ q → q < b → set q ≡ true

-- `r` is the first position from `a` up to `b` whose bit is not set, or there is none.
abbrev pub IsFirst : (ℕ → Bool) → ℕ → ℕ → ℕ → Type 0
IsFirst set a b r =
    ((r ≡ no_position) × AllSet set a b) ⊎ ((a ≤ r) × (r < b) × (set r ≡ false) × AllSet set a r)

AllSet-step : (set : ℕ → Bool) (a b : ℕ) → set a ≡ true → AllSet set (a + 1) b → AllSet set a b
AllSet-step set a b h all q l u = elim (ℕ_discrete a q) [
  | yes e ↦ subst (λ q. set q ≡ true) e h
  | no ne ↦ all q (omega arith) u
]

lowest_unset_from-IsFirst :
    (c k pos : ℕ)
    → pos + k ≡ 8
    → IsFirst (λ j. test_bit c (7 - j)) pos 8 (lowest_unset_from k pos c)
unfolding lowest_unset_from
lowest_unset_from-IsFirst c zero pos e = inl (omega arith, λ q l u. absurd (omega arith))
lowest_unset_from-IsFirst c (suc k) pos e = elim (Bool-cases (test_bit c (7 - pos))) [
  | inl set ↦ rw set (go (lowest_unset_from-IsFirst c k (pos + 1) (omega arith)) set)
  | inr clear ↦ rw clear (inr (omega arith, omega arith, clear, λ q l u. absurd (omega arith)))
]
  where
    go :
        {r : ℕ}
        → IsFirst (λ j. test_bit c (7 - j)) (pos + 1) 8 r
        → test_bit c (7 - pos) ≡ true
        → IsFirst (λ j. test_bit c (7 - j)) pos 8 r
    go (inl (e, all)) h = inl (e, AllSet-step _ pos 8 h all)
    go (inr (l, u, f, all)) h = inr (omega arith, u, f, AllSet-step _ pos _ h all)

pub bit_set_at-byte :
    (bitmap : List ℕ) (i j : ℕ)
    → j < 8
    → bit_set_at bitmap (i * 8 + j) ≡ test_bit (byte_at bitmap i) (7 - j)
unfolding bit_set_at
bit_set_at-byte bitmap i j h =
    let d : (i * 8 + j) / 8 ≡ i = omega arith in
    let m : (i * 8 + j) % 8 ≡ j = omega arith in rw (d, m)

-- A byte with all bits set puts the search off to the next byte.
AllSet-byte :
    (bitmap : List ℕ) (i b : ℕ)
    → AllSet (λ j. test_bit (byte_at bitmap i) (7 - j)) 0 8
    → AllSet (bit_set_at bitmap) ((i + 1) * 8) b
    → AllSet (bit_set_at bitmap) (i * 8) b
AllSet-byte bitmap i b byte all q l u = elim (dec_lt q ((i + 1) * 8)) [
  | yes low ↦
      let e : i * 8 + (q - i * 8) ≡ q = omega arith in
      subst (λ q. bit_set_at bitmap q ≡ true) e
        (bit_set_at-byte bitmap i (q - i * 8) (omega arith)
          ∙ byte (q - i * 8) (omega arith) (omega arith))
  | no high ↦ all q (omega arith) u
]

AllSet-within :
    (bitmap : List ℕ) (i j : ℕ)
    → j < 8
    → AllSet (λ j. test_bit (byte_at bitmap i) (7 - j)) 0 j
    → AllSet (bit_set_at bitmap) (i * 8) (i * 8 + j)
AllSet-within bitmap i j h byte q l u =
    let e : i * 8 + (q - i * 8) ≡ q = omega arith in
    subst (λ q. bit_set_at bitmap q ≡ true) e
      (bit_set_at-byte bitmap i (q - i * 8) (omega arith)
        ∙ byte (q - i * 8) (omega arith) (omega arith))

available-full :
    (bitmap : List ℕ) (k i : ℕ)
    → lowest_unset_from 8 0 (byte_at bitmap i) ≡ no_position
    → first_available_from (suc k) i bitmap ≡ first_available_from k (i + 1) bitmap
unfolding first_available_from lowest_unset_bit
available-full bitmap k i e = ground arith

available-here :
    (bitmap : List ℕ) (k i : ℕ)
    → lowest_unset_from 8 0 (byte_at bitmap i) < 8
    → first_available_from (suc k) i bitmap ≡ i * 8 + lowest_unset_from 8 0 (byte_at bitmap i)
unfolding first_available_from lowest_unset_bit
available-here bitmap k i u = ground arith

first_available_from-IsFirst :
    (bitmap : List ℕ) (n k i : ℕ)
    → i + k ≡ n
    → IsFirst (bit_set_at bitmap) (i * 8) (n * 8) (first_available_from k i bitmap)
unfolding first_available_from
first_available_from-IsFirst bitmap n zero i e = inl (omega arith, λ q l u. absurd (omega arith))
first_available_from-IsFirst bitmap n (suc k) i e =
    go (lowest_unset_from-IsFirst (byte_at bitmap i) 8 0 (omega arith))
      (first_available_from-IsFirst bitmap n k (i + 1) (omega arith))
  where
    go :
        IsFirst
          (λ j. test_bit (byte_at bitmap i) (7 - j))
          0
          8
          (lowest_unset_from 8 0 (byte_at bitmap i))
        → IsFirst (bit_set_at bitmap) ((i + 1) * 8) (n * 8) (first_available_from k (i + 1) bitmap)
        → IsFirst (bit_set_at bitmap) (i * 8) (n * 8) (first_available_from (suc k) i bitmap)
    go (inl (full, byte)) rest =
        subst (IsFirst (bit_set_at bitmap) (i * 8) (n * 8)) (sym (available-full bitmap k i full))
          (later rest)
      where
        later :
            {r : ℕ}
            → IsFirst (bit_set_at bitmap) ((i + 1) * 8) (n * 8) r
            → IsFirst (bit_set_at bitmap) (i * 8) (n * 8) r
        later (inl (none, all)) = inl (none, AllSet-byte bitmap i (n * 8) byte all)
        later (inr (l, u, f, all)) = inr (omega arith, u, f, AllSet-byte bitmap i _ byte all)
    go (inr (l, u, f, all)) rest =
        subst (IsFirst (bit_set_at bitmap) (i * 8) (n * 8)) (sym (available-here bitmap k i u)) (
          inr (
            omega arith,
            omega arith,
            bit_set_at-byte bitmap i _ u ∙ f,
            AllSet-within bitmap i _ u all,
          ))

-- The search of a bitmap returns the lowest position whose bit is not set, or -1 if all bits of its
-- bytes are set.
pub first_available_position-IsFirst :
    (n : ℕ) (bitmap : List ℕ)
    → IsFirst (bit_set_at bitmap) 0 (n * 8) (first_available_position n bitmap)
unfolding first_available_position
first_available_position-IsFirst n bitmap = first_available_from-IsFirst bitmap n n 0 (omega arith)
