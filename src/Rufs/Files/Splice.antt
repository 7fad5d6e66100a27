-- ===== src/Rufs/Files/Splice.antt =====
-- p4/code/rufs.c: the two copies of `rufs_read` and `rufs_write`, from and into a block's buffer.
use cs416_os.Prelude.{
  ℕ, zero, suc, ◌+◌, ◌-◌, ◌≤◌, ◌≡◌, refl, sym, ◌∙◌, ap, arith, List, [], ◌∷◌, ◌++◌, length, take,
  drop, length-append,
}
use mathlib.Core.Path.{subst}
use cs416_os.Prelude.Slices.{length-take, length-drop, take-append, drop-append}
use cs416_os.Rufs.Layout.{block_size}
use cs416_os.Rufs.Files.{splice, in_block}

-- The part is read back from where it was put, and the length stays.
pub read-splice :
    (buf part : List ℕ) (off : ℕ)
    → off ≤ length buf
    → take (length part) (drop off (splice buf off part)) ≡ part
read-splice buf part off h =
    let e : drop off (splice buf off part) ≡ part ++ drop (off + length part) buf =
      subst (λ n. drop n (splice buf off part) ≡ part ++ drop (off + length part) buf)
        (length-take off buf h)
        (drop-append (take off buf) (part ++ drop (off + length part) buf)) in
    rw e (take-append part (drop (off + length part) buf))

pub length-splice :
    (buf part : List ℕ) (off : ℕ)
    → off + length part ≤ length buf
    → length (splice buf off part) ≡ length buf
length-splice buf part off h = omega (
  arith,
  length-append (take off buf) (part ++ drop (off + length part) buf),
  length-append part (drop (off + length part) buf),
  length-take off buf (omega arith),
  length-drop (off + length part) buf,
)

-- How much goes into the block: all that is left, or the rest of the block.
pub in_block-all : (off n : ℕ) → n ≤ block_size - off → in_block off n ≡ n
in_block-all off n h = ground arith

pub in_block-rest : (off n : ℕ) → block_size - off ≤ n → in_block off n ≡ block_size - off
in_block-rest off n h = ground arith

pub in_block_bounds : (off n : ℕ) → (in_block off n ≤ n) × (in_block off n ≤ block_size - off)
in_block_bounds off n = (ground arith, ground arith)

take-nil : (n : ℕ) → take {A = ℕ} n [] ≡ []
take-nil zero = refl
take-nil (suc n) = refl

pub take-split : (m n : ℕ) (xs : List ℕ) → take m xs ++ take n (drop m xs) ≡ take (m + n) xs
take-split zero n xs = ap (λ k. take k xs) (omega arith)
take-split (suc m) n [] = take-nil n ∙ sym (take-nil (suc m + n))
take-split (suc m) n (x ∷ xs) =
    let e : suc (m + n) ≡ suc m + n = omega arith in
    ap (λ l. x ∷ l) (take-split m n xs) ∙ ap (λ k. take k (x ∷ xs)) e
