-- ===== src/Prelude/BitArray.antt =====
-- Single bits of arrays of bytes, which the three bitmaps of the sources number in their own ways:
-- bit `k` of byte `d`.
use mathlib.Core.Path.{◌≡◌}
use mathlib.Core.Bool.{true, false, ◌&&◌}
use mathlib.Core.List.{List, [], ◌∷◌}
use native.Mathlib.Decide.{ℕ_discrete}
use native.Mathlib.Omega.{arith}
use Prim.Native.Nat.{ℕ, zero, suc, ◌<◌}
use cs416_os.Prelude.Tests.{◌==◌, if◌then◌else◌}
use cs416_os.Prelude.Lists.{length, get_or, set, All, get_or-set_self, get_or-set_ne}
use cs416_os.Prelude.Bytes.{
  test_bit, raise_bit, clear_bit, test_bit-raise_bit, test_bit-clear_bit, byte_range,
}

-- Every item of the array is a byte.
abbrev pub IsBytes : List ℕ → Type 0
IsBytes = All (λ c. c < 256)

pub get_or-lt : (bs : List ℕ) (i : ℕ) → IsBytes bs → get_or bs i 0 < 256
get_or-lt [] i b = omega arith
get_or-lt (c ∷ cs) zero b = b.0
get_or-lt (c ∷ cs) (suc i) b = get_or-lt cs i b.1

pub set-IsBytes : (bs : List ℕ) (i v : ℕ) → IsBytes bs → v < 256 → IsBytes (set bs i v)
set-IsBytes [] i v b h = tt
set-IsBytes (c ∷ cs) zero v b h = (h, b.1)
set-IsBytes (c ∷ cs) (suc i) v b h = (b.0, set-IsBytes cs i v b.1 h)

module _ (bs : List ℕ) (bytes : IsBytes bs) (d k : ℕ) (hd : d < length bs) (hk : k < 8) where
  pub test-raise :
      (e j : ℕ)
      → j < 8
      → test_bit (get_or (set bs d (raise_bit (get_or bs d 0) k)) e 0) j
        ≡ (if d == e && k == j then true else test_bit (get_or bs e 0) j)
  test-raise e j hj = elim (ℕ_discrete d e) [
    | yes same ↦
        rw (← same, get_or-set_self bs d (raise_bit (get_or bs d 0) k) 0 hd)
          (ground (arith, test_bit-raise_bit (get_or bs d 0) k j (get_or-lt bs d bytes) hk hj))
    | no other ↦
        rw (get_or-set_ne bs {i = d} {j = e} (raise_bit (get_or bs d 0) k) 0 other) (ground arith)
  ]

  pub test-clear :
      (e j : ℕ)
      → j < 8
      → test_bit (get_or (set bs d (clear_bit (get_or bs d 0) k)) e 0) j
        ≡ (if d == e && k == j then false else test_bit (get_or bs e 0) j)
  test-clear e j hj = elim (ℕ_discrete d e) [
    | yes same ↦
        rw (← same, get_or-set_self bs d (clear_bit (get_or bs d 0) k) 0 hd)
          (ground (arith, test_bit-clear_bit (get_or bs d 0) k j (get_or-lt bs d bytes) hk hj))
    | no other ↦
        rw (get_or-set_ne bs {i = d} {j = e} (clear_bit (get_or bs d 0) k) 0 other) (ground arith)
  ]

  pub raise-IsBytes : IsBytes (set bs d (raise_bit (get_or bs d 0) k))
  raise-IsBytes =
      set-IsBytes bs d _ bytes (byte_range (get_or bs d 0) k (get_or-lt bs d bytes) hk).0

  pub clear-IsBytes : IsBytes (set bs d (clear_bit (get_or bs d 0) k))
  clear-IsBytes =
      set-IsBytes bs d _ bytes (byte_range (get_or bs d 0) k (get_or-lt bs d bytes) hk).1
