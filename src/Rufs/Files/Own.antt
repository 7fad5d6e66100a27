-- ===== src/Rufs/Files/Own.antt =====
-- p4/code/rufs.c: the block of a pointer in `rufs_write`, newly taken if it has none.
use mathlib.Core.Path.{subst}
use native.Mathlib.Decide.{ℕ_discrete}
use cs416_os.Prelude.{
  ℕ, ◌+◌, ◌<◌, ◌≤◌, ◌==◌, ◌≡◌, ◌≢◌, ◌⊎◌, refl, sym, ◌∙◌, ap, arith, true, false, if◌then◌else◌,
  some, List, get_or, set, length-set, get_or-set_self, get_or-set_ne, Bool-cases, inl, inr,
}
use cs416_os.Rufs.Layout.{direct_ptrs}
use cs416_os.Rufs.Bitmap.{max_dnum}
use cs416_os.Rufs.Inodes.{Fs, get_avail_blkno}
use cs416_os.Rufs.Inodes.Numbers.{is_taken}
use cs416_os.Rufs.Format.{WellFormed}
use cs416_os.Rufs.Format.Numbers.{TakesBlock, no_block_free, takes_block, get_avail_blkno_lem}
use cs416_os.Rufs.Format.Count.{free_blocks, count_false-all, count_false-taken}
use cs416_os.Rufs.Directory.{is_valid}
use cs416_os.Rufs.Files.{own_block}
use cs416_os.Rufs.Files.Ready.{IsByteBlock, HasBytes, IsReady}

-- The pointer has a block of its own.
pub record OwnsBlock (ptrs : List ℕ) (blk : ℕ) (fs : Fs) : Type 0 where
  pub ptrs' : List ℕ
  pub after : Fs
  pub runs : own_block ptrs blk fs ≡ some (ptrs', after)
  pub ready : IsReady after ptrs'
  pub is_set : is_valid (get_or ptrs' blk 0) ≡ true
  pub others : (i : ℕ) → i ≢ blk → get_or ptrs' i 0 ≡ get_or ptrs i 0
  pub same : (n : ℕ) → n ≢ 2 → after.disk.content n ≡ fs.disk.content n
  pub taken :
      (n : ℕ) → is_taken (fs.disk.content 2) n ≡ true → is_taken (after.disk.content 2) n ≡ true
  pub fresh :
      (c : ℕ)
      → is_taken (fs.disk.content 2) c ≡ true
      → get_or ptrs blk 0 ≢ c
      → get_or ptrs' blk 0 ≢ c
  pub free : free_blocks fs ≤ free_blocks after + 1
  pub root : after.root_dir_ino ≡ fs.root_dir_ino

owns-set :
    (ptrs : List ℕ) (blk : ℕ) (fs : Fs)
    → IsReady fs ptrs
    → is_valid (get_or ptrs blk 0) ≡ true
    → OwnsBlock ptrs blk fs
unfolding own_block
owns-set ptrs blk fs r v = record {
  ptrs' = ptrs;
  after = fs;
  runs = let n : (get_or ptrs blk 0 == 0) ≡ false = ground (arith, v) in rw n refl;
  ready = r;
  is_set = v;
  others = λ i _. refl;
  same = λ n _. refl;
  taken = λ n e. e;
  fresh = λ c _ ne. ne;
  free = omega arith;
  root = refl;
}

-- A pointer that was not set gets the block `q`.
module _ (ptrs : List ℕ) (blk : ℕ) (fs : Fs) (r : IsReady fs ptrs) (u : blk < direct_ptrs)
    (v : is_valid (get_or ptrs blk 0) ≡ false) (q : ℕ) (fs₁ : Fs)
    (taking : get_avail_blkno fs ≡ some (some q, fs₁)) (l : 67 ≤ q) (small : q < max_dnum)
    (free : is_taken (fs.disk.content 2) q ≡ false)
    (law : (n : ℕ)
      → is_taken (fs₁.disk.content 2) n ≡ (if q == n then true else is_taken (fs.disk.content 2) n))
    (same : (n : ℕ) → n ≢ 2 → fs₁.disk.content n ≡ fs.disk.content n)
    (same_root : fs₁.root_dir_ino ≡ fs.root_dir_ino) (w₁ : WellFormed fs₁) where
  abbrev new_ptrs : List ℕ
  new_ptrs = set ptrs blk q

  new_at : get_or new_ptrs blk 0 ≡ q
  new_at = get_or-set_self ptrs blk q 0 (omega (arith, r.size))

  old_at : (i : ℕ) → i ≢ blk → get_or new_ptrs i 0 ≡ get_or ptrs i 0
  old_at i ne = get_or-set_ne ptrs q 0 (λ e. ne (sym e))

  still_taken :
      (n : ℕ) → is_taken (fs.disk.content 2) n ≡ true → is_taken (fs₁.disk.content 2) n ≡ true
  still_taken n e = law n ∙ ground (arith, e)

  not_taken : (n : ℕ) → is_taken (fs.disk.content 2) n ≡ true → n ≢ q
  not_taken n e x = ground (arith, free, subst (λ y. is_taken (fs.disk.content 2) y ≡ true) x e)

  new-HasBytes : HasBytes fs₁ q
  new-HasBytes = record {
    data_block = l;
    number = small;
    taken = law q ∙ ground arith;
    block = subst IsByteBlock (sym (same q (λ e. omega (arith, e, l)))) (r.blank q l small free);
  }

  old-HasBytes : (p : ℕ) → HasBytes fs p → HasBytes fs₁ p
  old-HasBytes p h = record {
    data_block = h.data_block;
    number = h.number;
    taken = still_taken p h.taken;
    block = subst IsByteBlock (sym (same p (λ e. omega (arith, e, h.data_block)))) h.block;
  }

  -- A pointer of the new list is the new block or an old pointer.
  new_or_old :
      (i : ℕ)
      → is_valid (get_or new_ptrs i 0) ≡ true
      → ((i ≡ blk) × (get_or new_ptrs i 0 ≡ q))
        ⊎ ((i ≢ blk)
            × (get_or new_ptrs i 0 ≡ get_or ptrs i 0)
            × (is_valid (get_or ptrs i 0) ≡ true))
  new_or_old i e = elim (ℕ_discrete i blk) [
    | yes x ↦ inl (x, ap (λ y. get_or new_ptrs y 0) x ∙ new_at)
    | no ne ↦ inr (ne, old_at i ne, subst (λ y. is_valid y ≡ true) (old_at i ne) e)
  ]

  new_blocks : (i : ℕ) → is_valid (get_or new_ptrs i 0) ≡ true → HasBytes fs₁ (get_or new_ptrs i 0)
  new_blocks i e = elim (new_or_old i e) [
    | inl (_, x) ↦ subst (HasBytes fs₁) (sym x) new-HasBytes
    | inr (_, x, v') ↦ subst (HasBytes fs₁) (sym x) (old-HasBytes (get_or ptrs i 0) (r.blocks i v'))
  ]

  new_distinct :
      (i j : ℕ)
      → i ≢ j
      → is_valid (get_or new_ptrs i 0) ≡ true
      → is_valid (get_or new_ptrs j 0) ≡ true
      → get_or new_ptrs i 0 ≢ get_or new_ptrs j 0
  new_distinct i j ne vi vj e = go (new_or_old i vi) (new_or_old j vj)
    where
      go :
          ((i ≡ blk) × (get_or new_ptrs i 0 ≡ q))
            ⊎ ((i ≢ blk)
                × (get_or new_ptrs i 0 ≡ get_or ptrs i 0)
                × (is_valid (get_or ptrs i 0) ≡ true))
          → ((j ≡ blk) × (get_or new_ptrs j 0 ≡ q))
            ⊎ ((j ≢ blk)
                × (get_or new_ptrs j 0 ≡ get_or ptrs j 0)
                × (is_valid (get_or ptrs j 0) ≡ true))
          → ⊥
      go (inl (x, _)) (inl (y, _)) = ne (x ∙ sym y)
      go (inl (_, x)) (inr (_, y, v')) =
          not_taken (get_or ptrs j 0) (r.blocks j v').taken (sym y ∙ sym e ∙ x)
      go (inr (_, x, v')) (inl (_, y)) =
          not_taken (get_or ptrs i 0) (r.blocks i v').taken (sym x ∙ e ∙ y)
      go (inr (_, x, vi')) (inr (_, y, vj')) = r.distinct i j ne vi' vj' (sym x ∙ e ∙ y)

  new-IsReady : IsReady fs₁ new_ptrs
  new-IsReady = record {
    formatted = w₁;
    size = length-set ptrs blk q ∙ r.size;
    blocks = new_blocks;
    distinct = new_distinct;
    blank = λ n g b e.
        subst IsByteBlock (sym (same n (λ x. omega (arith, x, g))))
          (r.blank n g b (ground (arith, e, law n)));
  }

  owns-new : OwnsBlock ptrs blk fs
  unfolding own_block
  owns-new = record {
    ptrs' = new_ptrs;
    after = fs₁;
    runs = let n : (get_or ptrs blk 0 == 0) ≡ true = ground (arith, v) in rw (n, taking) refl;
    ready = new-IsReady;
    is_set = ap is_valid new_at ∙ ground (arith, l);
    others = old_at;
    same = same;
    taken = still_taken;
    fresh = λ c t ne e. not_taken c t (sym e ∙ new_at);
    free =
        count_false-taken (is_taken (fs.disk.content 2)) (is_taken (fs₁.disk.content 2)) q max_dnum
          law;
    root = same_root;
  }

pub own_block_lem :
    (ptrs : List ℕ) (blk : ℕ) (fs : Fs)
    → IsReady fs ptrs
    → blk < direct_ptrs
    → 1 ≤ free_blocks fs
    → OwnsBlock ptrs blk fs
own_block_lem ptrs blk fs r u f =
    go (get_avail_blkno_lem fs r.formatted) (Bool-cases (is_valid (get_or ptrs blk 0)))
  where
    go :
        TakesBlock fs
        → (is_valid (get_or ptrs blk 0) ≡ true) ⊎ (is_valid (get_or ptrs blk 0) ≡ false)
        → OwnsBlock ptrs blk fs
    go t (inl v) = owns-set ptrs blk fs r v
    go (no_block_free fs' e same root all w') (inr v) =
        absurd (omega (arith, f, count_false-all (is_taken (fs.disk.content 2)) max_dnum all))
    go (takes_block q fs₁ e l small free lower law same root w₁) (inr v) =
        owns-new ptrs blk fs r u v q fs₁ e l small free law same root w₁
