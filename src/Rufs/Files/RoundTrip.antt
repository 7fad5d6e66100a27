-- ===== src/Rufs/Files/RoundTrip.antt =====
-- p4/code/rufs.c: the loops of `rufs_write` and `rufs_read`, one after the other.
use mathlib.Core.Path.{subst}
use cs416_os.Prelude.{
  ℕ, zero, suc, ◌+◌, ◌-◌, ◌*◌, ◌<◌, ◌≤◌, ◌==◌, ◌≡◌, ◌≢◌, ◌⊎◌, refl, sym, ◌∙◌, ap, arith, leb, true,
  false, some, List, [], ◌∷◌, ◌++◌, length, get_or, take, drop, Bool-cases, inl, inr,
}
use cs416_os.Prelude.Slices.{length-take, length-drop}
use cs416_os.Rufs.Layout.{direct_ptrs, block_size}
use cs416_os.Rufs.Disk.{bio_read, as_bytes}
use cs416_os.Rufs.Disk.Laws.{bio_read-working}
use cs416_os.Rufs.Inodes.{Fs}
use cs416_os.Rufs.Inodes.Numbers.{is_taken}
use cs416_os.Rufs.Format.Count.{free_blocks}
use cs416_os.Rufs.Directory.{is_valid}
use cs416_os.Rufs.Files.{read_blocks, write_blocks, in_block, splice}
use cs416_os.Rufs.Files.Ready.{HasBytes, IsReady}
use cs416_os.Rufs.Files.Part.{WritesPart, write_part_lem}
use cs416_os.Rufs.Files.Splice.{
  read-splice, in_block-all, in_block-rest, in_block_bounds, take-split,
}

-- What the loop does, with `k` blocks left from `blk` on: the bytes that it counts are read back, no
-- other block of data changes, and all bytes are written that there is room for.
pub record WritesBlocks (k : ℕ) (ptrs : List ℕ) (blk off : ℕ) (source : List ℕ) (fs : Fs)
    : Type 0 where
  pub count : ℕ
  pub ptrs' : List ℕ
  pub after : Fs
  pub runs : write_blocks k ptrs blk off source fs ≡ some (count, ptrs', after)
  pub ready : IsReady after ptrs'
  pub reads : read_blocks k after ptrs' blk off count ≡ some (false, take count source)
  pub all : length source ≤ k * block_size - off → count ≡ length source
  pub full : k * block_size - off ≤ length source → count ≡ k * block_size - off
  pub kept : (i : ℕ) → i < blk → get_or ptrs' i 0 ≡ get_or ptrs i 0
  pub same :
      (c : ℕ)
      → 67 ≤ c
      → is_taken (fs.disk.content 2) c ≡ true
      → ((i : ℕ) → blk ≤ i → get_or ptrs i 0 ≢ c)
      → after.disk.content c ≡ fs.disk.content c
  pub root : after.root_dir_ino ≡ fs.root_dir_ino

-- One round of the loop of `rufs_read`.
read_blocks-step :
    (k : ℕ) (fs : Fs) (ptrs : List ℕ) (blk off n ws m : ℕ) (buf rest : List ℕ)
    → 1 ≤ n
    → in_block off n ≡ ws
    → n ≡ ws + m
    → is_valid (get_or ptrs blk 0) ≡ true
    → as_bytes (bio_read fs.disk (get_or ptrs blk 0)).1 ≡ some buf
    → read_blocks k fs ptrs (blk + 1) 0 m ≡ some (false, rest)
    → read_blocks (suc k) fs ptrs blk off n ≡ some (false, take ws (drop off buf) ++ rest)
unfolding read_blocks
read_blocks-step k fs ptrs blk off zero ws m buf rest pos s e v b r = absurd (omega arith)
read_blocks-step k fs ptrs blk off (suc n) ws m buf rest pos s e v b r =
    let z : (get_or ptrs blk 0 == 0) ≡ false = ground (arith, v) in
    let left : suc n - ws ≡ m = omega arith in rw (z, b) (rw (s, left) (rw r refl))

-- Nothing is written.
writes-nothing :
    (k : ℕ) (ptrs : List ℕ) (blk off : ℕ) (source : List ℕ) (fs : Fs)
    → IsReady fs ptrs
    → write_blocks k ptrs blk off source fs ≡ some (0, ptrs, fs)
    → read_blocks k fs ptrs blk off 0 ≡ some (false, [])
    → (length source ≡ 0) ⊎ (k ≡ 0)
    → WritesBlocks k ptrs blk off source fs
writes-nothing k ptrs blk off source fs r e e' h = record {
  count = 0;
  ptrs' = ptrs;
  after = fs;
  runs = e;
  ready = r;
  reads = e';
  all = λ u. omega (arith, h, u);
  full = λ u. elim h [ inl z ↦ omega (arith, u) | inr z ↦ rw z (omega arith) ];
  kept = λ i u. refl;
  same = λ c l t ne. refl;
  root = refl;
}

-- A round, and the rest.
module _ (k : ℕ) (ptrs : List ℕ) (blk off : ℕ) (c : ℕ) (cs : List ℕ) (fs : Fs)
    (inside : off < block_size) where
  abbrev size_here : ℕ
  size_here = in_block off (length (c ∷ cs))

  abbrev part : List ℕ
  part = take size_here (c ∷ cs)

  abbrev later : List ℕ
  later = drop size_here (c ∷ cs)

  bounds : (size_here ≤ length (c ∷ cs)) × (size_here ≤ block_size - off)
  bounds = in_block_bounds off (length (c ∷ cs))

  length-part : length part ≡ size_here
  length-part = length-take size_here (c ∷ cs) bounds.0

  part_fits : off + length part ≤ block_size
  part_fits = omega (arith, length-part, bounds.1)

  module _ (s : WritesPart ptrs blk off part fs)
      (r : WritesBlocks k s.ptrs' (blk + 1) 0 later s.after) where
    write_blocks-step :
        write_blocks (suc k) ptrs blk off (c ∷ cs) fs ≡ some (size_here + r.count, r.ptrs', r.after)
    unfolding write_blocks
    write_blocks-step = rw (s.runs, r.runs) refl

    abbrev p : ℕ
    p = get_or s.ptrs' blk 0

    abbrev has : HasBytes s.after p
    has = s.ready.blocks blk s.is_set

    pointer : get_or r.ptrs' blk 0 ≡ p
    pointer = r.kept blk (omega arith)

    alone : (i : ℕ) → blk + 1 ≤ i → get_or s.ptrs' i 0 ≢ p
    alone i l = elim (Bool-cases (is_valid (get_or s.ptrs' i 0))) [
      | inl v ↦ s.ready.distinct i blk (omega arith) v s.is_set
      | inr v ↦ (λ e. ground (arith, v, e, has.data_block))
    ]

    content : r.after.disk.content p ≡ s.after.disk.content p
    content = r.same p has.data_block has.taken alone

    buffer :
        as_bytes (bio_read r.after.disk (get_or r.ptrs' blk 0)).1 ≡ some (splice s.buf off part)
    buffer =
        rw
          (
            pointer,
            bio_read-working r.after.disk p (omega (arith, has.number))
                (r.ready.formatted.inodes.works p has.number),
          )
          (ap as_bytes content ∙ s.content)

    split_size :
        ((size_here ≡ length (c ∷ cs)) × (length (c ∷ cs) ≤ block_size - off))
        ⊎ ((size_here ≡ block_size - off) × (block_size - off ≤ length (c ∷ cs)))
    split_size = elim (Bool-cases (leb (length (c ∷ cs)) (block_size - off))) [
      | inl e ↦
          let u : length (c ∷ cs) ≤ block_size - off = ground (arith, e) in
          inl (in_block-all off (length (c ∷ cs)) u, u)
      | inr e ↦
          let u : block_size - off ≤ length (c ∷ cs) = ground (arith, e) in
          inr (in_block-rest off (length (c ∷ cs)) u, u)
    ]

    nothing_later : size_here ≡ length (c ∷ cs) → r.count ≡ 0
    nothing_later e =
        let none_left : length later ≡ 0 = omega (arith, length-drop size_here (c ∷ cs), e) in
        r.all (omega (arith, none_left)) ∙ none_left

    written_all : length (c ∷ cs) ≤ suc k * block_size - off → size_here + r.count ≡ length (c ∷ cs)
    written_all u = elim split_size [
      | inl (e, v) ↦ omega (arith, e, nothing_later e)
      | inr (e, v) ↦
          let l = length-drop size_here (c ∷ cs) in
          let n = r.all (omega (arith, l, e, u)) in omega (arith, n, l, e, v)
    ]

    written_full :
        suc k * block_size - off ≤ length (c ∷ cs) → size_here + r.count ≡ suc k * block_size - off
    written_full u = elim split_size [
      | inl (e, v) ↦ omega (arith, e, nothing_later e, u, v, inside)
      | inr (e, v) ↦
          let l = length-drop size_here (c ∷ cs) in
          let n = r.full (omega (arith, l, e, u)) in omega (arith, n, l, e, v, inside)
    ]

    part_back : take size_here (drop off (splice s.buf off part)) ≡ part
    part_back =
        subst (λ n. take n (drop off (splice s.buf off part)) ≡ part) length-part
          (read-splice s.buf part off (omega (arith, s.size)))

    some_here : 1 ≤ size_here
    some_here = ground arith

    same_size : in_block off (size_here + r.count) ≡ size_here
    same_size = elim split_size [
      | inl (e, u) ↦
          rw (e, nothing_later e)
            (in_block-all off (length (c ∷ cs) + 0) (omega arith) ∙ omega arith)
      | inr (e, u) ↦ rw e (in_block-rest off (block_size - off + r.count) (omega arith))
    ]

    writes-step : WritesBlocks (suc k) ptrs blk off (c ∷ cs) fs
    writes-step = record {
      count = size_here + r.count;
      ptrs' = r.ptrs';
      after = r.after;
      runs = write_blocks-step;
      ready = r.ready;
      reads =
          read_blocks-step k r.after r.ptrs' blk off (size_here + r.count) size_here r.count
            (splice s.buf off part) (take r.count later) (omega (arith, some_here)) same_size refl
            (ap is_valid pointer ∙ s.is_set) buffer r.reads
          ∙ ap (λ x. some (false, x))
              (ap (λ x. x ++ take r.count later) part_back ∙ take-split size_here r.count (c ∷ cs));
      all = written_all;
      full = written_full;
      kept = λ i u. r.kept i (omega arith) ∙ s.others i (omega arith);
      same = λ n l t ne.
          r.same n l (s.taken n t)
            (λ i g. subst (λ x. x ≢ n) (sym (s.others i (omega arith))) (ne i (omega arith)))
          ∙ s.same n l (λ e. s.fresh n t (ne blk (omega arith)) (sym e));
      root = r.root ∙ s.root;
    }

-- On a formatted disk with as many free blocks as the loop can take, the loop of `rufs_write` ends.
pub write_blocks_lem :
    (k : ℕ) (ptrs : List ℕ) (blk off : ℕ) (source : List ℕ) (fs : Fs)
    → IsReady fs ptrs
    → blk + k ≤ direct_ptrs
    → off < block_size
    → k ≤ free_blocks fs
    → WritesBlocks k ptrs blk off source fs
unfolding write_blocks read_blocks
write_blocks_lem zero ptrs blk off source fs r u o f =
    writes-nothing zero ptrs blk off source fs r refl refl (inr refl)
write_blocks_lem (suc k) ptrs blk off [] fs r u o f =
    writes-nothing (suc k) ptrs blk off [] fs r refl refl (inl refl)
write_blocks_lem (suc k) ptrs blk off (c ∷ cs) fs r u o f =
    let s =
      write_part_lem ptrs blk off (part k ptrs blk off c cs fs o) fs r (omega arith)
        (omega (arith, f)) (part_fits k ptrs blk off c cs fs o) in
    writes-step k ptrs blk off c cs fs o s (
      write_blocks_lem k s.ptrs' (blk + 1) 0 (later k ptrs blk off c cs fs o) s.after s.ready
        (omega arith) (omega arith) (omega (arith, f, s.free)))
