-- ===== src/Rufs/Directory/Spots.antt =====
-- p4/code/rufs.c: where `dir_add` puts an entry, and what the search of a block finds then.
use cs416_os.Prelude.{
  ℕ, zero, suc, ◌+◌, ◌<◌, ◌==◌, ◌≡◌, ◌⊎◌, refl, ◌∙◌, ap, arith, true, false, ◌&&◌, none, some, List,
  [], ◌∷◌, length, get_or, set, replicate, Bool-cases, inl, inr,
}
use cs416_os.Rufs.Layout.{Name, same_name, Dirent, zero_dirent}
use cs416_os.Rufs.Disk.Laws.{bio_read-working}
use cs416_os.Rufs.Inodes.{Fs}
use cs416_os.Rufs.Format.{WellFormed}
use cs416_os.Rufs.Directory.{
  is_valid, find_entry, free_place, find_spot, place_or_later, new_block, place,
}
use cs416_os.Rufs.Directory.Find.{HasEntries, AllHaveEntries}

pub same_name_refl : (a : Name) → same_name a a ≡ true
unfolding same_name
same_name_refl [] = refl
same_name_refl (c ∷ cs) = ground (arith, same_name_refl cs)

-- The entry `e` at place `j` of a block.
module _ (fname : Name) (e : Dirent) where
  pub find_entry-set_new :
      (es : List Dirent) (j : ℕ)
      → find_entry fname es ≡ none
      → j < length es
      → (is_valid e.valid && same_name fname e.name) ≡ true
      → find_entry fname (set es j e) ≡ some e
  unfolding find_entry
  find_entry-set_new [] j absent u hit = absurd (omega arith)
  find_entry-set_new (c ∷ cs) zero absent u hit = rw hit refl
  find_entry-set_new (c ∷ cs) (suc j) absent u hit =
      elim (Bool-cases (is_valid c.valid && same_name fname c.name)) [
        | inl t ↦ let wrong : some c ≡ none = ground (arith, t, absent) in cc
        | inr t ↦
            let rest : find_entry fname cs ≡ none = ground (arith, t, absent) in
            rw t (find_entry-set_new cs j rest (omega arith) hit)
      ]

  pub find_entry-set_other :
      (es : List Dirent) (j : ℕ)
      → is_valid (get_or es j zero_dirent).valid ≡ false
      → same_name fname e.name ≡ false
      → find_entry fname (set es j e) ≡ find_entry fname es
  unfolding find_entry
  find_entry-set_other [] j free miss = refl
  find_entry-set_other (c ∷ cs) zero free miss =
      let t : (is_valid e.valid && same_name fname e.name) ≡ false = ground (arith, miss) in
      rw (t, free) refl
  find_entry-set_other (c ∷ cs) (suc j) free miss = rw (find_entry-set_other cs j free miss) refl

pub find_entry-zeros : (fname : Name) (n : ℕ) → find_entry fname (replicate n zero_dirent) ≡ none
unfolding find_entry
find_entry-zeros fname zero = refl
find_entry-zeros fname (suc n) = find_entry-zeros fname n

-- The search for a free place of a block, from number `j` on.
data FreePlace (es : List Dirent) (j : ℕ) : Type 0 where
  all_used :
      free_place es j ≡ none
      → ((k : ℕ) → k < length es → is_valid (get_or es k zero_dirent).valid ≡ true)
      → FreePlace es j
  unused :
      (k : ℕ)
      → free_place es j ≡ some (j + k)
      → k < length es
      → is_valid (get_or es k zero_dirent).valid ≡ false
      → FreePlace es j

free_place_lem : (es : List Dirent) (j : ℕ) → FreePlace es j
unfolding free_place
free_place_lem [] j = all_used refl (λ k u. absurd (omega arith))
free_place_lem (c ∷ cs) j = go (free_place_lem cs (j + 1)) (Bool-cases (is_valid c.valid))
  where
    first_valid :
        is_valid c.valid ≡ true
        → ((k : ℕ) → k < length cs → is_valid (get_or cs k zero_dirent).valid ≡ true)
        → (k : ℕ) → k < length (c ∷ cs)
        → is_valid (get_or (c ∷ cs) k zero_dirent).valid ≡ true
    first_valid e all zero u = e
    first_valid e all (suc k) u = all k (omega arith)

    go :
        FreePlace cs (j + 1)
        → (is_valid c.valid ≡ true) ⊎ (is_valid c.valid ≡ false)
        → FreePlace (c ∷ cs) j
    go r (inr e) = unused 0 (rw e (ap some (omega arith))) (omega arith) e
    go (all_used n all) (inl e) = all_used (rw e n) (first_valid e all)
    go (unused k s u free) (inl e) =
        unused (suc k) (rw e (s ∙ ap some (omega arith))) (omega arith) free

-- The search for a spot, from pointer number `i` on.
pub data FindsSpot (fs : Fs) (ptrs : List ℕ) (i : ℕ) : Type 0 where
  no_spot :
      find_spot fs ptrs i ≡ some none
      → ((k : ℕ) → k < length ptrs → is_valid (get_or ptrs k 0) ≡ true)
      → FindsSpot fs ptrs i
  spot_in_new_block :
      (k : ℕ)
      → find_spot fs ptrs i ≡ some (some (new_block (i + k)))
      → k < length ptrs
      → is_valid (get_or ptrs k 0) ≡ false
      → FindsSpot fs ptrs i
  spot_in_place :
      (k j : ℕ) (h : HasEntries fs (get_or ptrs k 0))
      → find_spot fs ptrs i ≡ some (some (place (i + k) j))
      → k < length ptrs
      → is_valid (get_or ptrs k 0) ≡ true
      → j < length h.block.entries
      → is_valid (get_or h.block.entries j zero_dirent).valid ≡ false
      → FindsSpot fs ptrs i

-- One more pointer in front.
used_before :
    (fs : Fs) (p : ℕ) (ptrs : List ℕ) (i : ℕ) (h : HasEntries fs p)
    → WellFormed fs
    → is_valid p ≡ true
    → free_place h.block.entries 0 ≡ none
    → find_spot fs (p ∷ ptrs) i ≡ find_spot fs ptrs (i + 1)
unfolding find_spot place_or_later
used_before fs p ptrs i h w v e =
    let n : (p == 0) ≡ false = ground (arith, v) in
    rw
      (
        n,
        bio_read-working fs.disk p (omega (arith, h.number)) (w.inodes.works p h.number),
        h.block.reads,
      )
      (rw e refl)

unused_here :
    (fs : Fs) (p : ℕ) (ptrs : List ℕ) (i j : ℕ) (h : HasEntries fs p)
    → WellFormed fs
    → is_valid p ≡ true
    → free_place h.block.entries 0 ≡ some j
    → find_spot fs (p ∷ ptrs) i ≡ some (some (place i j))
unfolding find_spot place_or_later
unused_here fs p ptrs i j h w v e =
    let n : (p == 0) ≡ false = ground (arith, v) in
    rw
      (
        n,
        bio_read-working fs.disk p (omega (arith, h.number)) (w.inodes.works p h.number),
        h.block.reads,
      )
      (rw e refl)

not_set :
    (fs : Fs) (p : ℕ) (ptrs : List ℕ) (i : ℕ)
    → is_valid p ≡ false
    → find_spot fs (p ∷ ptrs) i ≡ some (some (new_block i))
unfolding find_spot
not_set fs p ptrs i v = let n : (p == 0) ≡ true = ground (arith, v) in rw n refl

-- In a formatted directory the search gives its first free spot.
pub find_spot_lem :
    (fs : Fs) (ptrs : List ℕ) (i : ℕ) → WellFormed fs → AllHaveEntries fs ptrs → FindsSpot fs ptrs i
unfolding find_spot
find_spot_lem fs [] i w all = no_spot refl (λ k u. absurd (omega arith))
find_spot_lem fs (p ∷ ptrs) i w all =
    go (find_spot_lem fs ptrs (i + 1) w (λ k. all (suc k))) (Bool-cases (is_valid p))
  where
    all_set :
        is_valid p ≡ true
        → ((k : ℕ) → k < length ptrs → is_valid (get_or ptrs k 0) ≡ true)
        → (k : ℕ) → k < length (p ∷ ptrs)
        → is_valid (get_or (p ∷ ptrs) k 0) ≡ true
    all_set e rest zero u = e
    all_set e rest (suc k) u = rest k (omega arith)

    later :
        (v : is_valid p ≡ true)
        → find_spot fs (p ∷ ptrs) i ≡ find_spot fs ptrs (i + 1)
        → FindsSpot fs ptrs (i + 1)
        → FindsSpot fs (p ∷ ptrs) i
    later v e (no_spot s rest) = no_spot (e ∙ s) (all_set v rest)
    later v e (spot_in_new_block k s u n) =
        spot_in_new_block (suc k) (e ∙ s ∙ ap (λ x. some (some (new_block x))) (omega arith))
          (omega arith) n
    later v e (spot_in_place k j h s u n b f) =
        spot_in_place (suc k) j h (e ∙ s ∙ ap (λ x. some (some (place x j))) (omega arith))
          (omega arith) n b f

    here :
        (v : is_valid p ≡ true) (h : HasEntries fs p)
        → FreePlace h.block.entries 0
        → FindsSpot fs ptrs (i + 1)
        → FindsSpot fs (p ∷ ptrs) i
    here v h (all_used n used) r = later v (used_before fs p ptrs i h w v n) r
    here v h (unused j s b f) r =
        spot_in_place 0 j h
          (unused_here fs p ptrs i j h w v (s ∙ ap some (omega arith))
            ∙ ap (λ x. some (some (place x j))) (omega arith))
          (omega arith) v b f

    go :
        FindsSpot fs ptrs (i + 1)
        → (is_valid p ≡ true) ⊎ (is_valid p ≡ false)
        → FindsSpot fs (p ∷ ptrs) i
    go r (inl v) = let h = all 0 v in here v h (free_place_lem h.block.entries 0) r
    go r (inr v) =
        spot_in_new_block 0
          (not_set fs p ptrs i v ∙ ap (λ x. some (some (new_block x))) (omega arith)) (omega arith)
          v
