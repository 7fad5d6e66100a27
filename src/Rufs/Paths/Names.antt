-- ===== src/Rufs/Paths/Names.antt =====
-- p4/code/rufs.c: the names of a path, its directory and its last name.
use cs416_os.Prelude.{
  ℕ, ◌==◌, ◌≡◌, ◌≢◌, refl, ap, false, Option, none, some, List, [], ◌∷◌, ◌++◌, All, ◌>>=◌,
  Bool-cases, inl, inr,
}
use cs416_os.Rufs.Layout.{Name, Dirent}
use cs416_os.Rufs.Inodes.{Fs}
use cs416_os.Rufs.Directory.{dir_find}
use cs416_os.Rufs.Paths.{
  slash, keep, split, strtok_tokens, split_last, or_root, dirname, basename, walk,
}

-- A name has no slash and is not empty.
abbrev pub IsName : Name → Type 0
IsName n = All (λ c. (c == slash) ≡ false) n × (n ≢ [])

keep-append : (a : Name) (ts us : List Name) → keep a (ts ++ us) ≡ keep a ts ++ us
keep-append [] ts us = refl
keep-append (c ∷ cs) ts us = refl

keep-name : (n : Name) (ts : List Name) → n ≢ [] → keep n ts ≡ n ∷ ts
keep-name [] ts ne = absurd (ne refl)
keep-name (c ∷ cs) ts ne = refl

split-name : (n : Name) → All (λ c. (c == slash) ≡ false) n → split n ≡ (n, [])
unfolding split
split-name [] a = refl
split-name (c ∷ cs) a = rw (a.0, split-name cs a.1) refl

split-append :
    (d : List ℕ) (n : Name)
    → IsName n
    → split (d ++ slash ∷ n) ≡ ((split d).0, (split d).1 ++ n ∷ [])
unfolding split
split-append [] n a = rw (split-name n a.0) (ap (λ t. ([], t)) (keep-name n [] a.1))
split-append (c ∷ cs) n a =
    let later = split-append cs n a in
    elim (Bool-cases (c == slash)) [
      | inl e ↦ rw (e, later) (ap (λ t. ([], t)) (keep-append (split cs).0 (split cs).1 (n ∷ [])))
      | inr e ↦ rw (e, later) refl
    ]

pub strtok_tokens-append :
    (d : List ℕ) (n : Name) → IsName n → strtok_tokens (d ++ slash ∷ n) ≡ strtok_tokens d ++ n ∷ []
unfolding strtok_tokens
strtok_tokens-append d n a = rw (split-append d n a) (keep-append (split d).0 (split d).1 (n ∷ []))

split_last-name : (n : Name) → All (λ c. (c == slash) ≡ false) n → split_last n ≡ none
unfolding split_last
split_last-name [] a = refl
split_last-name (c ∷ cs) a = rw (split_last-name cs a.1) (rw a.0 refl)

split_last-append :
    (d : List ℕ) (n : Name)
    → All (λ c. (c == slash) ≡ false) n
    → split_last (d ++ slash ∷ n) ≡ some (d, n)
unfolding split_last
split_last-append [] n a = rw (split_last-name n a) refl
split_last-append (c ∷ cs) n a = rw (split_last-append cs n a) refl

pub basename-append : (d : List ℕ) (n : Name) → IsName n → basename (d ++ slash ∷ n) ≡ n
unfolding basename
basename-append d n a = rw (basename, split_last-append d n a.0) refl

pub dirname-append : (d : List ℕ) (n : Name) → IsName n → dirname (d ++ slash ∷ n) ≡ or_root d
unfolding dirname
dirname-append d n a = rw (dirname, split_last-append d n a.0) refl

tokens-or_root : (d : List ℕ) → strtok_tokens (or_root d) ≡ strtok_tokens d
unfolding strtok_tokens split
tokens-or_root [] = refl
tokens-or_root (c ∷ cs) = refl

-- The last step of a walk.
abbrev pub step : Fs → Name → Option ℕ → Option (Option ℕ)
step fs n none = some none
step fs n (some ino) = walk fs ino (n ∷ [])

step-later :
    (fs : Fs) (n : Name) (ts : List Name) (m : Option (Option Dirent))
    → ((ino : ℕ) → walk fs ino (ts ++ n ∷ []) ≡ (walk fs ino ts >>= step fs n))
    → (m >>= λ found. elim found as (λ _. Option (Option ℕ)) [
      | none ↦ some none
      | some e ↦ walk fs e.ino (ts ++ n ∷ [])
    ])
      ≡ (m
          >>= (λ found. elim found as (λ _. Option (Option ℕ)) [
            | none ↦ some none
            | some e ↦ walk fs e.ino ts
          ])
          >>= step fs n)
step-later fs n ts none later = refl
step-later fs n ts (some none) later = refl
step-later fs n ts (some (some e)) later = later e.ino

walk-append :
    (fs : Fs) (ino : ℕ) (ts : List Name) (n : Name)
    → walk fs ino (ts ++ n ∷ []) ≡ (walk fs ino ts >>= step fs n)
unfolding walk
walk-append fs ino [] n = refl
walk-append fs ino (t ∷ ts) n = step-later fs n ts (dir_find fs ino t) (λ k. walk-append fs k ts n)

-- Walking the strtok tokens of a path that ends in a slash and a name, not empty and without a
-- slash, is walking those of its dirname and from there taking one step with its basename.
pub walk_lem :
    (fs : Fs) (ino : ℕ) (d : List ℕ) (n : Name)
    → IsName n
    → walk fs ino (strtok_tokens (d ++ slash ∷ n)) ≡ (
        walk fs ino (strtok_tokens (dirname (d ++ slash ∷ n)))
        >>= step fs (basename (d ++ slash ∷ n)))
walk_lem fs ino d n a =
    rw (dirname-append d n a, basename-append d n a, tokens-or_root d, strtok_tokens-append d n a)
      (walk-append fs ino (strtok_tokens d) n)
