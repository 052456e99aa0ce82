-- ===== src/Ktfs/Open/Finds.antt =====
-- `ktfs_open` of src/modified/sys/ktfs.c finds the first entry of the directory with the name.
use unix_like_operating_syst.Base.{
  ℕ, zero, suc, ◌+◌, ◌-◌, ◌*◌, ◌/◌, min, ◌≡◌, ◌≤◌, ◌⊎◌, refl, sym, ap, ◌∙◌, inl, inr, Option, none,
  some, List, [], ◌∷◌, ◌++◌, arith, ltb, if◌then◌else◌, Bool-cases, length, length-append,
  length-take, take, take-append,
}
use unix_like_operating_syst.Base.Results.{Result, ok, err, enoent}
use unix_like_operating_syst.Filesys.{Name, same}
use unix_like_operating_syst.Ktfs.Disk.{
  Disk, Superblock, superblock_of, Inode, get_inode, DirEntry, dentry_of,
}
use unix_like_operating_syst.Ktfs.Disk.Pointers.{pointers}
use unix_like_operating_syst.Ktfs.Fetch.{File}
use unix_like_operating_syst.Ktfs.Fetch.Content.{Reads}
use unix_like_operating_syst.Ktfs.Open.{
  c_name, Search, more, found, failed, and_search, scan_entries, search_block, search_pointers,
  Opened, opened, opened_super, open_root, open_super, ktfs_open,
}
use unix_like_operating_syst.Ktfs.Open.Flat.{Final, all_seen, search_directory-flat}

-- The entries of a block, so many from one on, and those of all blocks.
abbrev pub entries_from : ℕ → ℕ → List ℕ → List DirEntry
entries_from zero k b = []
entries_from (suc n) k b = dentry_of k b ∷ entries_from n (k + 1) b

abbrev pub entries : List (List ℕ) → List DirEntry
entries [] = []
entries (b ∷ bs) = entries_from 32 0 b ++ entries bs

-- The first entry with a name.
abbrev pub first_named : Name → List DirEntry → Option DirEntry
first_named name [] = none
first_named name (e ∷ es) = if same (c_name e.name) name then some e else first_named name es

-- The search over a list of entries, counted from a number on.
seek : Name → List DirEntry → ℕ → Search
seek name [] i = more i
seek name (e ∷ es) i =
    let later = seek name es (i + 1) in if same (c_name e.name) name then found e else later

seek-append :
    (name : Name) (xs ys : List DirEntry) (i : ℕ)
    → seek name (xs ++ ys) i ≡ and_search (seek name xs i) (seek name ys)
unfolding seek and_search
seek-append name [] ys i = refl
seek-append name (x ∷ xs) ys i = elim (Bool-cases (same (c_name x.name) name)) [
  | inl y ↦ rw y refl
  | inr f ↦ rw f (seek-append name xs ys (i + 1))
]

-- Where no entry is found, all are counted.
abbrev Counts : ℕ → Search → Type 0
Counts n (more j) = j ≡ n
Counts n (found e) = Unit
Counts n (failed e) = ⊥

seek-Counts :
    (name : Name) (xs : List DirEntry) (i n : ℕ) → n ≡ i + length xs → Counts n (seek name xs i)
unfolding seek
seek-Counts name [] i n e = omega (arith, e)
seek-Counts name (x ∷ xs) i n e = elim (Bool-cases (same (c_name x.name) name)) [
  | inl y ↦ rw y tt
  | inr f ↦ rw f (seek-Counts name xs (i + 1) n (omega (arith, e)))
]

seek-first_named :
    (name : Name) (xs : List DirEntry) (i : ℕ)
    → ((first_named name xs ≡ none) × (seek name xs i ≡ more (i + length xs)))
      ⊎ ((e : DirEntry) × (first_named name xs ≡ some e) × (seek name xs i ≡ found e))
unfolding seek
seek-first_named name [] i = inl (refl, ap more (omega arith))
seek-first_named name (x ∷ xs) i = elim (Bool-cases (same (c_name x.name) name)) [
  | inl y ↦ rw y (inr (x, refl, refl))
  | inr f ↦ rw f (elim (seek-first_named name xs (i + 1)) [
    | inl (a, b) ↦ inl (a, b ∙ ap more (omega arith))
    | inr r ↦ inr r
  ])
]

length-entries_from : (n k : ℕ) (b : List ℕ) → length (entries_from n k b) ≡ n
length-entries_from zero k b = refl
length-entries_from (suc n) k b = omega (arith, length-entries_from n (k + 1) b)

length-entries : (bs : List (List ℕ)) → length (entries bs) ≡ length bs * 32
length-entries [] = omega arith
length-entries (b ∷ bs) =
    length-append (entries_from 32 0 b) (entries bs)
    ∙ omega (arith, length-entries bs, length-entries_from 32 0 b)

counted :
    (s : Search) (f g : ℕ → Search) (n : ℕ)
    → Counts n s
    → f n ≡ g n
    → and_search s f ≡ and_search s g
unfolding and_search
counted (more j) f g n c h = ap f c ∙ h ∙ ap g (sym c)
counted (found e) f g n c h = refl
counted (failed e) f g n c h = absurd c

nothing_taken :
    (name : Name) (es : List DirEntry) (m i : ℕ) → m ≡ 0 → more i ≡ seek name (take m es) i
unfolding seek
nothing_taken name es zero i e = refl
nothing_taken name es (suc m) i e = absurd (omega (arith, e))

module _ (disk : Disk) (sb : Superblock) (name : Name) (num : ℕ) where
  scan_entries_lem :
      (n k i : ℕ) (b : List ℕ)
      → scan_entries disk sb name num n k i b ≡ seek name (take (num - i) (entries_from n k b)) i
  unfolding scan_entries seek
  scan_entries_lem zero k i b = none_left (num - i) i
    where
      none_left : (m i : ℕ) → more i ≡ seek name (take m []) i
      none_left zero i = refl
      none_left (suc m) i = refl
  scan_entries_lem (suc n) k i b = elim (Bool-cases (ltb i num)) [
    | inl y ↦ rw y (
        ap (λ t. if same (c_name (dentry_of k b).name) name then found (dentry_of k b) else t)
          (scan_entries_lem n (k + 1) (i + 1) b)
        ∙ ap (λ (m : ℕ). seek name (take m (entries_from (suc n) k b)) i) {x = suc (num - (i + 1))}
            {y = num - i} (ground (arith, y)))
    | inr f ↦ rw f (
        ap (λ (m : ℕ). seek name (take m (entries_from (suc n) k b)) i) {x = 0} {y = num - i}
          (ground (arith, f)))
  ]

  seek_on :
      (xs ys : List DirEntry) (i : ℕ) (f : ℕ → Search) (n : ℕ)
      → n ≡ i + length xs
      → f n ≡ seek name ys n
      → and_search (seek name xs i) f ≡ seek name (xs ++ ys) i
  seek_on xs ys i f n e h =
      counted (seek name xs i) f (seek name ys) n (seek-Counts name xs i n e) h
      ∙ sym (seek-append name xs ys i)

  search_entries :
      (ps : List ℕ) (bs : List (List ℕ)) (i : ℕ)
      → Reads disk sb ps bs
      → num - i ≤ length bs * 32
      → search_pointers disk sb name num ps i ≡ seek name (take (num - i) (entries bs)) i
  unfolding search_pointers search_block
  search_entries ps [] i r fits =
      all_seen disk sb name num ps i (ground (arith, fits))
      ∙ nothing_taken name [] (num - i) i (omega (arith, fits))
  search_entries [] (b ∷ bs) i r fits = absurd r
  search_entries (p ∷ ps) (b ∷ bs) i (rd, len, r) fits = elim (Bool-cases (ltb i num)) [
    | inl y ↦
        let m = num - i in
        let es = entries_from 32 0 b in
        let size : length es ≡ 32 = length-entries_from 32 0 b in
        let n = i + length (take m es) in
        let seen : length (take m es) ≡ min m 32 =
          length-take m es ∙ ap (λ (k : ℕ). min m k) size in
        rw y (
          rw rd (
            ap (λ s. and_search s (search_pointers disk sb name num ps)) (scan_entries_lem 32 0 i b)
            ∙ seek_on (take m es) (take (m - length es) (entries bs)) i
                (search_pointers disk sb name num ps) n refl
                (search_entries ps bs n r (omega (arith, seen, fits))
                  ∙ ap (λ (k : ℕ). seek name (take k (entries bs)) n) {x = num - n}
                      {y = m - length es} (ground (arith, seen, size, y)))
            ∙ ap (λ t. seek name t i) (sym (take-append m es (entries bs)))))
    | inr f ↦ rw f (nothing_taken name (entries (b ∷ bs)) (num - i) i (ground (arith, f)))
  ]

-- What an open gives for the entry found, or where there is none.
abbrev pub opened_named : Disk → ℕ → List File → Option DirEntry → Result Opened × List File
opened_named disk uio files none = (err enoent, files)
opened_named disk uio files (some e) = opened_super disk uio e files (disk 0)

opened-seek :
    (disk : Disk) (uio : ℕ) (files : List File) (name : Name) (es : List DirEntry) (n : ℕ)
    → n ≡ length es
    → Final n (seek name es 0)
      × (opened disk uio files (seek name es 0) ≡ opened_named disk uio files (first_named name es))
opened-seek disk uio files name es n len = elim (seek-first_named name es 0) [
  | inl (a, b) ↦ rw a (rw b (omega (arith, len), refl))
  | inr (e, a, b) ↦ rw a (rw b (tt, refl))
]

-- The disk has the superblock and the root directory's inode, and these blocks behind its first
-- pointers, with all entries of the directory.
pub record Directory (disk : Disk) (bs : List (List ℕ)) : Type 0 where
  pub super : List ℕ
  pub root : Inode
  pub super_read : disk 0 ≡ ok super
  pub root_read :
      get_inode disk (superblock_of super) (superblock_of super).root_directory_inode ≡ ok root
  pub blocks_read : Reads disk (superblock_of super) (pointers disk (superblock_of super) root) bs
  pub enough : root.size / 16 ≤ length bs * 32

-- `ktfs_open` of a name that is not empty, on a disk that holds the directory: it answers `ENOENT`
-- and opens nothing where none of the directory's entries has the name; else it takes the first one
-- that has it, and puts a file at its start, of its inode and size, first on the list of open files,
-- or answers the error of reading that inode.
pub ktfs_open-first_named :
    (disk : Disk) (c : ℕ) (cs : Name) (uio : ℕ) (files : List File) (bs : List (List ℕ))
    (d : Directory disk bs)
    → ktfs_open disk (some (c ∷ cs)) uio files
      ≡ opened_named disk uio files (first_named (c ∷ cs) (take (d.root.size / 16) (entries bs)))
unfolding ktfs_open
ktfs_open-first_named disk c cs uio files bs d =
    let sb = superblock_of d.super in
    let num = d.root.size / 16 in
    let es = take num (entries bs) in
    let len : num ≡ length es =
      omega (arith, length-take num (entries bs), length-entries bs, d.enough) in
    let (final, answer) = opened-seek disk uio files (c ∷ cs) es num len in
    let same_search = search_directory-flat disk sb (c ∷ cs) num d.root (seek (c ∷ cs) es 0) final (
      search_entries disk sb (c ∷ cs) num (pointers disk sb d.root) bs 0 d.blocks_read
        (omega (arith, d.enough))
      ∙ ap (λ (k : ℕ). seek (c ∷ cs) (take k (entries bs)) 0) {x = num - 0} {y = num}
          (omega arith)) in
    ap (open_super disk (c ∷ cs) uio files) d.super_read
    ∙ ap (open_root disk sb (c ∷ cs) uio files) d.root_read
    ∙ ap (opened disk uio files) same_search
    ∙ answer
