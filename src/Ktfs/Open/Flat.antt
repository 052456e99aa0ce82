-- ===== src/Ktfs/Open/Flat.antt =====
-- The nested loops of `ktfs_open` of src/modified/sys/ktfs.c against one loop over the list of all
-- pointers.
use unix_like_operating_syst.Base.{
  ℕ, zero, suc, ◌+◌, ◌≡◌, ◌<◌, ◌≤◌, refl, sym, ap, ◌∙◌, inl, inr, false, List, [], ◌∷◌, ◌++◌, arith,
  ltb, ◌==◌, Bool-cases,
}
use mathlib.Core.Path.{fun_ext, subst}
use unix_like_operating_syst.Base.Results.{Result, ok, err}
use unix_like_operating_syst.Filesys.{Name, same}
use unix_like_operating_syst.Ktfs.Disk.{Disk, Superblock, Inode, words, data_pos, dentry_of}
use unix_like_operating_syst.Ktfs.Disk.Pointers.{
  in_block, behind, behind_block, doubly, singly, pointers,
}
use unix_like_operating_syst.Ktfs.Open.{
  c_name, Search, more, found, failed, and_search, scan_entries, search_block, search_pointers,
  search_behind, search_indirect, search_inner, search_double, search_outer, unless_all,
  search_directory,
}

and_search_assoc :
    (s : Search) (f g : ℕ → Search)
    → and_search (and_search s f) g ≡ and_search s (λ i. and_search (f i) g)
unfolding and_search
and_search_assoc (more i) f g = refl
and_search_assoc (found e) f g = refl
and_search_assoc (failed e) f g = refl

-- An end of the search: an entry, or all of them seen.
abbrev pub Final : ℕ → Search → Type 0
Final num (more i) = i ≡ num
Final num (found e) = Unit
Final num (failed e) = ⊥

abbrev AtMost : ℕ → Search → Type 0
AtMost num (more i) = i ≤ num
AtMost num (found e) = Unit
AtMost num (failed e) = Unit

and_search-AtMost :
    (num : ℕ) (s : Search) (f : ℕ → Search)
    → AtMost num s
    → ((i : ℕ) → i ≤ num → AtMost num (f i))
    → AtMost num (and_search s f)
unfolding and_search
and_search-AtMost num (more i) f b h = h i b
and_search-AtMost num (found e) f b h = tt
and_search-AtMost num (failed e) f b h = tt

module _ (disk : Disk) (sb : Superblock) (name : Name) (num : ℕ) where
  scan_entries-AtMost :
      (n k i : ℕ) (b : List ℕ) → i ≤ num → AtMost num (scan_entries disk sb name num n k i b)
  unfolding scan_entries
  scan_entries-AtMost zero k i b h = h
  scan_entries-AtMost (suc n) k i b h = elim (Bool-cases (ltb i num)) [
    | inl y ↦ elim (Bool-cases (same (c_name (dentry_of k b).name) name)) [
      | inl t ↦ rw y (rw t tt)
      | inr f ↦ rw y (rw f (scan_entries-AtMost n (k + 1) (i + 1) b (ground (arith, y))))
    ]
    | inr f ↦ rw f h
  ]

  search_block-AtMost :
      (r : Result (List ℕ)) (i : ℕ) → i ≤ num → AtMost num (search_block disk sb name num r i)
  unfolding search_block
  search_block-AtMost (ok b) i h = scan_entries-AtMost 32 0 i b h
  search_block-AtMost (err e) i h = tt

  search_pointers-AtMost :
      (ps : List ℕ) (i : ℕ) → i ≤ num → AtMost num (search_pointers disk sb name num ps i)
  unfolding search_pointers
  search_pointers-AtMost [] i h = h
  search_pointers-AtMost (p ∷ ps) i h = elim (Bool-cases (ltb i num)) [
    | inl y ↦ rw y (
        and_search-AtMost num (search_block disk sb name num (disk (data_pos sb p)) i)
          (search_pointers disk sb name num ps) (search_block-AtMost (disk (data_pos sb p)) i h)
          (search_pointers-AtMost ps))
    | inr f ↦ rw f h
  ]

  -- Where all entries have been seen, nothing more is read.
  pub all_seen :
      (ps : List ℕ) (i : ℕ) → ltb i num ≡ false → search_pointers disk sb name num ps i ≡ more i
  unfolding search_pointers
  all_seen [] i h = refl
  all_seen (p ∷ ps) i h = rw h refl

  search_pointers-append :
      (ps qs : List ℕ) (i : ℕ)
      → search_pointers disk sb name num (ps ++ qs) i
        ≡ and_search (search_pointers disk sb name num ps i) (search_pointers disk sb name num qs)
  unfolding search_pointers and_search
  search_pointers-append [] qs i = refl
  search_pointers-append (p ∷ ps) qs i = elim (Bool-cases (ltb i num)) [
    | inl y ↦ rw y (
        ap (and_search (search_block disk sb name num (disk (data_pos sb p)) i))
          (fun_ext (search_pointers-append ps qs))
        ∙ sym (
            and_search_assoc (search_block disk sb name num (disk (data_pos sb p)) i)
              (search_pointers disk sb name num ps) (search_pointers disk sb name num qs)))
    | inr f ↦ rw f (sym (all_seen qs i f))
  ]

  -- What follows a loop ends as the one loop over the pointers that follow.
  abbrev Follows : List ℕ → (ℕ → Search) → Search → Type 0
  Follows rest k w = (i : ℕ) → i ≤ num → search_pointers disk sb name num rest i ≡ w → k i ≡ w

  follow_search :
      (s : Search) (rest : List ℕ) (k : ℕ → Search) (w : Search)
      → AtMost num s
      → Follows rest k w
      → and_search s (search_pointers disk sb name num rest) ≡ w
      → and_search s k ≡ w
  unfolding and_search
  follow_search (more i) rest k w b h e = h i b e
  follow_search (found x) rest k w b h e = e
  follow_search (failed x) rest k w b h e = e

  -- Nothing to search, but entries not seen: no end.
  stuck :
      (i : ℕ) (w : Search) → Final num w → i < num → search_pointers disk sb name num [] i ≡ w → ⊥
  unfolding search_pointers
  stuck i w final lt e = end (subst (Final num) (sym e) final)
    where
      end : i ≡ num → ⊥
      end same = absurd (omega (arith, same, lt))

  follow_behind :
      (r : Result (List ℕ)) (rest : List ℕ) (k : ℕ → Search) (w : Search)
      → Final num w
      → Follows rest k w
      → (i : ℕ) → i < num
      → search_pointers disk sb name num (in_block r rest) i ≡ w
      → and_search (search_behind disk sb name num r i) k ≡ w
  unfolding search_behind
  follow_behind (ok b) rest k w final h i lt e =
      follow_search (search_pointers disk sb name num (words 128 b) i) rest k w
        (search_pointers-AtMost (words 128 b) i (omega (arith, lt))) h
        (sym (search_pointers-append (words 128 b) rest i) ∙ e)
  follow_behind (err x) rest k w final h i lt e = absurd (stuck i w final lt e)

  -- With all entries seen, one loop ends as any other.
  same_end :
      (ps qs : List ℕ) (i : ℕ) (w : Search)
      → ltb i num ≡ false
      → search_pointers disk sb name num ps i ≡ w
      → search_pointers disk sb name num qs i ≡ w
  same_end ps qs i w f e = all_seen qs i f ∙ sym (all_seen ps i f) ∙ e

  follow_inner :
      (ps rest : List ℕ) (k : ℕ → Search) (w : Search)
      → Final num w
      → Follows rest k w
      → Follows (behind disk sb ps rest) (λ i. and_search (search_inner disk sb name num ps i) k) w
  unfolding search_inner and_search
  follow_inner [] rest k w final h i le e = h i le e
  follow_inner (p ∷ ps) rest k w final h i le e = elim (Bool-cases (ltb i num)) [
    | inl y ↦ rw y (
        and_search_assoc (search_behind disk sb name num (disk (data_pos sb p)) i)
          (search_inner disk sb name num ps) k
        ∙ follow_behind (disk (data_pos sb p)) (behind disk sb ps rest)
            (λ j. and_search (search_inner disk sb name num ps j) k) w final
            (follow_inner ps rest k w final h) i (ground (arith, y)) e)
    | inr f ↦ rw f (h i le (same_end (behind disk sb (p ∷ ps) rest) rest i w f e))
  ]

  follow_double :
      (r : Result (List ℕ)) (rest : List ℕ) (k : ℕ → Search) (w : Search)
      → Final num w
      → Follows rest k w
      → (i : ℕ) → i < num
      → search_pointers disk sb name num (behind_block disk sb r rest) i ≡ w
      → and_search (search_double disk sb name num r i) k ≡ w
  unfolding search_double
  follow_double (ok b) rest k w final h i lt e =
      follow_inner (words 128 b) rest k w final h i (omega (arith, lt)) e
  follow_double (err x) rest k w final h i lt e = absurd (stuck i w final lt e)

  nothing : (i : ℕ) → more i ≡ search_pointers disk sb name num [] i
  unfolding search_pointers
  nothing i = refl

  follow_outer :
      (ds : List ℕ) (w : Search)
      → Final num w
      → Follows (doubly disk sb ds) (search_outer disk sb name num ds) w
  unfolding search_outer
  follow_outer [] w final i le e = nothing i ∙ e
  follow_outer (d ∷ ds) w final i le e = elim (Bool-cases (ltb i num)) [
    | inl y ↦ rw y (
        follow_double (disk (data_pos sb d)) (doubly disk sb ds) (search_outer disk sb name num ds)
          w final (follow_outer ds w final) i (ground (arith, y)) e)
    | inr f ↦ rw f (sym (all_seen (doubly disk sb (d ∷ ds)) i f) ∙ e)
  ]

  follow_indirect :
      (d : ℕ) (rest : List ℕ) (k : ℕ → Search) (w : Search)
      → Final num w
      → Follows rest k w
      → (i : ℕ) → i < num
      → search_pointers disk sb name num (singly disk sb d rest) i ≡ w
      → and_search (search_indirect disk sb name num d i) k ≡ w
  unfolding search_indirect and_search
  follow_indirect zero rest k w final h i lt e = h i (omega (arith, lt)) e
  follow_indirect (suc d) rest k w final h i lt e =
      follow_behind (disk (data_pos sb (suc d))) rest k w final h i lt e

  follow_unless :
      (rest : List ℕ) (k : ℕ → Search) (w : Search)
      → ((i : ℕ) → i < num → search_pointers disk sb name num rest i ≡ w → k i ≡ w)
      → Follows rest (unless_all disk sb name num k) w
  follow_unless rest k w h i le e = elim (Bool-cases (i == num)) [
    | inl y ↦ let f : ltb i num ≡ false = ground (arith, y) in rw y (sym (all_seen rest i f) ∙ e)
    | inr n ↦ rw n (h i (ground (arith, n, le)) e)
  ]

  -- Where the one loop over all pointers ends with an entry, or with all entries seen, the nested
  -- loops do the same.
  pub search_directory-flat :
      (root : Inode) (w : Search)
      → Final num w
      → search_pointers disk sb name num (pointers disk sb root) 0 ≡ w
      → search_directory disk sb name num root ≡ w
  unfolding search_directory pointers
  search_directory-flat root w final e =
      let ds = root.dindirect in
      let rest = singly disk sb root.indirect (doubly disk sb ds) in
      let last = unless_all disk sb name num (search_outer disk sb name num ds) in
      let k = λ (i : ℕ). and_search (search_indirect disk sb name num root.indirect i) last in
      follow_search (search_pointers disk sb name num root.block 0) rest
        (unless_all disk sb name num k) w (search_pointers-AtMost root.block 0 (omega arith))
        (follow_unless rest k w (
          follow_indirect root.indirect (doubly disk sb ds) last w final (
            follow_unless (doubly disk sb ds) (search_outer disk sb name num ds) w
              (λ i lt. follow_outer ds w final i (omega (arith, lt))))))
        (sym (search_pointers-append root.block rest 0) ∙ e)
