-- ===== src/Filesys/Mount.antt =====
-- Mount points of src/modified/sys/filesys.c: what is attached is found, and is listed in order.
use unix_like_operating_syst.Base.{
  ℕ, zero, suc, ◌-◌, ◌≡◌, ◌≢◌, refl, ap, ◌∙◌, inl, inr, true, false, none, some, List, [], ◌∷◌,
  ◌++◌, arith, ltb, ◌==◌, if◌then◌else◌, Bool-cases, ==→eq, eq→==, length, take, replicate, map,
  length-take, take-append_left,
}
use unix_like_operating_syst.Base.Results.{Result, ok, err, eexist}
use unix_like_operating_syst.Filesys.{
  Name, same, Filesystem, Mountpoint, getfs, attach_filesystem, mounted_before, fs_listing_read,
}

not_true : false ≢ true
not_true e = cc e

same_lem : (xs ys : Name) → same xs ys ≡ true → xs ≡ ys
unfolding same
same_lem [] [] e = refl
same_lem [] (y ∷ ys) e = cc e
same_lem (x ∷ xs) [] e = cc e
same_lem (x ∷ xs) (y ∷ ys) e = elim (Bool-cases (x == y)) [
  | inl a ↦ ap (λ k. k ∷ xs) (==→eq x y a) ∙ ap (λ l. y ∷ l) (same_lem xs ys (rw a at e))
  | inr n ↦ absurd (not_true (rw n at e))
]

same_self : (xs : Name) → same xs xs ≡ true
unfolding same
same_self [] = refl
same_self (x ∷ xs) = rw (eq→== x x refl) (same_self xs)

read_bytes :
    (xs : Name) (n : ℕ)
    → take (if ltb (length xs) n then length xs else n) (take n xs ++ replicate (n - length xs) 0)
      ≡ take n xs
read_bytes xs n =
    take-append_left (if ltb (length xs) n then length xs else n) (take n xs)
      (replicate (n - length xs) 0) (length-take n xs ∙ ground arith)

module _ {W : Type 0} where
  -- Attached last, where no mount point has the name; refused where one has.
  abbrev pub Attaches :
      Name → Filesystem W → List (Mountpoint W) → Result (Unit {0}) × List (Mountpoint W) → Type 0
  Attaches n fs ms (ok _, ms') =
      (getfs n ms ≡ none)
      × (getfs n ms' ≡ some fs)
      × (ms' ≡ ms ++ (record { name = n; fs = fs } ∷ []))
  Attaches n fs ms (err e, ms') = (e ≡ eexist) × (getfs n ms ≢ none) × (ms' ≡ ms)

  before-Attaches :
      (n : Name) (fs : Filesystem W) (m : Mountpoint W) (ms : List (Mountpoint W))
      (r : Result (Unit {0}) × List (Mountpoint W))
      → same m.name n ≡ false
      → Attaches n fs ms r
      → Attaches n fs (m ∷ ms) (mounted_before m r)
  unfolding getfs
  before-Attaches n fs m ms (ok _, ms') e h = simp e (h.0, h.1, ap (λ l. m ∷ l) h.2)
  before-Attaches n fs m ms (err _, ms') e h = simp e (h.0, h.1, ap (λ l. m ∷ l) h.2)

  -- `attach_filesystem` puts a file system behind those that are mounted, where it is found under
  -- its name, unless the name is taken already: then it answers EEXIST and changes nothing.
  pub attach_filesystem-Attaches :
      (n : Name) (fs : Filesystem W) (ms : List (Mountpoint W))
      → Attaches n fs ms (attach_filesystem n fs ms)
  unfolding attach_filesystem getfs
  attach_filesystem-Attaches n fs [] = rw (same_self n) (refl, refl, refl)
  attach_filesystem-Attaches n fs (m ∷ ms) = elim (Bool-cases (same m.name n)) [
    | inl y ↦ simp y (refl, (λ e. cc e), refl)
    | inr f ↦ simp f (
        before-Attaches n fs m ms (attach_filesystem n fs ms) f
          (attach_filesystem-Attaches n fs ms))
  ]

  -- The names that reads of the listing give, each into a buffer of this size.
  abbrev pub read_all : ℕ → ℕ → List (Mountpoint W) → List (List ℕ)
  read_all zero bufsz ms = []
  read_all (suc n) bufsz ms =
      let (len, buf, rest) = fs_listing_read bufsz ms in take len buf ∷ read_all n bufsz rest

  -- Reads of the listing, one for each mount point, give the names in the order of the mounts, each
  -- cut at the buffer's size; the read after them answers 0.
  pub read_all-names :
      (bufsz : ℕ) (ms : List (Mountpoint W))
      → read_all (length ms) bufsz ms ≡ map (λ (m : Mountpoint W). take bufsz m.name) ms
  unfolding fs_listing_read
  read_all-names bufsz [] = refl
  read_all-names bufsz (m ∷ ms) =
      ap (λ l. l ∷ read_all (length ms) bufsz ms) (read_bytes m.name bufsz)
      ∙ ap (λ (l : List (List ℕ)). take bufsz m.name ∷ l) (read_all-names bufsz ms)
