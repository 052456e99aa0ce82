-- ===== src/Filesys/Path.antt =====
-- Paths of src/modified/sys/filesys.c: the parser, and what it parses.
use unix_like_operating_syst.Base.{
  ℕ, ◌≡◌, ◌≢◌, refl, ◌⊎◌, false, Option, none, some, [], ◌∷◌, ◌++◌, ◌==◌, All,
}
use unix_like_operating_syst.Base.Results.{Result, ok, err, einval}
use unix_like_operating_syst.Filesys.{Name, slash, at_slash, is_root, named, parse_path}

-- No byte of the name is a slash.
abbrev pub Plain : Name → Type 0
Plain = All (λ x. (x == slash) ≡ false)

-- What a path is: the root, a name, a slash and a file's name, or no path.
abbrev pub Parses : Name → Result (Name × Option Name) → Type 0
Parses path (ok (mp, none)) = (path ≡ slash ∷ []) × (mp ≡ [])
Parses path (ok (mp, some fl)) = (path ≡ mp ++ (slash ∷ fl)) × Plain mp × (mp ≢ [])
Parses path (err e) = (e ≡ einval) × (Plain path ⊎ ((fl : Name) × (path ≡ slash ∷ fl)))

abbrev Cuts : Name → Option (Name × Name) → Type 0
Cuts path none = Plain path
Cuts path (some (pre, post)) = (path ≡ pre ++ (slash ∷ post)) × Plain pre

at_slash-append :
    (pre post : Name) → Plain pre → at_slash (pre ++ (slash ∷ post)) ≡ some (pre, post)
unfolding at_slash
at_slash-append [] post h = refl
at_slash-append (x ∷ pre) post h = rw (h.0, at_slash-append pre post h.1) refl

not_root : (x : ℕ) (pre post : Name) → is_root (x ∷ (pre ++ (slash ∷ post))) ≡ false
not_root x [] post = refl
not_root x (y ∷ pre) post = refl

-- A mount point's name that is not empty and has no slash, a slash, and any file's name, also an
-- empty one or one with slashes, parse to the two names.
pub parse_path-join :
    (x : ℕ) (mp fl : Name)
    → Plain (x ∷ mp)
    → parse_path ((x ∷ mp) ++ (slash ∷ fl)) ≡ ok (x ∷ mp, some fl)
unfolding parse_path named
parse_path-join x mp fl h = rw (not_root x mp fl, at_slash-append (x ∷ mp) fl h) refl
