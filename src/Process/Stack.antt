-- ===== src/Process/Stack.antt =====
-- `build_stack` of src/modified/sys/process.c: the first page of a program's stack.
--
-- The arguments are the lists of their bytes, without the final zero.
use unix_like_operating_syst.Base.{
  ℕ, ◌+◌, ◌-◌, ◌*◌, ◌/◌, ◌%◌, ◌≡◌, ◌<◌, ◌≤◌, refl, inl, inr, Option, none, some, List, [], ◌∷◌,
  ◌++◌, map, arith, ltb, if◌then◌else◌, Bool-cases, length,
}
use unix_like_operating_syst.Base.Results.{Result, ok, err, enomem}

-- The page: the offset of `argv` in it, the pointers there, and what is copied to each offset.
pub record StackPage : Type 0 where
  pub size : ℕ
  pub argv_at : ℕ
  pub argv : List ℕ
  pub strings : List (ℕ × List ℕ)

-- The loop that adds up the sizes of the strings, none where they do not fit.
pub add_sizes : List (List ℕ) → ℕ → Option ℕ
add_sizes [] stksz = some stksz
add_sizes (arg ∷ args) stksz =
    let rest = add_sizes args (stksz + (length arg + 1)) in
    if ltb (4096 - stksz) (length arg + 1) then none else rest

-- The loop that copies the strings, from an offset on.
pub copy_strings : List (List ℕ) → ℕ → List (ℕ × List ℕ)
copy_strings [] p = []
copy_strings (arg ∷ args) p = (p, arg ++ (0 ∷ [])) ∷ copy_strings args (p + (length arg + 1))

-- The address of an offset of the stack's page for the program, `UMEM_END_VMA - PAGE_SIZE` and it
abbrev pub user_address : ℕ → ℕ
user_address offset = 0x100000000 - 4096 + offset

abbrev pub fill : List (List ℕ) → ℕ → StackPage
fill args stksz =
    let strings = copy_strings args (4096 - stksz + (length args + 1) * 8) in
    record {
      size = stksz;
      argv_at = 4096 - stksz;
      argv = map (λ s. user_address s.0) strings ++ (0 ∷ []);
      strings = strings;
    }

abbrev pub round_up : ℕ → ℕ
round_up n = (n + 16 - 1) / 16 * 16

abbrev pub sized_stack : List (List ℕ) → Option ℕ → Result StackPage
sized_stack args none = err enomem
sized_stack args (some stksz) = ok (fill args (round_up stksz))

-- `build_stack`
pub build_stack : List (List ℕ) → Result StackPage
build_stack args =
    if ltb (4096 / 8 - 1) (length args)
    then err enomem
    else sized_stack args (add_sizes args ((length args + 1) * 8))

-- The bytes of the strings, with their final zeros.
abbrev pub string_bytes : List (List ℕ) → ℕ
string_bytes [] = 0
string_bytes (arg ∷ args) = length arg + 1 + string_bytes args

-- The strings stand one behind the other from an offset on, up to the page's end at most.
abbrev pub Laid : ℕ → List (List ℕ) → List (ℕ × List ℕ) → Type 0
Laid p [] [] = p ≤ 4096
Laid p [] (s ∷ ss) = ⊥
Laid p (arg ∷ args) [] = ⊥
Laid p (arg ∷ args) (s ∷ ss) = (s ≡ (p, arg ++ (0 ∷ []))) × Laid (p + (length arg + 1)) args ss

-- What the program needs: the pointers and the strings.
abbrev pub needs : List (List ℕ) → ℕ
needs args = (length args + 1) * 8 + string_bytes args

abbrev pub StackFits : List (List ℕ) → Result StackPage → Type 0
StackFits args (ok s) =
    (needs args ≤ s.size)
    × (s.size ≤ 4096)
    × (s.size % 16 ≡ 0)
    × (s.argv_at + s.size ≡ 4096)
    × Laid (s.argv_at + (length args + 1) * 8) args s.strings
    × (s.argv ≡ map (λ t. user_address t.0) s.strings ++ (0 ∷ []))
StackFits args (err e) = (e ≡ enomem) × (4096 < needs args)

-- The sum, or none and the sum is too large.
abbrev Adds : List (List ℕ) → ℕ → Option ℕ → Type 0
Adds args stksz none = 4096 < stksz + string_bytes args
Adds args stksz (some n) = (n ≡ stksz + string_bytes args) × (n ≤ 4096)

Adds-next :
    (arg : List ℕ) (args : List (List ℕ)) (stksz : ℕ) (o : Option ℕ)
    → Adds args (stksz + (length arg + 1)) o
    → Adds (arg ∷ args) stksz o
Adds-next arg args stksz none h = omega (arith, h)
Adds-next arg args stksz (some n) (e, h) = (omega (arith, e), h)

add_sizes-Adds :
    (args : List (List ℕ)) (stksz : ℕ) → stksz ≤ 4096 → Adds args stksz (add_sizes args stksz)
unfolding add_sizes
add_sizes-Adds [] stksz h = (omega arith, h)
add_sizes-Adds (arg ∷ args) stksz h = elim (Bool-cases (ltb (4096 - stksz) (length arg + 1))) [
  | inl y ↦ rw y (ground (arith, y, h))
  | inr n ↦ rw n (
      Adds-next arg args stksz (add_sizes args (stksz + (length arg + 1)))
        (add_sizes-Adds args (stksz + (length arg + 1)) (ground (arith, n, h))))
]

copy_strings-Laid :
    (args : List (List ℕ)) (p : ℕ)
    → p + string_bytes args ≤ 4096
    → Laid p args (copy_strings args p)
unfolding copy_strings
copy_strings-Laid [] p h = omega (arith, h)
copy_strings-Laid (arg ∷ args) p h =
    (refl, copy_strings-Laid args (p + (length arg + 1)) (omega (arith, h)))

sized_stack-StackFits :
    (args : List (List ℕ)) (o : Option ℕ)
    → Adds args ((length args + 1) * 8) o
    → StackFits args (sized_stack args o)
sized_stack-StackFits args none h = (refl, h)
sized_stack-StackFits args (some n) (e, h) =
    let r : n ≤ round_up n = omega arith in
    let top : round_up n ≤ 4096 = omega (arith, h) in
    (
      omega (arith, e, r),
      top,
      omega arith,
      omega (arith, top),
      copy_strings-Laid args (4096 - round_up n + (length args + 1) * 8) (omega (arith, e, r, top)),
      refl,
    )

-- `build_stack` succeeds just where the pointers and strings fit in a page, else it answers
-- `ENOMEM`. Then the size is a multiple of 16 and at most a page, `argv` stands so many bytes before
-- the page's end, the strings stand behind it one after the other inside the page, and each pointer
-- is the address of its string, with a null at the end.
pub build_stack-StackFits : (args : List (List ℕ)) → StackFits args (build_stack args)
unfolding build_stack
build_stack-StackFits args = elim (Bool-cases (ltb 511 (length args))) [
  | inl y ↦ rw y (refl, ground (arith, y))
  | inr n ↦ rw n (
      sized_stack-StackFits args (add_sizes args ((length args + 1) * 8))
        (add_sizes-Adds args ((length args + 1) * 8) (ground (arith, n))))
]
