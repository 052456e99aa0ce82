-- ===== src/Strings.antt =====
-- The string functions of src/provided/sys/string.c, and `strncasecmp` of src/provided/usr/string.c.
--
-- A string is the list of its bytes, without the final zero; behind its end a zero is read. `char`
-- is unsigned, as on RISC-V.
pub mod Compare
pub mod Numbers
mod Tests
use unix_like_operating_syst.Base.{
  ℕ, zero, suc, ◌+◌, ◌-◌, ◌*◌, ◌/◌, ◌%◌, ◌^◌, Bool, true, false, not, ◌&&◌, ◌||◌, Option, none,
  some, List, [], ◌∷◌, ◌++◌, leb, ltb, ◌==◌, if◌then◌else◌, length, replicate,
}
use unix_like_operating_syst.Base.Ints.{ℤ, pos, negsuc}

abbrev pub Str : Type 0
Str = List ℕ

-- `*s`
abbrev pub first : Str → ℕ
first [] = 0
first (c ∷ s) = c

-- `s + 1`
abbrev pub rest : Str → Str
rest [] = []
rest (c ∷ s) = s

abbrev pub compared : ℕ → ℕ → ℤ
compared a b = if ltb a b then negsuc 0 else if ltb b a then pos 1 else pos 0

-- The loop of `strcmp`, and the comparison of the bytes where it ends.
pub strcmp_loop : Str → Str → ℤ
strcmp_loop [] t = compared 0 (first t)
strcmp_loop (c ∷ s) t =
    let later = strcmp_loop s (rest t) in
    if c == first t && not (c == 0) then later else compared c (first t)

-- `strcmp` on strings that may be null
pub strcmp : Option Str → Option Str → ℤ
strcmp none none = pos 0
strcmp none (some t) = negsuc 0
strcmp (some s) none = pos 1
strcmp (some s) (some t) = strcmp_loop s t

abbrev pub difference : ℕ → ℕ → ℤ
difference a b = if ltb a b then negsuc (b - a - 1) else pos (a - b)

-- `strncmp`: the difference of two bytes, as an `int`.
pub strncmp : Str → Str → ℕ → ℤ
strncmp s t zero = pos 0
strncmp [] t (suc n) = difference 0 (first t)
strncmp (c ∷ s) t (suc n) =
    let later = strncmp s (rest t) n in
    if not (c == 0) && c == first t then later else difference c (first t)

abbrev pub islower : ℕ → Bool
islower c = leb 97 c && leb c 122

abbrev pub toupper : ℕ → ℕ
toupper c = if islower c then c - 97 + 65 else c

-- `strncasecmp`: its loop compares the bytes as they are.
pub strncasecmp : Str → Str → ℕ → ℤ
strncasecmp s t zero = pos 0
strncasecmp [] t (suc n) = difference (toupper 0) (toupper (first t))
strncasecmp (c ∷ s) t (suc n) =
    let later = strncasecmp s (rest t) n in
    if not (c == 0) && c == first t then later else difference (toupper c) (toupper (first t))

-- `format_int`'s digits
abbrev pub digit : ℕ → ℕ
digit d = if ltb d 10 then 48 + d else 97 + d - 10

-- The loop of `format_int` that writes digits before those that are there, so many at most.
pub format_digits : ℕ → ℕ → ℕ → Str → Str
format_digits base zero val buf = buf
format_digits base (suc n) val buf =
    let more = format_digits base n (val / base) (digit (val % base) ∷ buf) in
    if val / base == 0 then digit (val % base) ∷ buf else more

-- What `format_int` puts out: the padding, and the digits. A number has at most `val + 1` digits;
-- more than the 40 that `buf` has room for are written in front of it, which is `none`.
pub format_int : ℕ → ℕ → Bool → ℕ → Option Str
format_int val base zpad len =
    let digits = format_digits base (suc val) val [] in
    if ltb 40 (length digits)
    then none
    else some (replicate (len - length digits) (if zpad then 48 else 32) ++ digits)

-- The loop of `strtoul`: the number, and what follows its digits.
pub strtoul_loop : ℕ → ℕ → Str → ℕ × Str
strtoul_loop base val [] = (val, [])
strtoul_loop base val (c ∷ s) =
    let later = strtoul_loop base ((val * base % 2 ^ 64 + (c - 48)) % 2 ^ 64) s in
    if ltb c 48 || leb (48 + base) c then (val, c ∷ s) else later

abbrev pub negated : ℕ × Str → ℕ × Str
negated (val, s) = ((2 ^ 64 - val) % 2 ^ 64, s)

-- The sign that `strtoul` reads.
pub strtoul_sign : ℕ → Str → ℕ × Str
strtoul_sign base [] = strtoul_loop base 0 []
strtoul_sign base (c ∷ s) =
    if c == 45
    then negated (strtoul_loop base 0 s)
    else if c == 43
    then strtoul_loop base 0 s
    else strtoul_loop base 0 (c ∷ s)

-- `strtoul` on a string that is not null: the number and the end, which is null for a base that it
-- does not take.
pub strtoul : Str → ℕ → ℕ × Option Str
strtoul s base =
    let (val, end) = strtoul_sign base s in
    if leb base 1 || ltb 10 base then (2 ^ 64 - 1, none) else (val, some end)
