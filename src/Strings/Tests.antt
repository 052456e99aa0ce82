-- ===== src/Strings/Tests.antt =====
-- The string functions of src/provided/sys/string.c on short strings, and the comparison of
-- src/provided/usr/string.c that ignores the case.
use unix_like_operating_syst.Base.{◌≡◌, refl, true, [], ◌∷◌, arith}
use unix_like_operating_syst.Base.Ints.{pos}
use unix_like_operating_syst.Strings.{strncasecmp, format_int}
use unix_like_operating_syst.Strings.Numbers.{Reads, strtoul-format_int}

strtoul-format_int_example : Reads 10 1207 (format_int 1207 10 true 8)
strtoul-format_int_example = strtoul-format_int 8 1207 8 (omega arith) (omega arith) (omega arith)

-- `aB` and `AC` differ behind their first letters, but the comparison stops there.
strncasecmp_stops : strncasecmp (97 ∷ 66 ∷ []) (65 ∷ 67 ∷ []) 2 ≡ pos 0
unfolding strncasecmp
strncasecmp_stops = refl
