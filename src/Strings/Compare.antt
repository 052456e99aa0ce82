-- ===== src/Strings/Compare.antt =====
-- What `strcmp` and `strncmp` of src/provided/sys/string.c answer, against the order of strings.
use unix_like_operating_syst.Base.{
  ℕ, zero, suc, ◌≡◌, ◌≢◌, ◌<◌, ◌⊎◌, ◌↔◌, refl, ap, inl, inr, false, some, List, [], ◌∷◌, arith,
  ◌==◌, Bool-cases, ==→eq, ==→ne, lt→ltb, le→ltb, take, All,
}
use mathlib.Core.Path.{subst, ap₂}
use native.Mathlib.Decide.{dec_lt}
use unix_like_operating_syst.Base.Ints.{ℤ, pos, negsuc}
use unix_like_operating_syst.Strings.{Str, strcmp_loop, strcmp, difference, strncmp}

-- A C string has no zero inside.
abbrev pub NoZero : Str → Type 0
NoZero = All (λ c. 0 < c)

-- The order of the dictionary.
abbrev pub Before : Str → Str → Type 0
Before [] [] = ⊥
Before [] (d ∷ t) = Unit
Before (c ∷ s) [] = ⊥
Before (c ∷ s) (d ∷ t) = (c < d) ⊎ ((c ≡ d) × Before s t)

-- What an answer says of two strings.
abbrev pub Ordered : ℤ → Str → Str → Type 0
Ordered (pos zero) s t = s ≡ t
Ordered (pos (suc zero)) s t = Before t s
Ordered (pos (suc (suc n))) s t = ⊥
Ordered (negsuc zero) s t = Before s t
Ordered (negsuc (suc n)) s t = ⊥

Ordered-cons : (c : ℕ) (z : ℤ) (s t : Str) → Ordered z s t → Ordered z (c ∷ s) (c ∷ t)
Ordered-cons c (pos zero) s t h = ap (λ u. c ∷ u) h
Ordered-cons c (pos (suc zero)) s t h = inr (refl, h)
Ordered-cons c (pos (suc (suc n))) s t h = h
Ordered-cons c (negsuc zero) s t h = inr (refl, h)
Ordered-cons c (negsuc (suc n)) s t h = h

-- `strcmp` of two strings that are not null answers 0 just for equal strings, a negative number
-- where the first one stands before the second one in the dictionary, and a positive one where it
-- stands behind it.
pub strcmp-Ordered : (s t : Str) → NoZero s → NoZero t → Ordered (strcmp (some s) (some t)) s t
unfolding strcmp strcmp_loop
strcmp-Ordered [] [] hs ht = refl
strcmp-Ordered [] (d ∷ t) hs ht = rw (lt→ltb 0 d ht.0) tt
strcmp-Ordered (c ∷ s) [] hs ht =
    let ne : (c == 0) ≡ false = ground (arith, hs.0) in
    rw ne (rw (le→ltb c 0 (omega arith)) (rw (lt→ltb 0 c hs.0) tt))
strcmp-Ordered (c ∷ s) (d ∷ t) hs ht =
    let nz : (c == 0) ≡ false = ground (arith, hs.0) in
    elim (Bool-cases (c == d)) [
      | inl y ↦
          let e = ==→eq c d y in
          rw y (
            rw nz (
              subst (λ (k : ℕ). Ordered (strcmp_loop s t) (c ∷ s) (k ∷ t)) e
                (Ordered-cons c (strcmp_loop s t) s t (strcmp-Ordered s t hs.1 ht.1))))
      | inr f ↦
          let ne = ==→ne c d f in
          rw f (elim (dec_lt c d) [
            | yes lt ↦ rw (lt→ltb c d lt) (inl lt)
            | no ge ↦
                rw (le→ltb c d (omega (arith, ge)))
                  (rw (lt→ltb d c (omega (arith, ge, ne))) (inl (omega (arith, ge, ne))))
          ])
    ]

pos_inj : {a b : ℕ} → pos a ≡ pos b → a ≡ b
pos_inj e = cc e

cons_inj : {a b : ℕ} {xs ys : List ℕ} → (a ∷ xs) ≡ (b ∷ ys) → (a ≡ b) × (xs ≡ ys)
cons_inj e = (cc e, cc e)

-- The difference of two bytes that differ is not 0.
difference-ne : (a b : ℕ) → a ≢ b → difference a b ≡ pos 0 → ⊥
difference-ne a b ne e = elim (dec_lt a b) [
  | yes lt ↦ cc (rw (lt→ltb a b lt) at e)
  | no ge ↦ absurd (omega (arith, ne, ge, pos_inj (rw (le→ltb a b (omega (arith, ge))) at e)))
]

-- `strncmp` answers 0 just where the first `n` bytes agree, up to the ends of the strings.
pub strncmp-take :
    (s t : Str) (n : ℕ) → NoZero s → NoZero t → (strncmp s t n ≡ pos 0) ↔ (take n s ≡ take n t)
unfolding strncmp
strncmp-take s t zero hs ht = (λ e. refl, λ e. refl)
strncmp-take [] [] (suc n) hs ht = (λ e. refl, λ e. refl)
strncmp-take [] (d ∷ t) (suc n) hs ht = rw (lt→ltb 0 d ht.0) (λ e. cc e, λ e. cc e)
strncmp-take (c ∷ s) [] (suc n) hs ht =
    let ne : (c == 0) ≡ false = ground (arith, hs.0) in
    rw ne (λ e. absurd (difference-ne c 0 (omega (arith, hs.0)) e), λ e. cc e)
strncmp-take (c ∷ s) (d ∷ t) (suc n) hs ht =
    let nz : (c == 0) ≡ false = ground (arith, hs.0) in
    let ih = strncmp-take s t n hs.1 ht.1 in
    elim (Bool-cases (c == d)) [
      | inl y ↦
          let e = ==→eq c d y in
          rw nz
            (rw y (λ h. ap₂ (λ (x : ℕ) (xs : List ℕ). x ∷ xs) e (ih.0 h), λ h. ih.1 (cons_inj h).1))
      | inr f ↦
          let ne = ==→ne c d f in
          rw nz (rw f (λ h. absurd (difference-ne c d ne h), λ h. absurd (ne (cons_inj h).0)))
    ]
