-- ===== src/Process/Counts.antt =====
-- How often the tables of src/modified/sys/process.c hold an endpoint, and how the loops over a
-- table change the reference counts.
use unix_like_operating_syst.Base.{
  ℕ, zero, suc, ◌+◌, ◌-◌, ◌%◌, ◌^◌, ◌≡◌, ◌<◌, ◌≤◌, refl, ap, ◌∙◌, inl, inr, false, Option, none,
  some, List, [], ◌∷◌, ◌++◌, arith, ◌==◌, if◌then◌else◌, leb, Bool-cases, ==→eq, length, set,
  get_or,
}
use native.Mathlib.Nat.{mod-eq_of_lt}
use unix_like_operating_syst.Process.{
  UioTab, World, closed_if, addref, close_entry, addref_all, close_all, cleared,
}

-- 1 for an entry that is this endpoint.
abbrev pub one : ℕ → Option ℕ → ℕ
one u none = 0
one u (some v) = if v == u then 1 else 0

-- How many entries of a table are this endpoint.
abbrev pub count : ℕ → UioTab → ℕ
count u [] = 0
count u (o ∷ tab) = one u o + count u tab

-- How many entries of all tables are.
abbrev pub total : ℕ → List UioTab → ℕ
total u [] = 0
total u (tab ∷ tabs) = count u tab + total u tabs

pub one-le : (u : ℕ) (o : Option ℕ) → one u o ≤ 1
one-le u none = omega arith
one-le u (some v) = ground arith

pub count-le : (u : ℕ) (tab : UioTab) → count u tab ≤ length tab
count-le u [] = omega arith
count-le u (o ∷ tab) = omega (arith, one-le u o, count-le u tab)

pub count-set :
    (u : ℕ) (tab : UioTab) (i : ℕ) (o : Option ℕ)
    → i < length tab
    → count u (set tab i o) + one u (get_or tab i none) ≡ count u tab + one u o
count-set u [] i o h = absurd (omega arith)
count-set u (x ∷ tab) zero o h = omega arith
count-set u (x ∷ tab) (suc i) o h = omega (arith, count-set u tab i o (omega arith))

pub total-set :
    (u : ℕ) (tabs : List UioTab) (p : ℕ) (tab : UioTab)
    → p < length tabs
    → total u (set tabs p tab) + count u (get_or tabs p []) ≡ total u tabs + count u tab
total-set u [] p tab h = absurd (omega arith)
total-set u (t ∷ tabs) zero tab h = omega arith
total-set u (t ∷ tabs) (suc p) tab h = omega (arith, total-set u tabs p tab (omega arith))

pub total-append : (u : ℕ) (xs ys : List UioTab) → total u (xs ++ ys) ≡ total u xs + total u ys
total-append u [] ys = omega arith
total-append u (x ∷ xs) ys = omega (arith, total-append u xs ys)

pub count-le-total :
    (u : ℕ) (tabs : List UioTab) (p : ℕ) → count u (get_or tabs p []) ≤ total u tabs
count-le-total u [] p = omega arith
count-le-total u (t ∷ tabs) zero = omega arith
count-le-total u (t ∷ tabs) (suc p) = omega (arith, count-le-total u tabs p)

pub count-cleared : (u : ℕ) (tab : UioTab) → count u (cleared tab) ≡ 0
count-cleared u [] = refl
count-cleared u (o ∷ tab) = omega (arith, count-cleared u tab)

pub addref-one :
    (o : Option ℕ) (refs : ℕ → ℕ) (u : ℕ) → refs u < 2 ^ 64 - 1 → addref o refs u ≡ refs u + one u o
unfolding addref
addref-one none refs u h = omega arith
addref-one (some v) refs u h = elim (Bool-cases (v == u)) [
  | inl y ↦
      rw y (ap (λ (k : ℕ). (refs k + 1) % 2 ^ 64) (==→eq v u y) ∙ mod-eq_of_lt (omega (arith, h)))
  | inr n ↦ rw n (omega arith)
]

pub addref_all-count :
    (tab : UioTab) (refs : ℕ → ℕ) (u : ℕ)
    → refs u + length tab < 2 ^ 64
    → addref_all tab refs u ≡ refs u + count u tab
unfolding addref_all
addref_all-count [] refs u h = omega arith
addref_all-count (o ∷ tab) refs u h =
    let step = addref-one o refs u (omega (arith, h)) in
    omega (arith, addref_all-count tab (addref o refs) u (omega (arith, step, h, one-le u o)), step)

pub close_entry-one :
    (o : Option ℕ) (w : World) (u : ℕ) → (close_entry o w).refs u ≡ w.refs u - one u o
unfolding close_entry
close_entry-one none w u = omega arith
close_entry-one (some v) w u = elim (Bool-cases (v == u)) [
  | inl y ↦ rw y (ap (λ (k : ℕ). w.refs k - 1) (==→eq v u y))
  | inr n ↦ rw n (omega arith)
]

pub close_all-count :
    (tab : UioTab) (w : World) (u : ℕ) → (close_all tab w).refs u ≡ w.refs u - count u tab
unfolding close_all
close_all-count [] w u = omega arith
close_all-count (o ∷ tab) w u =
    omega (arith, close_all-count tab (close_entry o w) u, close_entry-one o w u)

pub close_entry-procs : (o : Option ℕ) (w : World) → (close_entry o w).procs ≡ w.procs
unfolding close_entry
close_entry-procs none w = refl
close_entry-procs (some v) w = refl

pub close_all-procs : (tab : UioTab) (w : World) → (close_all tab w).procs ≡ w.procs
unfolding close_all
close_all-procs [] w = refl
close_all-procs (o ∷ tab) w = close_all-procs tab (close_entry o w) ∙ close_entry-procs o w

-- A close calls the endpoint's close function just if one reference at most was left.
pub close_entry-closed :
    (u : ℕ) (w : World)
    → (close_entry (some u) w).closed ≡ (if leb (w.refs u) 1 then u ∷ w.closed else w.closed)
unfolding close_entry
close_entry-closed u w = go (w.refs u)
  where
    go : (n : ℕ) → closed_if (n - 1) u w.closed ≡ (if leb n 1 then u ∷ w.closed else w.closed)
    go zero = refl
    go (suc zero) = refl
    go (suc (suc n)) =
        let t : leb (suc (suc n)) 1 ≡ false = ground arith in
        ap (λ (k : ℕ). closed_if k u w.closed) {x = suc (suc n) - 1} {y = suc n} (omega arith)
        ∙ rw t refl

-- An endpoint in a table is counted.
pub count-get : (tab : List (Option ℕ)) (i u : ℕ) → get_or tab i none ≡ some u → 1 ≤ count u tab
count-get [] i u e = absurd (cc e)
count-get (o ∷ tab) zero u e = omega (arith, ap (one u) e, self u)
  where
    self : (u : ℕ) → one u (some u) ≡ 1
    self u = ground arith
count-get (o ∷ tab) (suc i) u e = omega (arith, count-get tab i u e)
