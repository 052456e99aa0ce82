-- ===== src/Process/Balance.antt =====
-- The reference counts of src/modified/sys/process.c: each is the number of descriptors of all
-- processes, and fork and exit keep that.
use unix_like_operating_syst.Base.{
  ℕ, zero, suc, ◌+◌, ◌*◌, ◌^◌, ◌≡◌, ◌<◌, ◌≤◌, refl, sym, ap, ◌∙◌, true, false, Bool, List, [], ◌∷◌,
  arith, length, set, get_or, All, All-append,
}
use mathlib.Core.Path.{subst}
use unix_like_operating_syst.Base.Results.{Result, ok, err}
use unix_like_operating_syst.Process.{
  UioTab, World, tab_of, with_tab, addref_all, close_all, cleared, forked, process_fork,
  process_exit,
}
use unix_like_operating_syst.Process.Counts.{
  count, total, count-le, total-set, total-append, count-le-total, count-cleared, addref_all-count,
  close_all-count, close_all-procs,
}

-- Each table has its size, and each count is the number of descriptors.
pub record Sound (w : World) : Type 0 where
  pub sized : All (λ tab. length tab ≡ 16) w.procs
  pub balanced : (u : ℕ) → w.refs u ≡ total u w.procs

-- There are few enough processes for the counts not to wrap.
abbrev pub Room : World → Type 0
Room w = length w.procs * 16 + 16 < 2 ^ 64

pub All-set {ℓ κ} :
    {A : Type ℓ} (P : A → Type κ) (xs : List A) (i : ℕ) (v : A)
    → All P xs
    → P v
    → All P (set xs i v)
All-set P [] i v h p = h
All-set P (x ∷ xs) zero v h p = (p, h.1)
All-set P (x ∷ xs) (suc i) v h p = (h.0, All-set P xs i v h.1 p)

pub All-get_or {ℓ κ} :
    {A : Type ℓ} (P : A → Type κ) (xs : List A) (i : ℕ) (d : A)
    → All P xs
    → i < length xs
    → P (get_or xs i d)
All-get_or P [] i d h lt = absurd (omega arith)
All-get_or P (x ∷ xs) zero d h lt = h.0
All-get_or P (x ∷ xs) (suc i) d h lt = All-get_or P xs i d h.1 (omega arith)

total-le :
    (u : ℕ) (tabs : List UioTab)
    → All (λ tab. length tab ≡ 16) tabs
    → total u tabs ≤ length tabs * 16
total-le u [] h = omega arith
total-le u (t ∷ tabs) h = omega (arith, total-le u tabs h.1, count-le u t, h.0)

pub refs-le : (w : World) (u : ℕ) → Sound w → w.refs u ≤ length w.procs * 16
refs-le w u s = omega (arith, s.balanced u, total-le u w.procs s.sized)

-- A change of one table that changes the counts alike.
pub Sound-with_tab :
    (w w' : World) (p : ℕ) (tab : UioTab)
    → Sound w
    → p < length w.procs
    → length tab ≡ 16
    → w'.procs ≡ set w.procs p tab
    → ((u : ℕ) → w'.refs u + count u (tab_of p w) ≡ w.refs u + count u tab)
    → Sound w'
Sound-with_tab w w' p tab s h len e f = record {
  sized =
      subst (All (λ t. length t ≡ 16)) (sym e)
        (All-set (λ t. length t ≡ 16) w.procs p tab s.sized len);
  balanced =
      λ u. omega (arith, f u, s.balanced u, total-set u w.procs p tab h) ∙ ap (total u) (sym e);
}

length-cleared : (tab : UioTab) → length (cleared tab) ≡ length tab
length-cleared [] = refl
length-cleared (o ∷ tab) = ap suc (length-cleared tab)

pub process_exit-Sound :
    (p : ℕ) (w : World) → Sound w → p < length w.procs → Sound (process_exit p w)
unfolding process_exit
process_exit-Sound p w s h =
    let tab = tab_of p w in
    Sound-with_tab w (with_tab p (cleared tab) (close_all tab w)) p (cleared tab) s h
      (length-cleared tab ∙ All-get_or (λ t. length t ≡ 16) w.procs p [] s.sized h)
      (ap (λ ps. set ps p (cleared tab)) (close_all-procs tab w))
      (λ u. omega (
        arith,
        close_all-count tab w u,
        count-cleared u tab,
        count-le-total u w.procs p,
        s.balanced u,
      ))

forked-Sound :
    (p : ℕ) (spawned : Result ℕ) (w : World)
    → Sound w
    → Room w
    → p < length w.procs
    → let tab = tab_of p w in
      Sound (forked tab spawned (record w { refs = addref_all tab w.refs })).1
unfolding forked
forked-Sound p (ok tid) w s room h =
    let tab = tab_of p w in
    let len : length tab ≡ 16 = All-get_or (λ t. length t ≡ 16) w.procs p [] s.sized h in
    record {
      sized = All-append (λ t. length t ≡ 16) w.procs (tab ∷ []) s.sized (len, tt);
      balanced = λ u.
          addref_all-count tab w.refs u (omega (arith, refs-le w u s, room, len))
          ∙ omega (arith, s.balanced u, total-append u w.procs (tab ∷ []));
    }
forked-Sound p (err e) w s room h =
    let tab = tab_of p w in
    let len : length tab ≡ 16 = All-get_or (λ t. length t ≡ 16) w.procs p [] s.sized h in
    let w1 : World = record w { refs = addref_all tab w.refs } in
    record {
      sized = subst (All (λ t. length t ≡ 16)) (sym (close_all-procs tab w1)) s.sized;
      balanced = λ u.
          close_all-count tab w1 u
          ∙ omega (
            arith,
            addref_all-count tab w.refs u (omega (arith, refs-le w u s, room, len)),
            s.balanced u,
          )
          ∙ ap (total u) (sym (close_all-procs tab w1));
    }

pub process_fork-Sound :
    (p : ℕ) (mem : Bool) (spawned : Result ℕ) (w : World)
    → Sound w
    → Room w
    → p < length w.procs
    → Sound (process_fork p mem spawned w).1
unfolding process_fork
process_fork-Sound p false spawned w s room h = s
process_fork-Sound p true spawned w s room h = forked-Sound p spawned w s room h
