-- ===== src/Syscall/Balance.antt =====
-- The system calls of src/modified/sys/syscall.c keep each endpoint's reference count at the number
-- of descriptors that hold it.
use unix_like_operating_syst.Base.{
  ℕ, ◌+◌, ◌≡◌, ◌≢◌, ◌<◌, refl, ap, ◌∙◌, inl, inr, Bool, Option, none, some, List, [], ◌∷◌, arith,
  put, ◌==◌, Bool-cases, ==→eq, ==→ne, length, set, get_or, length-set, get_or-set_ne, ne→==, leb,
  take,
}
use unix_like_operating_syst.Base.Results.{Result, ok, err}
use unix_like_operating_syst.Process.{UioTab, World, tab_of, process_fork, process_exit}
use unix_like_operating_syst.Process.Counts.{
  one, count, count-set, addref-one, close_entry-one, close_entry-procs, count-le-total,
}
use unix_like_operating_syst.Process.Balance.{
  Sound, Room, All-get_or, refs-le, Sound-with_tab, process_exit-Sound, process_fork-Sound,
}
use unix_like_operating_syst.Syscall.{
  ℤ, pos, negsuc, open_fd, installed, open_at, sysopen, entry, abs, close_found, sysclose, dup_fd,
  dup_at, dup_found, sysuiodup, pipe_fd, piped, pipe_read_end, pipe_write_end, syspipe,
}
use unix_like_operating_syst.Syscall.Table.{Vacant, open_fd-Vacant, dup_fd-Vacant, pipe_fd-Vacant}

tab-sized : (p : ℕ) (w : World) → Sound w → p < length w.procs → length (tab_of p w) ≡ 16
tab-sized p w s h = All-get_or (λ t. length t ≡ 16) w.procs p [] s.sized h

-- The count of a table with an endpoint put at a null entry.
count-Vacant :
    (v : ℕ) (tab : UioTab) (i u : ℕ)
    → length tab ≡ 16
    → Vacant tab i
    → count v (set tab i (some u)) ≡ count v tab + one v (some u)
count-Vacant v tab i u len (lt, e) =
    omega (arith, count-set v tab i (some u) (omega (arith, lt, len)), ap (one v) e)

put-one : (refs : ℕ → ℕ) (u v : ℕ) → refs u ≡ 0 → put refs u 1 v ≡ refs v + one v (some u)
put-one refs u v e = elim (Bool-cases (u == v)) [
  | inl y ↦ rw y (omega (arith, e, ap refs (==→eq u v y)))
  | inr n ↦ rw n (omega arith)
]

-- An endpoint without references is what a successful open gives.
abbrev pub Fresh : World → Result ℕ → Type 0
Fresh w (ok u) = w.refs u ≡ 0
Fresh w (err e) = Unit

open_at-Sound :
    (p : ℕ) (fd opened : Result ℕ) (w : World)
    → Sound w
    → p < length w.procs
    → ((i : ℕ) → fd ≡ ok i → Vacant (tab_of p w) i)
    → Fresh w opened
    → Sound (open_at p fd opened w).1
open_at-Sound p (err e) opened w s h v f = s
open_at-Sound p (ok i) (err e) w s h v f = s
open_at-Sound p (ok i) (ok u) w s h v f =
    let tab = tab_of p w in
    let len = tab-sized p w s h in
    Sound-with_tab w (installed p i u w) p (set tab i (some u)) s h
      (length-set tab i (some u) ∙ len) refl
      (λ x. omega (arith, count-Vacant x tab i u len (v i refl), put-one w.refs u x f))

sysopen-Sound :
    (p : ℕ) (valid : Result (Unit {0})) (fd : ℤ) (path : List ℕ) (open_path : List ℕ → Result ℕ)
    (w : World)
    → Sound w
    → p < length w.procs
    → Fresh w (open_path (take 127 path))
    → Sound (sysopen p valid fd path open_path w).1
unfolding sysopen
sysopen-Sound p (err e) fd path open_path w s h f = s
sysopen-Sound p (ok _) fd path open_path w s h f =
    open_at-Sound p (open_fd (tab_of p w) fd) (open_path (take 127 path)) w s h
      (open_fd-Vacant (tab_of p w) fd) f

-- What a descriptor's entry says of the table.
pub entry-get :
    (tab : UioTab) (fd : ℤ) (u : ℕ)
    → entry tab fd ≡ some u
    → (abs fd < 16) × (get_or tab (abs fd) none ≡ some u)
unfolding entry
entry-get tab (pos n) u e = elim (Bool-cases (leb 16 n)) [
  | inl y ↦ cc (rw y at e)
  | inr f ↦ (ground (arith, f), rw f at e)
]
entry-get tab (negsuc n) u e = cc e

close_found-Sound :
    (p fd : ℕ) (o : Option ℕ) (w : World)
    → Sound w
    → p < length w.procs
    → ((u : ℕ) → o ≡ some u → (fd < 16) × (get_or (tab_of p w) fd none ≡ some u))
    → Sound (close_found p fd o w).1
close_found-Sound p fd none w s h g = s
close_found-Sound p fd (some u) w s h g =
    let tab = tab_of p w in
    let len = tab-sized p w s h in
    let (lt, e) = g u refl in
    Sound-with_tab w (close_found p fd (some u) w).1 p (set tab fd none) s h
      (length-set tab fd none ∙ len)
      (ap (λ ps. set ps p (set tab fd none)) (close_entry-procs (some u) w))
      (λ x.
        let c = count-set x tab fd none (omega (arith, lt, len)) in
        let here : one x (get_or tab fd none) ≡ one x (some u) = ap (one x) e in
        omega
          (arith, c, here, close_entry-one (some u) w x, s.balanced x, count-le-total x w.procs p))

dup_at-Sound :
    (p u : ℕ) (fd : Result ℕ) (w : World)
    → Sound w
    → Room w
    → p < length w.procs
    → ((i : ℕ) → fd ≡ ok i → Vacant (tab_of p w) i)
    → Sound (dup_at p u fd w).1
dup_at-Sound p u (err e) w s room h v = s
dup_at-Sound p u (ok i) w s room h v =
    let tab = tab_of p w in
    let len = tab-sized p w s h in
    Sound-with_tab w (dup_at p u (ok i) w).1 p (set tab i (some u)) s h
      (length-set tab i (some u) ∙ len) refl
      (λ x. omega (
        arith,
        count-Vacant x tab i u len (v i refl),
        addref-one (some u) w.refs x (omega (arith, refs-le w x s, room)),
      ))

dup_found-Sound :
    (p : ℕ) (o : Option ℕ) (fd : ℤ) (w : World)
    → Sound w
    → Room w
    → p < length w.procs
    → Sound (dup_found p o fd w).1
dup_found-Sound p none fd w s room h = s
dup_found-Sound p (some u) fd w s room h =
    dup_at-Sound p u (dup_fd (tab_of p w) fd) w s room h (dup_fd-Vacant (tab_of p w) fd)

piped-Sound :
    (p wfd rfd wio rio : ℕ) (w : World)
    → Sound w
    → p < length w.procs
    → Vacant (tab_of p w) wfd
    → Vacant (tab_of p w) rfd
    → w.refs wio ≡ 0
    → w.refs rio ≡ 0
    → wio ≢ rio
    → Sound (piped p wfd rfd wio rio w).1
piped-Sound p wfd rfd wio rio w s h vw vr fw fr ne = elim (Bool-cases (wfd == rfd)) [
  | inl y ↦ rw y s
  | inr n ↦
      let tab = tab_of p w in
      let tab1 = set tab wfd (some wio) in
      let len = tab-sized p w s h in
      let len1 : length tab1 ≡ 16 = length-set tab wfd (some wio) ∙ len in
      let vr1 : Vacant tab1 rfd =
        (vr.0, get_or-set_ne tab wfd rfd (some wio) none (==→ne wfd rfd n) ∙ vr.1) in
      let fr1 : put w.refs wio 1 rio ≡ 0 = rw (ne→== wio rio ne) fr in
      let w1 : World = record w {
        procs = set w.procs p (set tab1 rfd (some rio));
        refs = put (put w.refs wio 1) rio 1;
      } in
      rw n (
        Sound-with_tab w w1 p (set tab1 rfd (some rio)) s h (length-set tab1 rfd (some rio) ∙ len1)
          refl
          (λ x. omega (
            arith,
            count-Vacant x tab wfd wio len vw,
            count-Vacant x tab1 rfd rio len1 vr1,
            put-one w.refs wio x fw,
            put-one (put w.refs wio 1) rio x fr1,
          )))
]

pipe_read_end-Sound :
    (p wfd : ℕ) (rfd : Result ℕ) (wio rio : ℕ) (w : World)
    → Sound w
    → p < length w.procs
    → Vacant (tab_of p w) wfd
    → ((i : ℕ) → rfd ≡ ok i → Vacant (tab_of p w) i)
    → w.refs wio ≡ 0
    → w.refs rio ≡ 0
    → wio ≢ rio
    → Sound (pipe_read_end p wfd rfd wio rio w).1
pipe_read_end-Sound p wfd (err e) wio rio w s h vw vr fw fr ne = s
pipe_read_end-Sound p wfd (ok rfd) wio rio w s h vw vr fw fr ne =
    piped-Sound p wfd rfd wio rio w s h vw (vr rfd refl) fw fr ne

pipe_write_end-Sound :
    (p : ℕ) (wfd : Result ℕ) (rfd : ℤ) (wio rio : ℕ) (w : World)
    → Sound w
    → p < length w.procs
    → ((i : ℕ) → wfd ≡ ok i → Vacant (tab_of p w) i)
    → w.refs wio ≡ 0
    → w.refs rio ≡ 0
    → wio ≢ rio
    → Sound (pipe_write_end p wfd rfd wio rio w).1
pipe_write_end-Sound p (err e) rfd wio rio w s h vw fw fr ne = s
pipe_write_end-Sound p (ok wfd) rfd wio rio w s h vw fw fr ne =
    pipe_read_end-Sound p wfd (pipe_fd (tab_of p w) (pos wfd) rfd) wio rio w s h (vw wfd refl)
      (pipe_fd-Vacant (tab_of p w) (pos wfd) rfd) fw fr ne

syspipe-Sound :
    (p : ℕ) (vw vr : Result (Unit {0})) (wfd rfd : ℤ) (wio rio : ℕ) (w : World)
    → Sound w
    → p < length w.procs
    → w.refs wio ≡ 0
    → w.refs rio ≡ 0
    → wio ≢ rio
    → Sound (syspipe p vw vr wfd rfd wio rio w).1
unfolding syspipe
syspipe-Sound p (err e) vr wfd rfd wio rio w s h fw fr ne = s
syspipe-Sound p (ok _) (err e) wfd rfd wio rio w s h fw fr ne = s
syspipe-Sound p (ok _) (ok _) wfd rfd wio rio w s h fw fr ne =
    pipe_write_end-Sound p (pipe_fd (tab_of p w) rfd wfd) rfd wio rio w s h
      (pipe_fd-Vacant (tab_of p w) rfd wfd) fw fr ne

sysclose-Sound :
    (p : ℕ) (fd : ℤ) (w : World) → Sound w → p < length w.procs → Sound (sysclose p fd w).1
unfolding sysclose
sysclose-Sound p fd w s h =
    close_found-Sound p (abs fd) (entry (tab_of p w) fd) w s h (entry-get (tab_of p w) fd)

sysuiodup-Sound :
    (p : ℕ) (oldfd newfd : ℤ) (w : World)
    → Sound w
    → Room w
    → p < length w.procs
    → Sound (sysuiodup p oldfd newfd w).1
unfolding sysuiodup
sysuiodup-Sound p oldfd newfd w s room h =
    dup_found-Sound p (entry (tab_of p w) oldfd) newfd w s room h

-- A call that changes the tables, with what the code it uses answers.
pub data Event : Type 0 where
  opens : Result (Unit {0}) → ℤ → List ℕ → (List ℕ → Result ℕ) → Event
  closes : ℤ → Event
  dups : ℤ → ℤ → Event
  pipes : Result (Unit {0}) → Result (Unit {0}) → ℤ → ℤ → ℕ → ℕ → Event
  forks : Bool → Result ℕ → Event
  exits : Event

abbrev pub run : ℕ → Event → World → World
run p (opens valid fd path open_path) w = (sysopen p valid fd path open_path w).1
run p (closes fd) w = (sysclose p fd w).1
run p (dups oldfd newfd) w = (sysuiodup p oldfd newfd w).1
run p (pipes vw vr wfd rfd wio rio) w = (syspipe p vw vr wfd rfd wio rio w).1
run p (forks mem spawned) w = (process_fork p mem spawned w).1
run p exits w = process_exit p w

-- New endpoints have no references, and there are not too many processes for a count.
abbrev pub Legal : Event → World → Type 0
Legal (opens valid fd path open_path) w = Fresh w (open_path (take 127 path))
Legal (closes fd) w = Unit
Legal (dups oldfd newfd) w = Room w
Legal (pipes vw vr wfd rfd wio rio) w = (w.refs wio ≡ 0) × (w.refs rio ≡ 0) × (wio ≢ rio)
Legal (forks mem spawned) w = Room w
Legal exits w = Unit

pub run-Sound :
    (p : ℕ) (e : Event) (w : World) → Legal e w → p < length w.procs → Sound w → Sound (run p e w)
run-Sound p (opens valid fd path open_path) w l h s =
    sysopen-Sound p valid fd path open_path w s h l
run-Sound p (closes fd) w l h s = sysclose-Sound p fd w s h
run-Sound p (dups oldfd newfd) w l h s = sysuiodup-Sound p oldfd newfd w s l h
run-Sound p (pipes vw vr wfd rfd wio rio) w (fw, fr, ne) h s =
    syspipe-Sound p vw vr wfd rfd wio rio w s h fw fr ne
run-Sound p (forks mem spawned) w l h s = process_fork-Sound p mem spawned w s l h
run-Sound p exits w l h s = process_exit-Sound p w s h

-- Calls by processes, one after the other.
abbrev pub run_all : List (ℕ × Event) → World → World
run_all [] w = w
run_all ((p, e) ∷ es) w = run_all es (run p e w)

abbrev pub LegalAll : List (ℕ × Event) → World → Type 0
LegalAll [] w = Unit
LegalAll ((p, e) ∷ es) w = Legal e w × (p < length w.procs) × LegalAll es (run p e w)

-- From a state where each endpoint's reference count is the number of descriptors, over all tables
-- of 16 entries, that hold it: any sequence of opens, closes, duplications, pipes, forks and exits by
-- existing processes leads to such a state, whether the calls succeed or fail, where the endpoints
-- that open and pipe make have no references before, and no duplication or fork is made with so
-- many processes that a count could wrap.
pub run_all-Sound :
    (es : List (ℕ × Event)) (w : World) → LegalAll es w → Sound w → Sound (run_all es w)
run_all-Sound [] w l s = s
run_all-Sound ((p, e) ∷ es) w (l, h, ls) s = run_all-Sound es (run p e w) ls (run-Sound p e w l h s)
