-- ===== src/Syscall.antt =====
-- The system calls of src/modified/sys/syscall.c on a process's open files.
--
-- A call is made by process `p`. An `int` is an integer; what `validate_vstr` and `validate_vptr`
-- answer for the caller's pointers is an argument (Memory.Table has the second).
pub mod Table
pub mod Balance
pub mod Close
pub mod Exec
mod Tests
use unix_like_operating_syst.Base.{
  ℕ, zero, suc, ◌+◌, ◌-◌, ◌%◌, ◌^◌, Bool, true, false, not, ◌&&◌, ◌||◌, Option, none, some, List,
  [], ◌∷◌, ◌++◌, leb, ltb, ◌==◌, if◌then◌else◌, put, set, get_or, take,
}
pub use unix_like_operating_syst.Base.Ints.{ℤ, pos, negsuc}
use unix_like_operating_syst.Base.Results.{
  Errno, Result, ok, err, ebadfd, emfile, ebusy, einval, other,
}
use unix_like_operating_syst.Process.{
  max_files, UioTab, World, tab_of, with_tab, addref, close_entry,
}

abbrev pub Call : Type 0
Call = Result ℕ × World

abbrev pub is_null : Option ℕ → Bool
is_null none = true
is_null (some u) = false

-- Whether an index is this integer.
abbrev pub is : ℕ → ℤ → Bool
is i (pos n) = i == n
is i (negsuc n) = false

-- The first null entry from an index on whose index is not the integer given.
pub find_null : ℤ → ℕ → UioTab → Option ℕ
find_null but i [] = none
find_null but i (o ∷ tab) =
    let rest = find_null but (i + 1) tab in if is_null o && not (is i but) then some i else rest

abbrev pub minus_one : ℤ
minus_one = negsuc 0

-- A descriptor in range whose entry is null, else this error.
pub vacant : Errno → UioTab → ℕ → Result ℕ
vacant e tab fd =
    if leb max_files fd then err ebadfd else if is_null (get_or tab fd none) then ok fd else err e

pub found_or : Errno → Option ℕ → (ℕ → Result ℕ) → Result ℕ
found_or e none f = err e
found_or e (some i) f = f i

-- The descriptor that `sysopen` uses.
pub open_fd : UioTab → ℤ → Result ℕ
open_fd tab (pos fd) = vacant ebadfd tab fd
open_fd tab (negsuc zero) = found_or emfile (find_null minus_one 0 tab) (vacant ebadfd tab)
open_fd tab (negsuc (suc n)) = err ebadfd

-- An endpoint with one reference goes into the table.
abbrev pub installed : ℕ → ℕ → ℕ → World → World
installed p fd u w = record w {
  procs = set w.procs p (set (tab_of p w) fd (some u));
  refs = put w.refs u 1;
}

abbrev pub open_with : ℕ → ℕ → Result ℕ → World → Call
open_with p fd (ok u) w = (ok fd, installed p fd u w)
open_with p fd (err e) w = (err e, w)

abbrev pub open_at : ℕ → Result ℕ → Result ℕ → World → Call
open_at p (ok fd) opened w = open_with p fd opened w
open_at p (err e) opened w = (err e, w)

-- `sysopen`; `open_path` is `parse_path` and `open_file` on the copy of the path, which has at most
-- 127 bytes, and gives the endpoint.
pub sysopen : ℕ → Result (Unit {0}) → ℤ → List ℕ → (List ℕ → Result ℕ) → World → Call
sysopen p (err e) fd path open_path w = (err e, w)
sysopen p (ok _) fd path open_path w =
    open_at p (open_fd (tab_of p w) fd) (open_path (take 127 path)) w

-- The entry of a descriptor, null where it is out of range.
unfoldable pub entry : UioTab → ℤ → Option ℕ
entry tab (pos fd) = if leb max_files fd then none else get_or tab fd none
entry tab (negsuc n) = none

abbrev pub abs : ℤ → ℕ
abs (pos n) = n
abs (negsuc n) = suc n

abbrev pub close_found : ℕ → ℕ → Option ℕ → World → Call
close_found p fd none w = (err ebadfd, w)
close_found p fd (some u) w =
    let w' = close_entry (some u) w in (ok 0, with_tab p (set (tab_of p w) fd none) w')

-- `sysclose`
pub sysclose : ℕ → ℤ → World → Call
sysclose p fd w = close_found p (abs fd) (entry (tab_of p w) fd) w

-- The calls that use an open file: the descriptor is tested, then the caller's pointer.
pub use_file {ℓ} : {A : Type ℓ} → Option ℕ → Result (Unit {0}) → (ℕ → Result A) → Result A
use_file none valid op = err ebadfd
use_file (some u) (err e) op = err e
use_file (some u) (ok _) op = op u

-- `sysread`, where `uio_read` of an endpoint gives bytes
pub sysread : ℕ → ℤ → Result (Unit {0}) → (ℕ → Result (List ℕ)) → World → Result (List ℕ)
sysread p fd valid read w = use_file (entry (tab_of p w) fd) valid read

-- `syswrite`
pub syswrite : ℕ → ℤ → Result (Unit {0}) → (ℕ → Result ℕ) → World → Result ℕ
syswrite p fd valid write w = use_file (entry (tab_of p w) fd) valid write

-- What `sysfcntl` asks of its pointer, by the command: to be read or written through, or the
-- command is unknown.
abbrev pub fcntl_valid : ℕ → Result (Unit {0}) → Result (Unit {0}) → Result (Unit {0})
fcntl_valid cmd readable writable =
    if cmd == 0 || cmd == 2
    then writable
    else if cmd == 1 || cmd == 3
    then readable
    else if cmd == 4
    then writable
    else err einval

-- `sysfcntl`, with what `validate_vptr` answers for reading and for writing
pub sysfcntl : ℕ → ℤ → ℕ → Result (Unit {0}) → Result (Unit {0}) → (ℕ → Result ℕ) → World → Result ℕ
sysfcntl p fd cmd readable writable cntl w =
    use_file (entry (tab_of p w) fd) (fcntl_valid cmd readable writable) cntl

-- The descriptor that `sysuiodup` uses.
pub dup_fd : UioTab → ℤ → Result ℕ
dup_fd tab (pos fd) = vacant ebadfd tab fd
dup_fd tab (negsuc n) = found_or emfile (find_null minus_one 0 tab) (vacant ebadfd tab)

abbrev pub dup_at : ℕ → ℕ → Result ℕ → World → Call
dup_at p u (ok fd) w = (
  ok fd,
  record w { procs = set w.procs p (set (tab_of p w) fd (some u)); refs = addref (some u) w.refs },
)
dup_at p u (err e) w = (err e, w)

abbrev pub dup_found : ℕ → Option ℕ → ℤ → World → Call
dup_found p none newfd w = (err ebadfd, w)
dup_found p (some u) newfd w = dup_at p u (dup_fd (tab_of p w) newfd) w

-- `sysuiodup`
pub sysuiodup : ℕ → ℤ → ℤ → World → Call
sysuiodup p oldfd newfd w = dup_found p (entry (tab_of p w) oldfd) newfd w

-- A descriptor of `syspipe`: the first null entry but the other's for a negative one.
pub pipe_fd : UioTab → ℤ → ℤ → Result ℕ
pipe_fd tab taken (pos fd) = vacant ebusy tab fd
pipe_fd tab taken (negsuc n) = found_or ebadfd (find_null taken 0 tab) (vacant ebusy tab)

-- The two ends of a new pipe go into the table.
abbrev pub piped : ℕ → ℕ → ℕ → ℕ → ℕ → World → Result (ℕ × ℕ) × World
piped p wfd rfd wio rio w = if wfd == rfd then (err ebadfd, w) else (
  ok (wfd, rfd),
  record w {
    procs = set w.procs p (set (set (tab_of p w) wfd (some wio)) rfd (some rio));
    refs = put (put w.refs wio 1) rio 1;
  },
)

abbrev pub pipe_read_end : ℕ → ℕ → Result ℕ → ℕ → ℕ → World → Result (ℕ × ℕ) × World
pipe_read_end p wfd (err e) wio rio w = (err e, w)
pipe_read_end p wfd (ok rfd) wio rio w = piped p wfd rfd wio rio w

abbrev pub pipe_write_end : ℕ → Result ℕ → ℤ → ℕ → ℕ → World → Result (ℕ × ℕ) × World
pipe_write_end p (err e) rfd wio rio w = (err e, w)
pipe_write_end p (ok wfd) rfd wio rio w =
    pipe_read_end p wfd (pipe_fd (tab_of p w) (pos wfd) rfd) wio rio w

abbrev pub both : Result (Unit {0}) → Result (Unit {0}) → Result (Unit {0})
both (ok _) r = r
both (err e) r = err e

-- `syspipe` with the integers behind its pointers; `create_pipe` gives the ends `wio` and `rio`. The
-- descriptors answered are what it writes behind the pointers.
pub syspipe :
    ℕ → Result (Unit {0}) → Result (Unit {0}) → ℤ → ℤ → ℕ → ℕ → World → Result (ℕ × ℕ) × World
syspipe p valid_w valid_r wfd rfd wio rio w = elim (both valid_w valid_r) [
  | err e ↦ (err e, w)
  | ok _ ↦ pipe_write_end p (pipe_fd (tab_of p w) rfd wfd) rfd wio rio w
]

-- The console opened by `process_exec` goes to the first three descriptors of a process without a
-- third one.
abbrev pub consoles : ℕ → Option ℕ → Result ℕ → World → Result (Unit {0}) × World
consoles p (some c) opened w = (ok tt, w)
consoles p none (err e) w = (err e, w)
consoles p none (ok c) w = (
  ok tt,
  record w {
    procs = set w.procs p (set (set (set (tab_of p w) 2 (some c)) 0 (some c)) 1 (some c));
    refs = addref (some c) (addref (some c) (put w.refs c 1));
  },
)

-- What a call of `process_exec` comes to: it gives an error back, or jumps into the program.
pub data Executed : Type 0 where
  back : Errno → Executed
  jumped : Executed

-- What `build_stack` and, where it is reached, `elf_load` answer.
pub data Loaded : Type 0 where
  no_stack : Errno → Loaded
  no_program : Errno → Loaded
  loaded_all : Loaded

-- An error of `elf_load` is replaced by -67.
abbrev pub loaded_file : ℕ → Loaded → Result (Unit {0}) × World → Executed × World
loaded_file u loaded (err e, w) = (back e, w)
loaded_file u (no_stack e) (ok _, w) = (back e, w)
loaded_file u (no_program e) (ok _, w) = (back (other 67), w)
loaded_file u loaded_all (ok _, w) = (jumped, close_entry (some u) w)

-- `process_exec` on an endpoint, with what `open_file` gives for the console, and what `build_stack`
-- and `elf_load` answer
pub process_exec : ℕ → ℕ → Result ℕ → Loaded → World → Executed × World
process_exec p u opened loaded w =
    loaded_file u loaded (consoles p (get_or (tab_of p w) 2 none) opened w)

abbrev pub argc_fits : ℤ → Bool
argc_fits (pos n) = leb n 8
argc_fits (negsuc n) = false

abbrev pub exec_args : ℕ → ℕ → Result (Unit {0}) → Result ℕ → Loaded → World → Executed × World
exec_args p u (err e) opened loaded w = (back e, w)
exec_args p u (ok _) opened loaded w = process_exec p u opened loaded w

abbrev pub exec_found :
    ℕ → Option ℕ → Bool → Result (Unit {0}) → Result ℕ → Loaded → World → Executed × World
exec_found p none fits args opened loaded w = (back ebadfd, w)
exec_found p (some u) false args opened loaded w = (back einval, w)
exec_found p (some u) true args opened loaded w = exec_args p u args opened loaded w

-- `sysexec`, with what checking and copying the arguments gives; as `process_exec` does not return
-- where it succeeds, the descriptor's entry is not set to null then.
pub sysexec : ℕ → ℤ → ℤ → Result (Unit {0}) → Result ℕ → Loaded → World → Executed × World
sysexec p fd argc args opened loaded w =
    exec_found p (entry (tab_of p w) fd) (argc_fits argc) args opened loaded w
