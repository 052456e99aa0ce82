-- ===== src/Pipe.antt =====
-- The pipes of src/modified/sys/uio.c: a ring of one page between a write end and a read end.
--
-- A call holds the pipe's lock but while it waits, so it is one step: it is done, or it waits, and
-- then it changes nothing and is made again when the thread wakes. `freed` says that the page and
-- the pipe have been given back. The buffers of the callers are lists; `bufsz` of a read is a
-- number, and the length of the list is that of a write.
pub mod Ring
pub mod Queue
pub mod Stream
mod Tests
use unix_like_operating_syst.Base.{
  ℕ, zero, suc, ◌+◌, ◌-◌, ◌%◌, ◌≡◌, Bool, true, false, not, ◌&&◌, ◌||◌, Option, none, some, List,
  [], ◌∷◌, ltb, ◌==◌, if◌then◌else◌, length, get_or, set,
}
use unix_like_operating_syst.Base.Results.{Result, ok, err, epipe}

abbrev pub page_size : ℕ
page_size = 4096

-- `struct pipe`, with `struct ringbuf`
pub record Pipe : Type 0 where
  pub hpos : ℕ
  pub tpos : ℕ
  pub page : List ℕ
  pub bytecnt : ℕ
  pub read_open : Bool
  pub write_open : Bool
  pub freed : Bool

pub data Outcome (A : Type 0) : Type 0 where
  waits : Outcome A
  done : A → Outcome A

-- `create_pipe`, on the page that `alloc_phys_page` gives
pub create : List ℕ → Pipe
create page = record {
  hpos = 0;
  tpos = 0;
  page = page;
  bytecnt = 0;
  read_open = true;
  write_open = true;
  freed = false;
}

-- The copying loop of `pipe_read`, `n` rounds.
pub read_loop : ℕ → Pipe → List ℕ × Pipe
read_loop zero p = ([], p)
read_loop (suc n) p =
    let byte = get_or p.page p.hpos 0 in
    let (rest, p') = read_loop n (record p { hpos = (p.hpos + 1) % page_size }) in (byte ∷ rest, p')

-- The rest of `pipe_read`, when there are bytes: as many as are asked for or are there.
pub read_some : ℕ → Pipe → Outcome (List ℕ) × Pipe
read_some bufsz p =
    let n = if ltb bufsz p.bytecnt then bufsz else p.bytecnt in
    let (bytes, p') = read_loop n p in (done bytes, record p' { bytecnt = p'.bytecnt - n })

-- `pipe_read`: the bytes that it copies; their number is what it returns.
pub read : ℕ → Pipe → Outcome (List ℕ) × Pipe
read bufsz p =
    if bufsz == 0
    then (done [], p)
    else if p.bytecnt == 0 && p.write_open
    then (waits, p)
    else if p.bytecnt == 0 && not p.write_open
    then (done [], p)
    else read_some bufsz p

-- The copying loop of `pipe_write`, over the first `n` bytes of the caller's buffer.
pub write_loop : ℕ → List ℕ → Pipe → Pipe
write_loop zero src p = p
write_loop (suc n) [] p = p
write_loop (suc n) (byte ∷ src) p =
    write_loop n src (record p { page = set p.page p.tpos byte; tpos = (p.tpos + 1) % page_size })

-- The rest of `pipe_write`, when there is room: as many bytes as are given or fit.
pub write_some : List ℕ → Pipe → Outcome (Result ℕ) × Pipe
write_some src p =
    let space = page_size - p.bytecnt in
    let n = if ltb (length src) space then length src else space in
    let p' = write_loop n src p in (done (ok n), record p' { bytecnt = p'.bytecnt + n })

-- `pipe_write`: the number of bytes that it took.
pub write : List ℕ → Pipe → Outcome (Result ℕ) × Pipe
write src p =
    if length src == 0
    then (done (ok 0), p)
    else if not p.read_open
    then (done (err epipe), p)
    else if p.bytecnt == page_size
    then (waits, p)
    else write_some src p

-- `read_pipe_close`
pub close_read : Pipe → Pipe
close_read p = record p { read_open = false; freed = if p.write_open then p.freed else true }

-- `write_pipe_close`
pub close_write : Pipe → Pipe
close_write p = record p { write_open = false; freed = if p.read_open then p.freed else true }
