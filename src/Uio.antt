-- ===== src/Uio.antt =====
-- I/O endpoints of src/modified/sys/uio.c: reference counts, and the calls through the interface.
--
-- An endpoint's interface is what its structure holds: functions that may be null, over a state `W`
-- of the world behind it. The pipes of the same file are in Pipe.
pub mod Refs
mod Tests
use unix_like_operating_syst.Base.{
  ℕ, zero, suc, ◌+◌, ◌-◌, ◌%◌, ◌^◌, Option, none, some, List, ltb, ◌==◌, if◌then◌else◌, length,
}
use unix_like_operating_syst.Base.Results.{Result, ok, err, einval, enotsup}

module _ (W : Type 0) where
  -- `struct uio_intf`
  pub record Interface : Type 0 where
    pub close_op : Option (W → W)
    pub read_op : Option (ℕ → W → Result (List ℕ) × W)
    pub write_op : Option (List ℕ → W → Result ℕ × W)
    pub cntl_op : Option (ℕ → ℕ → W → Result ℕ × W)

  -- `struct uio`
  pub record Uio : Type 0 where
    pub intf : Interface
    pub refcnt : ℕ

module _ {W : Type 0} where
  pub uio_init0 : Interface W → Uio W
  uio_init0 i = record { intf = i; refcnt = 0 }

  pub uio_init1 : Interface W → Uio W
  uio_init1 i = record { intf = i; refcnt = 1 }

  -- `uio_addref`: what it answers is the count after it.
  pub uio_addref : Uio W → Uio W
  uio_addref u = record u { refcnt = (u.refcnt + 1) % 2 ^ 64 }

  pub close_with : Option (W → W) → ℕ → W → W
  close_with none n w = w
  close_with (some op) zero w = op w
  close_with (some op) (suc n) w = w

  -- `uio_close`
  pub uio_close : Uio W → W → Uio W × W
  uio_close u w = (record u { refcnt = u.refcnt - 1 }, close_with u.intf.close_op (u.refcnt - 1) w)

  -- `uio_read`, with the buffer's size
  pub uio_read : Uio W → ℕ → W → Result (List ℕ) × W
  uio_read u bufsz w = elim u.intf.read_op [
    | none ↦ (err enotsup, w)
    | some op ↦ if ltb bufsz (2 ^ 63) then op bufsz w else (err einval, w)
  ]

  -- `uio_write`; the length is that of the buffer.
  pub uio_write : Uio W → List ℕ → W → Result ℕ × W
  uio_write u buf w = elim u.intf.write_op [
    | none ↦ (err enotsup, w)
    | some op ↦ if ltb (length buf) (2 ^ 63) then op buf w else (err einval, w)
  ]

  pub uio_cntl : Uio W → ℕ → ℕ → W → Result ℕ × W
  uio_cntl u op arg w = elim u.intf.cntl_op [ none ↦ (err enotsup, w) | some f ↦ f op arg w ]

  -- `create_null_uio`
  abbrev pub null_uio : Uio W
  null_uio = uio_init0 record {
    close_op = some (λ w. w);
    read_op = some (λ n w. (err enotsup, w));
    write_op = some (λ b w. (err enotsup, w));
    cntl_op = none;
  }
