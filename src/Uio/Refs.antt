-- ===== src/Uio/Refs.antt =====
-- The reference counts of src/modified/sys/uio.c: the last close, and no other, closes the endpoint.
use unix_like_operating_syst.Base.{ℕ, zero, suc}
use unix_like_operating_syst.Uio.{Uio, uio_addref, uio_close}

module _ {W : Type 0} where
  -- So many more references, and so many closes.
  abbrev pub addrefs : ℕ → Uio W → Uio W
  addrefs zero u = u
  addrefs (suc n) u = addrefs n (uio_addref u)

  abbrev pub closes : ℕ → Uio W → W → Uio W × W
  closes zero u w = (u, w)
  closes (suc n) u w = let (u', w') = uio_close u w in closes n u' w'
