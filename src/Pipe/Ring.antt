-- ===== src/Pipe/Ring.antt =====
-- The ring of src/modified/sys/uio.c as a queue: what stands in it, and what one byte in or out
-- does to that.
use unix_like_operating_syst.Base.{
  ℕ, zero, suc, ◌+◌, ◌%◌, ◌≤◌, ◌<◌, ◌≡◌, refl, sym, ap, ◌∙◌, ◌≢◌, List, [], ◌∷◌, ◌++◌, arith,
  length, get_or, set, get_or-set_self, get_or-set_ne,
}
use unix_like_operating_syst.Pipe.{Pipe, page_size}

-- The `n` bytes from index `h` on, going round at the end of the page.
abbrev pub window : List ℕ → ℕ → ℕ → List ℕ
window page h zero = []
window page h (suc n) = get_or page h 0 ∷ window page ((h + 1) % page_size) n

abbrev pub contents : Pipe → List ℕ
contents p = window p.page p.hpos p.bytecnt

-- The ring is inside its page, and the tail is where the bytes end.
pub record IsValid (p : Pipe) : Type 0 where
  pub sized : length p.page ≡ page_size
  pub head_in : p.hpos < page_size
  pub tail_here : p.tpos ≡ (p.hpos + p.bytecnt) % page_size
  pub fits : p.bytecnt ≤ page_size

pub length-window : (page : List ℕ) (h n : ℕ) → length (window page h n) ≡ n
length-window page h zero = refl
length-window page h (suc n) = ap suc (length-window page ((h + 1) % page_size) n)

-- Two steps round the page.
around : (h n : ℕ) → ((h + 1) % page_size + n) % page_size ≡ (h + suc n) % page_size
around h n = omega arith

-- `n` bytes can be read off the front of a window.
pub window-split :
    (page : List ℕ) (h m n k : ℕ)
    → h < page_size
    → k ≡ n + m
    → window page h k ≡ window page h n ++ window page ((h + n) % page_size) m
window-split page h m zero k hh e =
    let start : (h + 0) % page_size ≡ h = omega (arith, hh) in
    rw (start, ap (λ (j : ℕ). window page h j) e) (ap (λ (j : ℕ). window page h j) (omega arith))
window-split page h m (suc n) zero hh e = absurd (omega (arith, e))
window-split page h m (suc n) (suc k) hh e =
    ap (λ (l : List ℕ). get_or page h 0 ∷ l)
      (rw (← around h n)
        (window-split page ((h + 1) % page_size) m n k (omega arith) (omega (arith, e))))

-- Fewer than a page of steps from an index do not come back to it.
index_ne : (h n i : ℕ) → h < page_size → suc n < page_size → i ≡ (h + suc n) % page_size → i ≢ h
index_ne h n i hh hn e same = omega (arith, hh, hn, e, same)

-- A byte written just behind a window that is not the whole page extends it.
pub window-set :
    (page : List ℕ) (x n h i : ℕ)
    → length page ≡ page_size
    → h < page_size
    → n < page_size
    → i ≡ (h + n) % page_size
    → window (set page i x) h (suc n) ≡ window page h n ++ (x ∷ [])
window-set page x zero h i sz hh hn e =
    let here : i ≡ h = omega (arith, e, hh) in
    rw (here, get_or-set_self page h x 0 (omega (arith, sz, hh)))
window-set page x (suc n) h i sz hh hn e =
    rw (get_or-set_ne page i h x 0 (index_ne h n i hh hn e)) (
      ap (λ (l : List ℕ). get_or page h 0 ∷ l)
        (window-set page x n ((h + 1) % page_size) i sz (omega arith) (omega (arith, hn))
          (e ∙ sym (around h n))))
