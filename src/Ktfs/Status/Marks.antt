-- ===== src/Ktfs/Status/Marks.antt =====
-- What marking does to the bits of a bitmap of src/modified/sys/ktfs.c.
use unix_like_operating_syst.Base.{
  ℕ, zero, suc, ◌+◌, ◌-◌, ◌*◌, ◌/◌, ◌%◌, ◌≡◌, ◌≢◌, ◌<◌, refl, sym, ap, ◌∙◌, Bool, true, false, none,
  some, List, [], ◌∷◌, ◌++◌, map, arith, length, length-set, get_or, get_elem?, set, All,
}
use mathlib.Core.Path.{subst}
use native.Mathlib.Decide.{dec_lt}
use unix_like_operating_syst.Base.Results.{ok}
use unix_like_operating_syst.Ktfs.{find_free_data_block}
use unix_like_operating_syst.Ktfs.Bits.{bits_from, bits_of, all_bits, length-bits_of}
use unix_like_operating_syst.Ktfs.Free.{Sized, Finds, find_free_data_block-Finds}
use unix_like_operating_syst.Ktfs.Status.{mark_bit, mark_byte, set_status, bits_from-mark_bit}

set-append_left :
    (xs ys : List Bool) (i : ℕ) (v : Bool) → i < length xs → set (xs ++ ys) i v ≡ set xs i v ++ ys
set-append_left [] ys i v h = absurd (omega arith)
set-append_left (x ∷ xs) ys zero v h = refl
set-append_left (x ∷ xs) ys (suc i) v h = ap (λ t. x ∷ t) (set-append_left xs ys i v (omega arith))

set-append_right :
    (xs ys : List Bool) (i : ℕ) (v : Bool) → set (xs ++ ys) (length xs + i) v ≡ xs ++ set ys i v
set-append_right [] ys i v = ap (λ (k : ℕ). set ys k v) {x = 0 + i} {y = i} (omega arith)
set-append_right (x ∷ xs) ys i v =
    ap (λ (k : ℕ). set (x ∷ (xs ++ ys)) k v) {x = suc (length xs) + i} {y = suc (length xs + i)}
      (omega arith)
    ∙ ap (λ t. x ∷ t) (set-append_right xs ys i v)

abbrev pub Bytes : List ℕ → Type 0
Bytes = All (λ b. b < 256)

bits_of-mark_byte :
    (status : Bool) (bytes : List ℕ) (i : ℕ)
    → Bytes bytes
    → i < length bytes * 8
    → bits_of (mark_byte status i bytes) ≡ set (bits_of bytes) i status
bits_of-mark_byte status [] i h lt = absurd (omega arith)
bits_of-mark_byte status (b ∷ bytes) i h lt = elim (dec_lt i 8) [
  | yes y ↦
      ap (λ (j : ℕ). bits_of (set (b ∷ bytes) j (mark_bit status (i % 8) (get_or (b ∷ bytes) j 0))))
        {x = i / 8} {y = 0} (omega (arith, y))
      ∙ ap (λ t. t ++ bits_of bytes)
          (ap (λ (k : ℕ). bits_from 8 0 (mark_bit status k b)) {x = i % 8} {y = i}
              (omega (arith, y))
            ∙ bits_from-mark_bit status i b y h.0)
      ∙ sym (set-append_left (bits_from 8 0 b) (bits_of bytes) i status y)
  | no g ↦
      let j = (i - 8) / 8 in
      ap (λ (k : ℕ). bits_of (set (b ∷ bytes) k (mark_bit status (i % 8) (get_or (b ∷ bytes) k 0))))
        {x = i / 8} {y = suc j} (omega (arith, g))
      ∙ ap
          (λ (k : ℕ).
            bits_from 8 0 b ++ bits_of (set bytes j (mark_bit status k (get_or bytes j 0))))
          {x = i % 8} {y = (i - 8) % 8} (omega (arith, g))
      ∙ ap (λ t. bits_from 8 0 b ++ t)
          (bits_of-mark_byte status bytes (i - 8) h.1 (omega (arith, g, lt)))
      ∙ sym (set-append_right (bits_from 8 0 b) (bits_of bytes) (i - 8) status)
      ∙ ap (λ (k : ℕ). set (bits_from 8 0 b ++ bits_of bytes) k status) {x = 8 + (i - 8)} {y = i}
          (omega (arith, g))
]

-- The blocks with one bit marked.
abbrev pub marked : Bool → ℕ → List (List ℕ) → List (List ℕ)
marked status n blocks =
    set blocks (n / 4096) (mark_byte status (n % 4096) (get_or blocks (n / 4096) []))

all_bits-marked :
    (status : Bool) (n : ℕ) (blocks : List (List ℕ))
    → Sized blocks
    → All Bytes blocks
    → n < length blocks * 4096
    → all_bits (marked status n blocks) ≡ set (all_bits blocks) n status
all_bits-marked status n [] s h lt = absurd (omega arith)
all_bits-marked status n (b ∷ blocks) s h lt =
    let len : length (bits_of b) ≡ 4096 = length-bits_of b ∙ omega (arith, s.0) in
    elim (dec_lt n 4096) [
      | yes y ↦
          ap
            (λ (k : ℕ).
              all_bits
                (set (b ∷ blocks) k (mark_byte status (n % 4096) (get_or (b ∷ blocks) k []))))
            {x = n / 4096} {y = 0} (omega (arith, y))
          ∙ ap (λ t. t ++ all_bits blocks)
              (ap (λ (k : ℕ). bits_of (mark_byte status k b)) {x = n % 4096} {y = n}
                  (omega (arith, y))
                ∙ bits_of-mark_byte status b n h.0 (omega (arith, y, s.0)))
          ∙ sym (set-append_left (bits_of b) (all_bits blocks) n status (omega (arith, y, len)))
      | no g ↦
          let m = n - 4096 in
          ap
            (λ (k : ℕ).
              all_bits
                (set (b ∷ blocks) k (mark_byte status (n % 4096) (get_or (b ∷ blocks) k []))))
            {x = n / 4096} {y = suc (m / 4096)} (omega (arith, g))
          ∙ ap
              (λ (k : ℕ).
                bits_of b
                ++ all_bits
                    (set blocks (m / 4096) (mark_byte status k (get_or blocks (m / 4096) []))))
              {x = n % 4096} {y = m % 4096} (omega (arith, g))
          ∙ ap (λ t. bits_of b ++ t)
              (all_bits-marked status m blocks s.1 h.1 (omega (arith, g, lt)))
          ∙ sym (set-append_right (bits_of b) (all_bits blocks) m status)
          ∙ ap (λ (k : ℕ). set (bits_of b ++ all_bits blocks) k status) {x = length (bits_of b) + m}
              {y = n} (omega (arith, g, len))
    ]

set-map :
    (blocks : List (List ℕ)) (i : ℕ) (v : List ℕ)
    → set (map some blocks) i (some v) ≡ map some (set blocks i v)
set-map [] i v = refl
set-map (b ∷ blocks) zero v = refl
set-map (b ∷ blocks) (suc i) v = ap (λ t. some b ∷ t) (set-map blocks i v)

get_or-map :
    (blocks : List (List ℕ)) (i : ℕ)
    → i < length blocks
    → get_or (map some blocks) i none ≡ some (get_or blocks i [])
get_or-map [] i h = absurd (omega arith)
get_or-map (b ∷ blocks) zero h = refl
get_or-map (b ∷ blocks) (suc i) h = get_or-map blocks i (omega arith)

Sized-marked :
    (status : Bool) (k : ℕ) (blocks : List (List ℕ)) (i : ℕ)
    → Sized blocks
    → Sized (set blocks i (mark_byte status k (get_or blocks i [])))
Sized-marked status k [] i s = s
Sized-marked status k (b ∷ blocks) zero s =
    (length-set b (k / 8) (mark_bit status (k % 8) (get_or b (k / 8) 0)) ∙ s.0, s.1)
Sized-marked status k (b ∷ blocks) (suc i) s = (s.0, Sized-marked status k blocks i s.1)

-- Where all bitmap blocks can be read, are of the block size and hold bytes: marking a number inside
-- the bitmap sets its bit to the mark, and changes no other bit.
pub set_status-bits :
    (status : Bool) (n : ℕ) (blocks : List (List ℕ))
    → Sized blocks
    → All Bytes blocks
    → n < length blocks * 4096
    → (set_status (map some blocks) n status ≡ map some (marked status n blocks))
      × Sized (marked status n blocks)
      × (all_bits (marked status n blocks) ≡ set (all_bits blocks) n status)
unfolding set_status
set_status-bits status n blocks s h lt = (
  rw (get_or-map blocks (n / 4096) (omega (arith, lt)))
      (set-map blocks (n / 4096) (mark_byte status (n % 4096) (get_or blocks (n / 4096) []))),
  Sized-marked status (n % 4096) blocks (n / 4096) s,
  all_bits-marked status n blocks s h lt,
)

get_elem?-set :
    (xs : List Bool) (i : ℕ) (v : Bool) {w : Bool}
    → get_elem? xs i ≡ some w
    → get_elem? (set xs i v) i ≡ some v
get_elem?-set [] i v e = cc e
get_elem?-set (x ∷ xs) zero v e = refl
get_elem?-set (x ∷ xs) (suc i) v e = get_elem?-set xs i v e

-- A data block that the search found and that is then marked as in use: its bit was free, and the
-- next search does not answer it. All bitmap blocks can be read, are of the block size and hold bytes.
pub find_free_data_block-marked :
    (blocks : List (List ℕ)) (n : ℕ)
    → Sized blocks
    → All Bytes blocks
    → n < length blocks * 4096
    → (find_free_data_block (map some blocks)).0 ≡ ok n
    → (get_elem? (all_bits blocks) n ≡ some false)
      × ((find_free_data_block (set_status (map some blocks) n true)).0 ≢ ok n)
find_free_data_block-marked blocks n s h lt e =
    let (same, s', bits) = set_status-bits true n blocks s h lt in
    let found : Finds (all_bits blocks) (ok n) =
      subst (Finds (all_bits blocks)) e (find_free_data_block-Finds blocks s).0 in
    let was_free : get_elem? (all_bits blocks) n ≡ some false =
      free_bit (all_bits blocks) n found in
    (
      was_free,
      λ e'.
          let again : Finds (all_bits (marked true n blocks)) (ok n) =
            subst (Finds (all_bits (marked true n blocks)))
              (ap (λ bs. (find_free_data_block bs).0) (sym same) ∙ e')
              (find_free_data_block-Finds (marked true n blocks) s').0 in
          let still_free = free_bit (all_bits (marked true n blocks)) n again in
          let in_use : get_elem? (all_bits (marked true n blocks)) n ≡ some true =
            ap (λ bs. get_elem? bs n) bits ∙ get_elem?-set (all_bits blocks) n true was_free in
          cc (still_free, in_use),
    )
  where
    free_bit : (bs : List Bool) (n : ℕ) → Finds bs (ok n) → get_elem? bs n ≡ some false
    free_bit bs n (i, e, g, a) = ap (get_elem? bs) {x = n} {y = i} (omega (arith, e)) ∙ g
