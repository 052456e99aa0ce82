-- ===== src/Ramdisk/Reads.antt =====
-- Reads of the RAM disk of src/modified/sys/dev/ramdisk.c give the bytes of its memory.
use unix_like_operating_syst.Base.{
  ℕ, zero, suc, ◌+◌, ◌-◌, ◌%◌, ◌<◌, ◌≡◌, refl, sym, ap, ◌∙◌, inl, inr, true, false, some, List, [],
  ◌∷◌, ◌++◌, arith, leb, ltb, ◌==◌, take, drop, length, Bool-cases, ne→==, drop_all, take_all,
  length-drop,
}
use unix_like_operating_syst.Base.Results.{Result, ok, err}
use unix_like_operating_syst.Ramdisk.{Ramdisk, fetch, fetch_from, storage_fetch, blksz}

-- The disk is open, and its size is that of its memory.
pub record Holds (d : Ramdisk) (bytes : List ℕ) : Type 0 where
  pub is_open : d.opened ≡ true
  pub memory : d.buf ≡ some bytes
  pub sized : d.size ≡ length bytes

fetch_from_lem :
    (bytes : List ℕ) (pos n : ℕ)
    → fetch_from (some bytes) (length bytes) pos n ≡ ok (take n (drop pos bytes))
fetch_from_lem bytes pos n = elim (Bool-cases (leb (length bytes) pos)) [
  | inl y ↦
      let past : drop pos bytes ≡ [] = drop_all pos bytes (ground (arith, y)) in
      rw (y, past) (ap ok (sym (take_all n [] (omega arith))))
  | inr m ↦ elim (Bool-cases (ltb (length bytes - pos) n)) [
    | inl s ↦
        let all : length (drop pos bytes) ≡ length bytes - pos = length-drop pos bytes in
        rw (m, s)
          (ap ok (
            take_all (length bytes - pos) (drop pos bytes) (omega (arith, all))
            ∙ sym (take_all n (drop pos bytes) (ground (arith, all, s)))))
    | inr s ↦ rw (m, s) refl
  ]
]

storage_fetch_lem :
    (d : Ramdisk) (bytes : List ℕ) (pos n : ℕ)
    → 0 < n
    → Holds d bytes
    → storage_fetch d pos n ≡ ok (take n (drop pos bytes))
unfolding storage_fetch fetch
storage_fetch_lem d bytes pos n some_left h =
    let asked : (n == 0) ≡ false = ne→== n 0 (λ e. omega (arith, e, some_left)) in
    let fits : leb blksz n ≡ true = ground (arith, some_left) in
    let aligned : (pos % blksz == 0) ≡ true = ground arith in
    rw (asked, fits, aligned, h.is_open, h.memory, h.sized) (fetch_from_lem bytes pos n)

-- The bytes of one read, and those of the reads after it.
abbrev pub onward : (ℕ → List ℕ) → ℕ → Result (List ℕ) → List ℕ
onward next pos (err e) = []
onward next pos (ok []) = []
onward next pos (ok (b ∷ bs)) = (b ∷ bs) ++ next (pos + length (b ∷ bs))

-- Reads of the same size, one behind the other, until one gives nothing; on fuel.
abbrev pub read_on : ℕ → ℕ → ℕ → Ramdisk → List ℕ
read_on zero n pos d = []
read_on (suc fuel) n pos d = onward (λ p. read_on fuel n p d) pos (storage_fetch d pos n)

suc_left : (i j : ℕ) → suc i + j ≡ suc (i + j)
suc_left i j = omega arith

drop-drop : (i j : ℕ) (xs : List ℕ) → drop (i + j) xs ≡ drop j (drop i xs)
drop-drop zero j xs = ap (λ (k : ℕ). drop k xs) (omega arith)
drop-drop (suc i) j [] = drop_all (suc i + j) [] (omega arith) ∙ sym (drop_all j [] (omega arith))
drop-drop (suc i) j (x ∷ xs) = ap (λ (k : ℕ). drop k (x ∷ xs)) (suc_left i j) ∙ drop-drop i j xs

split : (n : ℕ) (xs : List ℕ) → take n xs ++ drop (length (take n xs)) xs ≡ xs
split zero xs = refl
split (suc n) [] = refl
split (suc n) (x ∷ xs) = ap (λ l. x ∷ l) (split n xs)

-- What a read gives, and what is left behind it.
onward_lem :
    (next : ℕ → List ℕ) (n pos : ℕ) (bytes rest : List ℕ)
    → 0 < n
    → drop pos bytes ≡ rest
    → ((p : ℕ) → pos < p → next p ≡ drop p bytes)
    → onward next pos (ok (take n rest)) ≡ rest
onward_lem next zero pos bytes rest some_left e h = absurd (omega (arith, some_left))
onward_lem next (suc n) pos bytes [] some_left e h = refl
onward_lem next (suc n) pos bytes (x ∷ rest) some_left e h =
    let k : ℕ = length (x ∷ take n rest) in
    let behind : next (pos + k) ≡ drop k (x ∷ rest) =
      h (pos + k) (omega arith) ∙ drop-drop pos k bytes ∙ ap (drop k) e in
    ap (λ l. (x ∷ take n rest) ++ l) behind ∙ split (suc n) (x ∷ rest)

read_on_lem :
    (fuel n pos : ℕ) (d : Ramdisk) (bytes : List ℕ)
    → 0 < n
    → Holds d bytes
    → length bytes < pos + fuel
    → read_on fuel n pos d ≡ drop pos bytes
read_on_lem zero n pos d bytes some_left h room = sym (drop_all pos bytes (omega (arith, room)))
read_on_lem (suc fuel) n pos d bytes some_left h room =
    ap (onward (λ p. read_on fuel n p d) pos) (storage_fetch_lem d bytes pos n some_left h)
    ∙ onward_lem (λ p. read_on fuel n p d) n pos bytes (drop pos bytes) some_left refl
        (λ p lt. read_on_lem fuel n p d bytes some_left h (omega (arith, lt, room)))

-- Reads of any size but 0 of an open disk whose size is that of its memory, from the first byte on
-- and each behind the one before, give all bytes of its memory, in order, until one gives nothing;
-- one read more than there are bytes is enough.
pub read_on-all :
    (n : ℕ) (d : Ramdisk) (bytes : List ℕ)
    → 0 < n
    → Holds d bytes
    → read_on (length bytes + 1) n 0 d ≡ bytes
read_on-all n d bytes some_left h =
    read_on_lem (length bytes + 1) n 0 d bytes some_left h (omega arith)
