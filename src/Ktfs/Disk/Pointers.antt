-- ===== src/Ktfs/Disk/Pointers.antt =====
-- The pointers to the data blocks of a file of src/modified/sys/ktfs.c as one list: the direct ones,
-- those of the indirect block, and those behind the doubly indirect ones.
use unix_like_operating_syst.Base.{ℕ, zero, suc, ◌≡◌, refl, List, [], ◌∷◌, ◌++◌, arith, length}
use unix_like_operating_syst.Base.Results.{Result, ok, err}
use unix_like_operating_syst.Ktfs.Disk.{Disk, Superblock, Inode, words, data_pos}

-- The pointers in a block that was read, and what follows; none where it was not.
abbrev pub in_block : Result (List ℕ) → List ℕ → List ℕ
in_block (ok b) rest = words 128 b ++ rest
in_block (err e) rest = []

-- The pointers behind the blocks of a list of pointers, up to a block that cannot be read.
abbrev pub behind : Disk → Superblock → List ℕ → List ℕ → List ℕ
behind disk sb [] rest = rest
behind disk sb (p ∷ ps) rest = in_block (disk (data_pos sb p)) (behind disk sb ps rest)

abbrev pub behind_block : Disk → Superblock → Result (List ℕ) → List ℕ → List ℕ
behind_block disk sb (ok b) rest = behind disk sb (words 128 b) rest
behind_block disk sb (err e) rest = []

abbrev pub doubly : Disk → Superblock → List ℕ → List ℕ
doubly disk sb [] = []
doubly disk sb (d ∷ ds) = behind_block disk sb (disk (data_pos sb d)) (doubly disk sb ds)

-- An indirect block of number 0 is none.
abbrev pub singly : Disk → Superblock → ℕ → List ℕ → List ℕ
singly disk sb zero rest = rest
singly disk sb (suc i) rest = in_block (disk (data_pos sb (suc i))) rest

unfoldable pub pointers : Disk → Superblock → Inode → List ℕ
pointers disk sb inode =
    inode.block ++ singly disk sb inode.indirect (doubly disk sb inode.dindirect)

pub length-words : (n : ℕ) (b : List ℕ) → length (words n b) ≡ n
length-words zero b = refl
length-words (suc n) b = omega (arith, length-words n _)
