-- ===== src/Process/Tests.antt =====
-- The first stack page of src/modified/sys/process.c for the arguments `ls` and `-l`.
use unix_like_operating_syst.Base.{List, [], ◌∷◌, ℕ}
use unix_like_operating_syst.Process.Stack.{StackFits, build_stack, build_stack-StackFits}

abbrev two_args : List (List ℕ)
two_args = (108 ∷ 115 ∷ []) ∷ (45 ∷ 108 ∷ []) ∷ []

build_stack-StackFits_example : StackFits two_args (build_stack two_args)
build_stack-StackFits_example = build_stack-StackFits two_args
