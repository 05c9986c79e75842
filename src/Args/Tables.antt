-- ===== src/Args/Tables.antt =====
-- internal/provider/aws/containerargs.go: the sizes of Fargate.
use cloudcc.Base.{
  ℕ, zero, suc, ◌+◌, ◌-◌, ◌/◌, Bool, false, ◌&&◌, ◌||◌, Option, none, some, List, [], ◌∷◌, codes,
  leb, ◌==◌, if◌then◌else◌,
}
use cloudcc.Base.Int.{ℤ, pos, negsuc}
use cloudcc.Args.Schema.{
  Setting, Complaint, not_whole, no_such_size, arg_int, scalar_arg, block_arg, Schema, no_args,
  args, as_int, int_between,
}

pub record Size : Type 0 where
  pub cpu : ℕ
  pub memories : List ℕ

-- `for v := low; v <= high; v += by`; the fuel is the number of rounds, if `by` is positive.
unfoldable pub steps : ℕ → ℕ → ℕ → ℕ → List ℕ
steps zero low high by = []
steps (suc fuel) low high by =
    let rest = steps fuel (low + by) high by in if leb low high then low ∷ rest else []

unfoldable pub step : ℕ → ℕ → ℕ → List ℕ
unfolding steps
step low high by = steps (suc ((high - low) / by)) low high by

-- `fargateSizes`.
unfoldable pub fargate_sizes : List Size
unfolding step
fargate_sizes =
    record { cpu = 256; memories = 512 ∷ 1024 ∷ 2048 ∷ [] }
    ∷ record { cpu = 512; memories = step 1024 4096 1024 }
    ∷ record { cpu = 1024; memories = step 2048 8192 1024 }
    ∷ record { cpu = 2048; memories = step 4096 16384 1024 }
    ∷ record { cpu = 4096; memories = step 8192 30720 1024 }
    ∷ record { cpu = 8192; memories = step 16384 61440 4096 }
    ∷ record { cpu = 16384; memories = step 32768 122880 8192 }
    ∷ []

-- A comparison of an `int` with an entry of the table.
abbrev pub is_int : ℕ → ℤ → Bool
is_int n (pos m) = n == m
is_int n (negsuc m) = false

unfoldable pub has_memory : List ℕ → ℤ → Bool
has_memory [] memory = false
has_memory (m ∷ ms) memory = is_int m memory || has_memory ms memory

unfoldable pub has_cpu : List Size → ℤ → Bool
has_cpu [] cpu = false
has_cpu (size ∷ sizes) cpu = is_int size.cpu cpu || has_cpu sizes cpu

unfoldable pub valid_fargate_cpu : Setting → Option Complaint
unfolding has_cpu
valid_fargate_cpu v = elim (as_int v) [
  | none ↦ some not_whole
  | some n ↦ if has_cpu fargate_sizes n then none else some (no_such_size n)
]

-- `taskArgs`.
abbrev pub task_args : Schema
task_args = args (scalar_arg (codes "cpu") (codes "cpu") arg_int (some valid_fargate_cpu)) (
    args
      (block_arg (codes "ephemeral_storage") (codes "ephemeralStorage") (
        args
          (scalar_arg (codes "size_in_gib") (codes "sizeInGib") arg_int
            (some (int_between 21 200 (codes "GiB"))))
          no_args))
      no_args)

unfoldable pub exists_at : List Size → ℤ → Bool
unfolding has_memory
exists_at [] memory = false
exists_at (size ∷ sizes) memory = has_memory size.memories memory || exists_at sizes memory

unfoldable pub smallest_at : List Size → ℤ → Option ℕ
unfolding has_memory
smallest_at [] memory = none
smallest_at (size ∷ sizes) memory =
    let rest = smallest_at sizes memory in
    if has_memory size.memories memory then some size.cpu else rest

unfoldable pub legal_at : List Size → ℤ → ℤ → Bool
unfolding has_memory
legal_at [] cpu memory = false
legal_at (size ∷ sizes) cpu memory =
    (is_int size.cpu cpu && has_memory size.memories memory) || legal_at sizes cpu memory

unfoldable pub memory_exists_at_some_cpu : ℤ → Bool
unfolding exists_at
memory_exists_at_some_cpu memory = exists_at fargate_sizes memory

-- `fargateSizes[0].cpu` if there is no size with this memory.
unfoldable pub smallest_cpu_for : ℤ → ℕ
unfolding smallest_at
smallest_cpu_for memory = elim (smallest_at fargate_sizes memory) [ none ↦ 256 | some cpu ↦ cpu ]

unfoldable pub pair_is_legal : ℤ → ℤ → Bool
unfolding legal_at
pair_is_legal cpu memory = legal_at fargate_sizes cpu memory
