-- ===== src/Args/Sizes.antt =====
-- internal/provider/aws/containerargs.go: the sizes that Fargate has.
use cloudcc.Base.{
  ℕ, ◌*◌, ◌≤◌, ◌≡◌, refl, sym, subst, Bool, true, ◌&&◌, some, List, [], ◌∷◌, leb, ltb, arith,
  Bool-cases, inl, inr,
}
use cloudcc.Base.Int.{ℤ, pos}
use cloudcc.Args.Tables.{
  Size, fargate_sizes, has_memory, exists_at, smallest_at, legal_at, memory_exists_at_some_cpu,
  smallest_cpu_for, pair_is_legal, step, steps,
}

abbrev is_above : ℕ → List Size → Bool
is_above c [] = true
is_above c (s ∷ ss) = ltb c s.cpu && is_above c ss

-- The CPUs of a table grow.
abbrev is_rising : List Size → Bool
is_rising [] = true
is_rising (s ∷ ss) = is_above s.cpu ss && is_rising ss

fargate_sizes-rising : is_rising fargate_sizes ≡ true
unfolding fargate_sizes
fargate_sizes-rising = refl

legal-above :
    (c k : ℕ) (sizes : List Size) (memory : ℤ)
    → is_above c sizes ≡ true
    → legal_at sizes (pos k) memory ≡ true
    → c ≤ k
unfolding legal_at
legal-above c k [] memory a h = absurd (ground (arith, h))
legal-above c k (s ∷ ss) memory a h = ground (arith, a, h, legal-above c k ss memory)

smallest-IsLegal :
    (sizes : List Size) (memory : ℤ) (c : ℕ)
    → smallest_at sizes memory ≡ some c
    → legal_at sizes (pos c) memory ≡ true
unfolding smallest_at legal_at
smallest-IsLegal [] memory c h = absurd (ground (arith, h))
smallest-IsLegal (s ∷ ss) memory c h = ground (arith, h, smallest-IsLegal ss memory c)

smallest-le :
    (sizes : List Size) (memory : ℤ) (c k : ℕ)
    → is_rising sizes ≡ true
    → smallest_at sizes memory ≡ some c
    → legal_at sizes (pos k) memory ≡ true
    → c ≤ k
unfolding smallest_at legal_at
smallest-le [] memory c k r h l = absurd (ground (arith, h))
smallest-le (s ∷ ss) memory c k r h l =
    ground (arith, h, l, r, smallest-le ss memory c k, legal-above s.cpu k ss memory)

exists-smallest :
    (sizes : List Size) (memory : ℤ)
    → exists_at sizes memory ≡ true
    → (c : ℕ) × (smallest_at sizes memory ≡ some c)
unfolding smallest_at exists_at
exists-smallest [] memory h = absurd (ground (arith, h))
exists-smallest (s ∷ ss) memory h = elim (Bool-cases (has_memory s.memories memory)) [
  | inl here ↦ (s.cpu, ground (arith, here))
  | inr there ↦
      let (c, e) = exists-smallest ss memory (ground (arith, there, h)) in
      (c, ground (arith, there, e))
]

legal-exists :
    (sizes : List Size) (cpu memory : ℤ)
    → legal_at sizes cpu memory ≡ true
    → exists_at sizes memory ≡ true
unfolding legal_at exists_at
legal-exists [] cpu memory h = absurd (ground (arith, h))
legal-exists (s ∷ ss) cpu memory h = ground (arith, h, legal-exists ss cpu memory)

-- For a memory that Fargate has, `smallestCPUFor` is a CPU that goes with it, and no smaller one does; a memory has a CPU
-- exactly if `memoryExistsAtSomeCPU`.
pub smallest_cpu_for_lem :
    (memory : ℤ)
    → (memory_exists_at_some_cpu memory ≡ true
        → (pair_is_legal (pos (smallest_cpu_for memory)) memory ≡ true)
          × ((k : ℕ) → pair_is_legal (pos k) memory ≡ true → smallest_cpu_for memory ≤ k))
      × ((cpu : ℤ) → pair_is_legal cpu memory ≡ true → memory_exists_at_some_cpu memory ≡ true)
unfolding smallest_cpu_for pair_is_legal memory_exists_at_some_cpu
smallest_cpu_for_lem memory = (
  λ h.
      let (c, e) = exists-smallest fargate_sizes memory h in
      let same : smallest_cpu_for memory ≡ c = ground (arith, e) in
      (
        subst (λ n. legal_at fargate_sizes (pos n) memory ≡ true) (sym same)
            (smallest-IsLegal fargate_sizes memory c e),
        λ k l.
            subst (λ n. n ≤ k) (sym same)
              (smallest-le fargate_sizes memory c k fargate_sizes-rising e l),
      ),
  λ cpu l. legal-exists fargate_sizes cpu memory l,
)

-- Every memory of a size is at least twice its CPU and at most eight times.
unfoldable are_between : ℕ → List ℕ → Bool
are_between cpu [] = true
are_between cpu (m ∷ ms) = leb (2 * cpu) m && leb m (8 * cpu) && are_between cpu ms

unfoldable all_between : List Size → Bool
unfolding are_between
all_between [] = true
all_between (s ∷ ss) = are_between s.cpu s.memories && all_between ss

fargate_sizes-between : all_between fargate_sizes ≡ true
unfolding all_between are_between fargate_sizes step steps
fargate_sizes-between = refl

memory-between :
    (cpu m : ℕ) (ms : List ℕ)
    → are_between cpu ms ≡ true
    → has_memory ms (pos m) ≡ true
    → (2 * cpu ≤ m) × (m ≤ 8 * cpu)
unfolding are_between has_memory
memory-between cpu m [] a h = absurd (ground (arith, h))
memory-between cpu m (n ∷ ns) a h = ground (arith, a, h, memory-between cpu m ns)

legal-between :
    (cpu m : ℕ) (sizes : List Size)
    → all_between sizes ≡ true
    → legal_at sizes (pos cpu) (pos m) ≡ true
    → (2 * cpu ≤ m) × (m ≤ 8 * cpu)
unfolding all_between legal_at
legal-between cpu m [] a h = absurd (ground (arith, h))
legal-between cpu m (s ∷ ss) a h =
    ground (arith, a, h, legal-between cpu m ss, memory-between s.cpu m s.memories)

-- A legal pair has between two and eight megabytes of memory for each unit of CPU.
pub pair_is_legal_bounds :
    (cpu m : ℕ) → pair_is_legal (pos cpu) (pos m) ≡ true → (2 * cpu ≤ m) × (m ≤ 8 * cpu)
unfolding pair_is_legal
pair_is_legal_bounds cpu m h = legal-between cpu m fargate_sizes fargate_sizes-between h
