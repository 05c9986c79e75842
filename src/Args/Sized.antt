-- ===== src/Args/Sized.antt =====
-- internal/provider/aws/containerargs.go: every answer of `TaskDefinitionArgs`.
use cloudcc.Base.{
  ℕ, ◌≤◌, ◌≡◌, refl, sym, subst, true, false, Option, none, some, [], Text, codes, fetch,
  if◌then◌else◌, arith, Bool-cases, Option-cases, inl, inr,
}
use cloudcc.Base.Int.{ℤ, pos, is_zero}
use cloudcc.Config.Value.{Value, Entries, get_entry}
use cloudcc.Config.Resource.{ResourceConfig}
use cloudcc.Args.Schema.{Scalar, Settings, fetch_setting}
use cloudcc.Args.Translate.{ArgError, good, translate}
use cloudcc.Args.Tables.{task_args, memory_exists_at_some_cpu, smallest_cpu_for, pair_is_legal}
use cloudcc.Args.Units.{
  task_definition_resource_key, entries_of, foreign_key, Task, TaskAnswer, sized, task_refused,
  has_timeout, other_resource, portable_memory, bad_task_block, no_such_memory, no_such_pair,
  requested_cpu, size_task, task_definition_args,
}
use cloudcc.Args.Conforms.{IsConforming, translate_iff}
use cloudcc.Args.Gathered.{Answer-cases}
use cloudcc.Args.Accepted.{IsOwn, foreign_key-IsOwn, IsOwn-foreign_key}
use cloudcc.Args.Sizes.{smallest_cpu_for_lem}

abbrev task_block : ResourceConfig → Entries
task_block cfg = entries_of (fetch task_definition_resource_key cfg.provider_args)

abbrev task_memory : ResourceConfig → ℤ → ℤ
task_memory cfg default_memory = if is_zero cfg.memory then default_memory else cfg.memory

-- The CPU of a task: the one that the block asks for, or the smallest that goes with the memory.
abbrev pub IsChosen : Option ℤ → ℤ → ℤ → Type 0
IsChosen (some cpu) memory chosen = chosen ≡ cpu
IsChosen none memory chosen =
    (c : ℕ) × (chosen ≡ pos c) × ((k : ℕ) → pair_is_legal (pos k) memory ≡ true → c ≤ k)

-- From the translated block on.
pub data IsFitted (memory : ℤ) (extra : Settings) : TaskAnswer → Type 0 where
  fits :
      {t : Task}
      → t.memory ≡ memory
      → pair_is_legal t.cpu memory ≡ true
      → IsChosen (requested_cpu (fetch_setting (codes "cpu") extra)) memory t.cpu
      → IsFitted memory extra (sized t)
  no_memory :
      ((cpu : ℤ) → pair_is_legal cpu memory ≡ false)
      → IsFitted memory extra (task_refused (no_such_memory memory))
  no_pair :
      (cpu : ℤ)
      → requested_cpu (fetch_setting (codes "cpu") extra) ≡ some cpu
      → pair_is_legal cpu memory ≡ false
      → IsFitted memory extra (task_refused (no_such_pair cpu memory))

pub data IsSized (lower : Text → Text) (decoded : Text → Scalar) (cfg : ResourceConfig)
    (default_memory : ℤ) : TaskAnswer → Type 0 where
  timed :
      is_zero cfg.timeout ≡ false
      → IsSized lower decoded cfg default_memory (task_refused has_timeout)
  foreign :
      (key : Text)
      → (IsOwn task_definition_resource_key cfg.provider_args → ⊥)
      → IsSized lower decoded cfg default_memory (task_refused (other_resource key))
  portable :
      (v : Value)
      → get_entry (codes "memory") (task_block cfg) ≡ some v
      → IsSized lower decoded cfg default_memory (task_refused portable_memory)
  unfit :
      (e : ArgError)
      → (IsConforming decoded task_args (task_block cfg) → ⊥)
      → IsSized lower decoded cfg default_memory (task_refused (bad_task_block e))
  fitted :
      {a : TaskAnswer}
      → is_zero cfg.timeout ≡ true
      → IsOwn task_definition_resource_key cfg.provider_args
      → get_entry (codes "memory") (task_block cfg) ≡ none
      → (extra : Settings) → translate lower decoded [] task_args (task_block cfg) ≡ good extra
      → IsFitted (task_memory cfg default_memory) extra a
      → IsSized lower decoded cfg default_memory a

module _ (lower : Text → Text) (decoded : Text → Scalar) where
  size_task-IsFitted :
      (memory : ℤ) (extra : Settings) → IsFitted memory extra (size_task lower decoded memory extra)
  unfolding size_task
  size_task-IsFitted memory extra = elim (Bool-cases (memory_exists_at_some_cpu memory)) [
    | inr none_has ↦ rw none_has (
        no_memory (λ cpu. elim (Bool-cases (pair_is_legal cpu memory)) [
          | inl l ↦ absurd (ground (arith, none_has, (smallest_cpu_for_lem memory).1 cpu l))
          | inr n ↦ n
        ]))
    | inl one_has ↦ elim (Option-cases (requested_cpu (fetch_setting (codes "cpu") extra))) [
      | inl free ↦
          let both = (smallest_cpu_for_lem memory).0 one_has in
          rw (one_has, free)
            (fits refl both.0 (
              subst (λ o. IsChosen o memory (pos (smallest_cpu_for memory))) (sym free)
                (smallest_cpu_for memory, refl, both.1)))
      | inr (cpu, asked) ↦ elim (Bool-cases (pair_is_legal cpu memory)) [
        | inl legal ↦
            rw (one_has, asked, legal)
              (fits refl legal (subst (λ o. IsChosen o memory cpu) (sym asked) refl))
        | inr illegal ↦ rw (one_has, asked, illegal) (no_pair cpu asked illegal)
      ]
    ]
  ]

  -- Every answer of `TaskDefinitionArgs`. A task that is sized has the configured memory, or the default, in a pair that
  -- Fargate has, with the CPU that the block asks for or the smallest that goes with the memory. An error says truly that
  -- there is a timeout, a block of another resource, a portable memory in the block, a block that does not conform to
  -- the schema, a memory that goes with no CPU, or a CPU and a memory that do not go together.
  pub task_definition_args-IsSized :
      (cfg : ResourceConfig) (default_cpu default_memory : ℤ)
      → IsSized lower decoded cfg default_memory
          (task_definition_args lower decoded cfg default_cpu default_memory)
  unfolding task_definition_args
  task_definition_args-IsSized cfg default_cpu default_memory =
      elim (Bool-cases (is_zero cfg.timeout)) [
        | inr time ↦ rw time (timed time)
        | inl no_time ↦
            elim (Option-cases (foreign_key task_definition_resource_key cfg.provider_args)) [
              | inr (key, other) ↦
                  rw (no_time, other)
                    (foreign key (λ own. ground (
                      arith,
                      IsOwn-foreign_key task_definition_resource_key cfg.provider_args own,
                      other,
                    )))
              | inl own ↦ elim (Option-cases (get_entry (codes "memory") (task_block cfg))) [
                | inr (v, there) ↦ rw (no_time, own, there) (portable v there)
                | inl none_there ↦
                    elim (Answer-cases (translate lower decoded [] task_args (task_block cfg))) [
                      | inl (e, wrong) ↦
                          rw (no_time, own, none_there, wrong)
                            (unfit e (λ c.
                              let (m, fine) =
                                (translate_iff lower decoded [] task_args (task_block cfg)).1 c in
                              ground (arith, fine, wrong)))
                      | inr (extra, fine) ↦
                          rw (no_time, own, none_there, fine)
                            (fitted no_time
                              (foreign_key-IsOwn task_definition_resource_key cfg.provider_args own)
                              none_there extra fine
                              (size_task-IsFitted (task_memory cfg default_memory) extra))
                    ]
              ]
            ]
      ]
