-- ===== src/Args/Units.antt =====
-- internal/provider/aws/lambdaargs.go and containerargs.go: the arguments of a unit that is a function or a container.
-- Where Go looks at the keys of a map in no fixed order and refuses the first wrong one, here it is the first of the list.
use cloudcc.Base.{
  ℕ, not, Option, none, some, List, [], ◌∷◌, Text, codes, str_eq, fetch, dict_keys, sort_strings,
  if◌then◌else◌,
}
use cloudcc.Base.Int.{ℤ, pos, is_zero}
use cloudcc.Config.Value.{Entries, end, entry, get_entry}
use cloudcc.Config.Resource.{ResourceConfig}
use cloudcc.Config.App.{App, Section}
use cloudcc.Args.Schema.{
  Scalar, Setting, set_int, set_text, set_bool, set_list, set_block, Settings, no_settings, setting,
  put_setting, fetch_setting, range_complaint, Complaint, lambda_args, portable_args,
  function_resource_key,
}
use cloudcc.Args.Translate.{ArgError, good, bad, translate}
use cloudcc.Args.Tables.{task_args, memory_exists_at_some_cpu, smallest_cpu_for, pair_is_legal}

-- `TaskDefinitionResourceKey`.
abbrev pub task_definition_resource_key : Text
task_definition_resource_key = codes "aws.ecs.TaskDefinition"

-- A map that is absent or nil has no entries.
abbrev pub entries_of : Option (Option Entries) → Entries
entries_of none = end
entries_of (some none) = end
entries_of (some (some es)) = es

-- The loop over the keys that refuses every resource but one.
unfoldable pub foreign_key : Text → List (Text × Option Entries) → Option Text
unfolding str_eq
foreign_key own [] = none
foreign_key own ((k, es) ∷ m) =
    let rest = foreign_key own m in if str_eq k own then rest else some k

unfoldable pub portable_entry : Entries → Option (Text × Text)
unfolding fetch
portable_entry end = none
portable_entry (entry k v es) =
    let rest = portable_entry es in
    elim (fetch k portable_args) [ none ↦ rest | some portable ↦ some (k, portable) ]

-- `for k, v := range translated { out[k] = v }`.
unfoldable pub put_settings : Settings → Settings → Settings
unfolding put_setting
put_settings no_settings out = out
put_settings (setting k v m) out = put_settings m (put_setting k v out)

-- `delete`.
unfoldable pub remove_setting : Text → Settings → Settings
unfolding str_eq
remove_setting k no_settings = no_settings
remove_setting k (setting j v m) =
    let rest = remove_setting k m in if str_eq k j then rest else setting j v rest

pub data LambdaError : Type 0 where
  bad_memory bad_timeout : Complaint → LambdaError
  unknown_resource : Text → LambdaError
  portable_setting : Text → Text → LambdaError
  bad_block : ArgError → LambdaError

pub data LambdaAnswer : Type 0 where
  with_args : Settings → LambdaAnswer
  lambda_refused : LambdaError → LambdaAnswer

pub record Task : Type 0 where
  pub cpu : ℤ
  pub memory : ℤ
  pub extra : Settings

pub data TaskError : Type 0 where
  has_timeout : TaskError
  other_resource : Text → TaskError
  portable_memory : TaskError
  bad_task_block : ArgError → TaskError
  no_such_memory : ℤ → TaskError
  no_such_pair : ℤ → ℤ → TaskError

pub data TaskAnswer : Type 0 where
  sized : Task → TaskAnswer
  task_refused : TaskError → TaskAnswer

-- `extra["cpu"].(int)`.
abbrev pub requested_cpu : Option Setting → Option ℤ
requested_cpu none = none
requested_cpu (some (set_int n)) = some n
requested_cpu (some (set_text s)) = none
requested_cpu (some (set_bool b)) = none
requested_cpu (some (set_list xs)) = none
requested_cpu (some (set_block m)) = none

-- The portable layer: a setting that is not given has no complaint.
abbrev pub portable_complaint : ℕ → ℕ → Text → ℤ → Option Complaint
portable_complaint low high unit n = if is_zero n then none else range_complaint low high unit n

abbrev pub put_portable : Text → ℤ → Settings → Settings
unfolding put_setting
put_portable name n out = if is_zero n then out else put_setting name (set_int n) out

module _ (lower : Text → Text) (decoded : Text → Scalar) where
  -- From the provider block on, with what the portable layer has put out.
  unfoldable pub lambda_block : Entries → Settings → LambdaAnswer
  unfolding portable_entry put_settings
  lambda_block end out = with_args out
  lambda_block (entry k v es) out = elim (portable_entry (entry k v es)) [
    | some (name, portable) ↦ lambda_refused (portable_setting name portable)
    | none ↦ elim (translate lower decoded [] lambda_args (entry k v es)) [
      | bad e ↦ lambda_refused (bad_block e)
      | good m ↦ with_args (put_settings m out)
    ]
  ]

  unfoldable pub lambda_function_args : ResourceConfig → LambdaAnswer
  unfolding lambda_block foreign_key fetch
  lambda_function_args cfg = elim (portable_complaint 128 10240 (codes "MB") cfg.memory) [
    | some why ↦ lambda_refused (bad_memory why)
    | none ↦ elim (portable_complaint 1 900 (codes "seconds") cfg.timeout) [
      | some why ↦ lambda_refused (bad_timeout why)
      | none ↦ elim (foreign_key function_resource_key cfg.provider_args) [
        | some key ↦ lambda_refused (unknown_resource key)
        | none ↦ lambda_block (entries_of (fetch function_resource_key cfg.provider_args)) (
            put_portable (codes "timeout") cfg.timeout
              (put_portable (codes "memorySize") cfg.memory no_settings))
      ]
    ]
  ]

  -- From the translated block on.
  unfoldable pub size_task : ℤ → Settings → TaskAnswer
  unfolding memory_exists_at_some_cpu smallest_cpu_for pair_is_legal fetch_setting remove_setting
  size_task memory extra =
      let fitted : TaskAnswer = elim (requested_cpu (fetch_setting (codes "cpu") extra)) [
        | none ↦
            sized (record { cpu = pos (smallest_cpu_for memory); memory = memory; extra = extra })
        | some cpu ↦
            if pair_is_legal cpu memory
            then sized
                (record { cpu = cpu; memory = memory; extra = remove_setting (codes "cpu") extra })
            else task_refused (no_such_pair cpu memory)
      ] in
      if memory_exists_at_some_cpu memory then fitted else task_refused (no_such_memory memory)

  -- The default of the CPU is not used: without a CPU in the block the smallest that fits is taken.
  unfoldable pub task_definition_args : ResourceConfig → ℤ → ℤ → TaskAnswer
  unfolding foreign_key fetch get_entry size_task
  task_definition_args cfg default_cpu default_memory =
      let block = entries_of (fetch task_definition_resource_key cfg.provider_args) in
      let memory = if is_zero cfg.memory then default_memory else cfg.memory in
      let translated : TaskAnswer = elim (get_entry (codes "memory") block) [
        | some v ↦ task_refused portable_memory
        | none ↦ elim (translate lower decoded [] task_args block) [
          | bad e ↦ task_refused (bad_task_block e)
          | good extra ↦ size_task memory extra
        ]
      ] in
      let own : TaskAnswer = elim (foreign_key task_definition_resource_key cfg.provider_args) [
        | some key ↦ task_refused (other_resource key)
        | none ↦ translated
      ] in
      if is_zero cfg.timeout then own else task_refused has_timeout

-- `configured`: what a declaration sets that only a unit may set. Of the resources of a block the least key is named; here
-- it is any.
pub data Configured : Type 0 where
  sets_block sets_memory sets_timeout : Configured

abbrev pub configured : ResourceConfig → Option Configured
configured rc = elim rc.provider_args [
  | b ∷ blocks ↦ some sets_block
  | [] ↦
      if not (is_zero rc.memory)
      then some sets_memory
      else if not (is_zero rc.timeout)
      then some sets_timeout
      else none
]

-- The order in which the ids of one section are looked at is that of their names.
pub record Misplaced : Type 0 where
  pub label : Text
  pub id : Text
  pub what : Configured

unfoldable pub misplaced_in : Text → Section → List Text → Option Misplaced
unfolding fetch
misplaced_in label entries [] = none
misplaced_in label entries (id ∷ ids) =
    let rest = misplaced_in label entries ids in
    elim (fetch id entries) [
      | none ↦ rest
      | some rc ↦ elim (configured rc) [
        | none ↦ rest
        | some what ↦ some (record { label = label; id = id; what = what })
      ]
    ]

unfoldable pub misplaced : List (Text × Section) → Option Misplaced
unfolding misplaced_in sort_strings
misplaced [] = none
misplaced ((label, entries) ∷ sections) =
    elim (misplaced_in label entries (sort_strings (dict_keys entries))) [
      | some m ↦ some m
      | none ↦ misplaced sections
    ]

abbrev pub swept : App → List (Text × Section)
swept app =
    (codes "exposed", app.exposed)
    ∷ (codes "persisted", app.persisted)
    ∷ (codes "pubsub", app.pubsub)
    ∷ (codes "static_units", app.static_units)
    ∷ (codes "config", app.config_vars)
    ∷ []

-- The error of the check, if there is one.
unfoldable pub check_configuration_is_supported : App → Option Misplaced
unfolding misplaced
check_configuration_is_supported app = misplaced (swept app)
