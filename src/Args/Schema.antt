-- ===== src/Args/Schema.antt =====
-- internal/provider/aws/lambdaargs.go: the schema of a resource block, and the checks of its arguments. The sentences of
-- errors are values that name what they speak of.
use cloudcc.Base.{
  ℕ, Bool, false, ◌||◌, not, Option, none, some, List, [], ◌∷◌, Text, codes, str_eq, elem, ltb,
  ◌==◌, if◌then◌else◌,
}
use cloudcc.Base.Int.{ℤ, pos, negsuc}
use cloudcc.Config.Value.{text, other, seq, block, Items, nil, cons}

-- What the decoder of YAML makes of a scalar that is no string: a number without a fraction, of any of Go's types for
-- numbers, a truth value, or something else.
pub data Scalar : Type 0 where
  whole : ℤ → Scalar
  truth : Bool → Scalar
  odd : Scalar

-- A converted value, in a map under Pulumi's names.
mutual
  pub data Setting : Type 0 where
    set_int : ℤ → Setting
    set_text : Text → Setting
    set_bool : Bool → Setting
    set_list : Items → Setting
    set_block : Settings → Setting

  pub data Settings : Type 0 where
    no_settings : Settings
    setting : Text → Setting → Settings → Settings

unfoldable pub put_setting : Text → Setting → Settings → Settings
put_setting k v no_settings = setting k v no_settings
put_setting k v (setting j w m) =
    if str_eq k j then setting k v m else setting j w (put_setting k v m)

unfoldable pub fetch_setting : Text → Settings → Option Setting
fetch_setting k no_settings = none
fetch_setting k (setting j w m) = if str_eq k j then some w else fetch_setting k m

-- The sentence of a check.
pub data Complaint : Type 0 where
  not_whole no_single_architecture : Complaint
  out_of_range : (low high : ℕ) → (unit : Text) → ℤ → Complaint
  below_no_reservation : ℤ → Complaint
  not_one_of : List Text → Text → Complaint
  bad_architecture : Text → Complaint
  no_such_size : ℤ → Complaint

-- The kinds of an argument that is no block.
pub data Kind : Type 0 where
  arg_int arg_string arg_bool arg_string_list : Kind

-- `lambdaArg`, without the line that explains it: a block has fields, and anything else a kind and perhaps a check.
mutual
  pub data Arg : Type 0 where
    scalar_arg : (name pulumi : Text) → Kind → Option (Setting → Option Complaint) → Arg
    block_arg : (name pulumi : Text) → Schema → Arg

  pub data Schema : Type 0 where
    no_args : Schema
    args : Arg → Schema → Schema

abbrev pub arg_name : Arg → Text
arg_name (scalar_arg name pulumi kind check) = name
arg_name (block_arg name pulumi fields) = name

abbrev pub arg_pulumi : Arg → Text
arg_pulumi (scalar_arg name pulumi kind check) = pulumi
arg_pulumi (block_arg name pulumi fields) = pulumi

-- `byName[name]`: of two arguments with one name the later one.
unfoldable pub by_name : Text → Schema → Option Arg
by_name k no_args = none
by_name k (args a schema) = elim (by_name k schema) [
  | none ↦ if str_eq k (arg_name a) then some a else none
  | some b ↦ some b
]

abbrev pub as_int : Setting → Option ℤ
as_int (set_int n) = some n
as_int (set_text s) = none
as_int (set_bool b) = none
as_int (set_list xs) = none
as_int (set_block m) = none

abbrev pub in_range : ℕ → ℕ → ℤ → Bool
in_range low high (pos n) = not (ltb n low || ltb high n)
in_range low high (negsuc n) = false

abbrev pub range_complaint : ℕ → ℕ → Text → ℤ → Option Complaint
range_complaint low high unit n =
    if in_range low high n then none else some (out_of_range low high unit n)

abbrev pub int_between : ℕ → ℕ → Text → Setting → Option Complaint
int_between low high unit v = elim (as_int v) [
  | none ↦ some not_whole
  | some n ↦ range_complaint low high unit n
]

-- Only a text gets to this check, in every schema.
abbrev pub one_of : List Text → Setting → Option Complaint
unfolding elem
one_of allowed (set_text s) = if elem s allowed then none else some (not_one_of allowed s)
one_of allowed (set_int n) = some (not_one_of allowed [])
one_of allowed (set_bool b) = some (not_one_of allowed [])
one_of allowed (set_list xs) = some (not_one_of allowed [])
one_of allowed (set_block m) = some (not_one_of allowed [])

abbrev pub reservation_complaint : ℤ → Option Complaint
reservation_complaint (pos n) = none
reservation_complaint (negsuc n) = if n == 0 then none else some (below_no_reservation (negsuc n))

abbrev pub valid_reservation : Setting → Option Complaint
valid_reservation v = elim (as_int v) [ none ↦ some not_whole | some n ↦ reservation_complaint n ]

-- Only a list of texts gets to this check.
abbrev pub architecture_complaint : Items → Option Complaint
unfolding elem
architecture_complaint nil = some no_single_architecture
architecture_complaint (cons v (cons w xs)) = some no_single_architecture
architecture_complaint (cons (text s) nil) =
    if elem s (codes "arm64" ∷ codes "x86_64" ∷ []) then none else some (bad_architecture s)
architecture_complaint (cons (other s) nil) = some (bad_architecture s)
architecture_complaint (cons (seq xs) nil) = some (bad_architecture [])
architecture_complaint (cons (block es) nil) = some (bad_architecture [])

abbrev pub valid_architectures : Setting → Option Complaint
valid_architectures (set_list xs) = architecture_complaint xs
valid_architectures (set_text s) = some no_single_architecture
valid_architectures (set_int n) = some no_single_architecture
valid_architectures (set_bool b) = some no_single_architecture
valid_architectures (set_block m) = some no_single_architecture

-- `lambdaArgs`.
abbrev pub lambda_args : Schema
lambda_args =
    args
      (scalar_arg (codes "architectures") (codes "architectures") arg_string_list
        (some valid_architectures))
      (args (scalar_arg (codes "description") (codes "description") arg_string none) (
        args
          (block_arg (codes "ephemeral_storage") (codes "ephemeralStorage") (
            args
              (scalar_arg (codes "size") (codes "size") arg_int
                (some (int_between 512 10240 (codes "MB"))))
              no_args))
          (args (scalar_arg (codes "layers") (codes "layers") arg_string_list none) (
            args (scalar_arg (codes "publish") (codes "publish") arg_bool none) (
              args
                (scalar_arg (codes "reserved_concurrent_executions")
                  (codes "reservedConcurrentExecutions") arg_int (some valid_reservation))
                (args
                  (block_arg (codes "snap_start") (codes "snapStart") (
                    args
                      (scalar_arg (codes "apply_on") (codes "applyOn") arg_string
                        (some (one_of (codes "PublishedVersions" ∷ codes "None" ∷ []))))
                      no_args))
                  (args
                    (block_arg (codes "tracing_config") (codes "tracingConfig") (
                      args
                        (scalar_arg (codes "mode") (codes "mode") arg_string
                          (some (one_of (codes "Active" ∷ codes "PassThrough" ∷ []))))
                        no_args))
                    no_args)))))))

-- The keys of `ownedByCompiler`.
abbrev pub owned_by_compiler : List Text
owned_by_compiler =
    codes "function_name"
    ∷ codes "name"
    ∷ codes "runtime"
    ∷ codes "handler"
    ∷ codes "role"
    ∷ codes "code"
    ∷ codes "s3_bucket"
    ∷ codes "s3_key"
    ∷ codes "filename"
    ∷ codes "image_uri"
    ∷ codes "environment"
    ∷ codes "vpc_config"
    ∷ []

abbrev pub portable_args : List (Text × Text)
portable_args = (codes "memory_size", codes "memory") ∷ (codes "timeout", codes "timeout") ∷ []

-- `FunctionResourceKey`.
abbrev pub function_resource_key : Text
function_resource_key = codes "aws.lambda.Function"
