-- ===== src/Args/Translate.antt =====
-- internal/provider/aws/lambdaargs.go: `translate`, one level of a resource block against its schema. Parameters are
-- `lower`, `strings.ToLower` of Go's library, and `decoded`, what the decoder of YAML makes of the source of a scalar.
-- Go checks the values in the order of their names and stops at the first error. Here each value is checked where it stands,
-- and then the answers are sorted and read up to the first error.
use cloudcc.Base.{
  Bool, true, false, ◌&&◌, Option, none, some, List, [], ◌∷◌, ◌++◌, Text, codes, str_eq, str_lt,
  elem, ◌==◌, if◌then◌else◌,
}
use cloudcc.Config.Value.{Value, text, other, seq, block, Items, nil, cons, Entries, end, entry}
use cloudcc.Args.Schema.{
  Scalar, whole, truth, odd, Setting, set_int, set_text, set_bool, set_list, set_block, Settings,
  no_settings, put_setting, Complaint, Kind, arg_int, arg_string, arg_bool, arg_string_list, Arg,
  scalar_arg, block_arg, Schema, no_args, args, arg_name, arg_pulumi, by_name, owned_by_compiler,
  portable_args,
}

-- Why a name is not in the schema: the compiler sets it, it is a portable setting, or there is no such argument, with the
-- name that was perhaps meant.
pub data Unknown : Type 0 where
  owned : Unknown
  moved : Text → Unknown
  no_such_arg : Text → Unknown

pub data Want : Type 0 where
  whole_number some_text true_or_false a_list a_list_of_text : Want

pub data ArgError : Type 0 where
  unknown_arg : (path name : Text) → Unknown → ArgError
  wants_block : Text → ArgError
  wrong_kind : Text → Want → ArgError
  rejected : Text → Complaint → ArgError

pub data Answer (A : Type 0) : Type 0 where
  good : A → Answer A
  bad : ArgError → Answer A

-- The answer for one entry.
pub record Item : Type 0 where
  pub name : Text
  pub pulumi : Text
  pub result : Answer Setting

unfoldable pub without_underscores : Text → Text
without_underscores [] = []
without_underscores (c ∷ s) =
    let rest = without_underscores s in if c == b'_' then rest else c ∷ rest

abbrev pub join_path : Text → Text → Text
join_path path name = if str_eq path [] then name else path ++ codes "." ++ name

unfoldable pub all_text : Items → Bool
all_text nil = true
all_text (cons (text s) xs) = all_text xs
all_text (cons (other s) xs) = false
all_text (cons (seq ys) xs) = false
all_text (cons (block es) xs) = false

-- `if arg.Check != nil`, on a converted value.
abbrev pub checked : Text → Option (Setting → Option Complaint) → Setting → Answer Setting
checked full none v = good v
checked full (some check) v = elim (check v) [ none ↦ good v | some why ↦ bad (rejected full why) ]

unfoldable pub place_item : Item → List Item → List Item
unfolding str_lt
place_item i [] = i ∷ []
place_item i (j ∷ js) =
    let rest = place_item i js in if str_lt j.name i.name then j ∷ rest else i ∷ j ∷ js

unfoldable pub sort_items : List Item → List Item
unfolding place_item
sort_items [] = []
sort_items (i ∷ is) = place_item i (sort_items is)

unfoldable pub gather : Settings → List Item → Answer Settings
unfolding put_setting
gather out [] = good out
gather out (i ∷ is) = elim i.result [
  | bad e ↦ bad e
  | good v ↦ gather (put_setting i.pulumi v out) is
]

abbrev pub as_block : Answer Settings → Answer Setting
as_block (good m) = good (set_block m)
as_block (bad e) = bad e

module _ (lower : Text → Text) (decoded : Text → Scalar) where
  unfoldable pub flatten : Text → Text
  unfolding without_underscores
  flatten name = lower (without_underscores name)

  unfoldable pub closest_arg : Text → Schema → Text
  unfolding flatten str_eq
  closest_arg name no_args = []
  closest_arg name (args a schema) =
      let rest = closest_arg name schema in
      if str_eq (flatten (arg_name a)) (flatten name) then arg_name a else rest

  unfoldable pub moved_to : Text → List (Text × Text) → Option Text
  unfolding flatten str_eq
  moved_to name [] = none
  moved_to name ((arg, portable) ∷ m) =
      let rest = moved_to name m in
      if str_eq (flatten arg) (flatten name) then some portable else rest

  -- `unknownArg`.
  unfoldable pub unknown_reason : Text → Text → Schema → Unknown
  unfolding closest_arg moved_to elem
  unknown_reason path name schema =
      let suggested = no_such_arg (closest_arg name schema) in
      let at_top : Unknown = elim (moved_to name portable_args) [
        | none ↦ suggested
        | some portable ↦ moved portable
      ] in
      if elem name owned_by_compiler && str_eq path []
      then owned
      else if str_eq path []
      then at_top
      else suggested

  -- `scalar`: whole numbers stand for all of Go's types of numbers.
  unfoldable pub scalar : Text → Kind → Value → Answer Setting
  unfolding all_text
  scalar full arg_int (other s) = elim (decoded s) [
    | whole n ↦ good (set_int n)
    | truth b ↦ bad (wrong_kind full whole_number)
    | odd ↦ bad (wrong_kind full whole_number)
  ]
  scalar full arg_int (text s) = bad (wrong_kind full whole_number)
  scalar full arg_int (seq xs) = bad (wrong_kind full whole_number)
  scalar full arg_int (block es) = bad (wrong_kind full whole_number)
  scalar full arg_string (text s) = good (set_text s)
  scalar full arg_string (other s) = bad (wrong_kind full some_text)
  scalar full arg_string (seq xs) = bad (wrong_kind full some_text)
  scalar full arg_string (block es) = bad (wrong_kind full some_text)
  scalar full arg_bool (other s) = elim (decoded s) [
    | whole n ↦ bad (wrong_kind full true_or_false)
    | truth b ↦ good (set_bool b)
    | odd ↦ bad (wrong_kind full true_or_false)
  ]
  scalar full arg_bool (text s) = bad (wrong_kind full true_or_false)
  scalar full arg_bool (seq xs) = bad (wrong_kind full true_or_false)
  scalar full arg_bool (block es) = bad (wrong_kind full true_or_false)
  scalar full arg_string_list (seq xs) =
      if all_text xs then good (set_list xs) else bad (wrong_kind full a_list_of_text)
  scalar full arg_string_list (text s) = bad (wrong_kind full a_list)
  scalar full arg_string_list (other s) = bad (wrong_kind full a_list)
  scalar full arg_string_list (block es) = bad (wrong_kind full a_list)

  unfoldable pub scalar_item : Text → Arg → Value → Answer Setting
  unfolding scalar
  scalar_item full (scalar_arg name pulumi kind check) v = elim (scalar full kind v) [
    | bad e ↦ bad e
    | good s ↦ checked full check s
  ]
  scalar_item full (block_arg name pulumi fields) v = bad (wants_block full)

  unfoldable mutual
    pub translate_each : Text → Schema → Entries → List Item
    translate_each path schema end = []
    translate_each path schema (entry k v es) =
        elim (by_name k schema) [
          | none ↦ record {
            name = k;
            pulumi = [];
            result = bad (unknown_arg path k (unknown_reason path k schema));
          }
          | some a ↦ record {
            name = k;
            pulumi = arg_pulumi a;
            result = translate_value (join_path path k) a v;
          }
        ]
        ∷ translate_each path schema es

    pub translate_value : Text → Arg → Value → Answer Setting
    translate_value full a (text s) = scalar_item full a (text s)
    translate_value full a (other s) = scalar_item full a (other s)
    translate_value full a (seq xs) = scalar_item full a (seq xs)
    translate_value full a (block es) = elim a [
      | block_arg name pulumi fields ↦
          as_block (gather no_settings (sort_items (translate_each full fields es)))
      | scalar_arg name pulumi kind check ↦
          scalar_item full (scalar_arg name pulumi kind check) (block es)
    ]

  unfoldable pub translate : Text → Schema → Entries → Answer Settings
  unfolding translate_each translate_value gather sort_items
  translate path schema es = gather no_settings (sort_items (translate_each path schema es))
