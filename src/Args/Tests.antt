-- ===== src/Args/Tests.antt =====
-- internal/provider/aws/lambdaargs.go and containerargs.go on small configurations.
use cloudcc.Base.{
  sort_strings, ◌≡◌, ◌↔◌, refl, true, none, some, [], ◌∷◌, Text, codes, str_eq, str_lt, fetch,
}
use cloudcc.Base.Int.{pos}
use cloudcc.Config.Value.{other, block, Entries, end, entry, get_entry}
use cloudcc.Config.Resource.{ResourceConfig, blank}
use cloudcc.Args.Schema.{
  Scalar, whole, set_int, set_block, Settings, no_settings, setting, put_setting, fetch_setting,
  by_name,
}
use cloudcc.Args.Translate.{
  place_item, sort_items, gather, scalar, scalar_item, translate_each, translate_value, translate,
}
use cloudcc.Args.Tables.{
  fargate_sizes, step, steps, has_memory, has_cpu, valid_fargate_cpu, exists_at, smallest_at,
  legal_at, memory_exists_at_some_cpu, smallest_cpu_for, pair_is_legal,
}
use cloudcc.Args.Units.{
  foreign_key, portable_entry, put_settings, remove_setting, with_args, sized, lambda_block,
  lambda_function_args, size_task, task_definition_args, check_configuration_is_supported,
  misplaced, misplaced_in,
}
use cloudcc.Args.Accepted.{IsLambdaConfig, lambda_function_args_iff}
use cloudcc.Config.App.{App}
use cloudcc.Args.Sized.{IsSized, task_definition_args-IsSized}

-- The only scalar of these blocks.
abbrev two_thousand : Text → Scalar
two_thousand s = whole (pos 2048)

abbrev storage : Entries
storage =
    entry (codes "ephemeral_storage") (block (entry (codes "size") (other (codes "2048")) end)) end

abbrev function_config : ResourceConfig
function_config = record blank {
  memory = pos 512;
  provider_args = (codes "aws.lambda.Function", some storage) ∷ [];
}

function_args :
    lambda_function_args (λ t. t) two_thousand function_config
    ≡ with_args (
        setting (codes "memorySize") (set_int (pos 512)) (
          setting
            (codes "ephemeralStorage")
            (set_block (setting (codes "size") (set_int (pos 2048)) no_settings))
            no_settings))
unfolding lambda_function_args lambda_block foreign_key portable_entry put_settings put_setting
    translate translate_each translate_value gather sort_items place_item scalar_item scalar by_name
    fetch str_eq str_lt
function_args = refl

abbrev container_config : ResourceConfig
container_config = record blank {
  memory = pos 8192;
  provider_args =
      (codes "aws.ecs.TaskDefinition", some (entry (codes "cpu") (other (codes "2048")) end)) ∷ [];
}

container_args :
    task_definition_args (λ t. t) two_thousand container_config (pos 256) (pos 512)
    ≡ sized (record { cpu = pos 2048; memory = pos 8192; extra = no_settings })
unfolding task_definition_args size_task foreign_key get_entry fetch_setting remove_setting
    translate translate_each translate_value gather sort_items place_item put_setting scalar_item
    scalar by_name fetch str_eq str_lt valid_fargate_cpu has_cpu fargate_sizes
    memory_exists_at_some_cpu exists_at pair_is_legal legal_at has_memory step steps
container_args = refl

-- Three gigabytes go with half a CPU at least.
fitted_cpu : smallest_cpu_for (pos 3072) ≡ 512
unfolding smallest_cpu_for smallest_at fargate_sizes has_memory step steps
fitted_cpu = refl

largest_pair : pair_is_legal (pos 16384) (pos 122880) ≡ true
unfolding pair_is_legal legal_at fargate_sizes has_memory step steps
largest_pair = refl

lambda_function_args_iff_example :
    ((m : Settings) × (lambda_function_args (λ t. t) two_thousand function_config ≡ with_args m))
    ↔ IsLambdaConfig two_thousand function_config
lambda_function_args_iff_example = lambda_function_args_iff (λ t. t) two_thousand function_config

task_definition_args-IsSized_example :
    IsSized
      (λ t. t)
      two_thousand
      container_config
      (pos 512)
      (task_definition_args (λ t. t) two_thousand container_config (pos 256) (pos 512))
task_definition_args-IsSized_example =
    task_definition_args-IsSized (λ t. t) two_thousand container_config (pos 256) (pos 512)

abbrev plain_app : App
plain_app = record {
  app = codes "shop";
  provider = codes "aws";
  out_dir = [];
  defaults = [];
  execution_units = (codes "web", function_config) ∷ [];
  exposed = [];
  persisted = (codes "orders", blank) ∷ [];
  pubsub = [];
  static_units = [];
  config_vars = [];
  logging = blank;
  pulumi_params = none;
}

plain_passes : check_configuration_is_supported plain_app ≡ none
unfolding check_configuration_is_supported misplaced misplaced_in fetch sort_strings str_lt str_eq
plain_passes = refl
