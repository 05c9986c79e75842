-- ===== src/Config/Recorded.antt =====
-- internal/config/config.go: what `Record` writes back.
use cloudcc.Base.{◌≡◌, Bool, true, false, some, List, Text, fetch}
use cloudcc.Config.Value.{Value}
use cloudcc.Config.Paths.{is_block}
use cloudcc.Config.Overlay.{at}
use cloudcc.Config.Copies.{args_of}
use cloudcc.Config.Resource.{ResourceConfig}
use cloudcc.Config.App.{App, Slot, nowhere}

-- The slot of a kind that has a section.
abbrev pub has_section : Slot → Bool
has_section nowhere = false
has_section _ = true

-- The configuration `a` says what `b` says: every single setting, every environment variable, and in the parameters and the
-- arguments of each resource every value that is no block.
pub record Agrees (a b : ResourceConfig) : Type 0 where
  pub same_type : a.type ≡ b.type
  pub same_secret : a.secret ≡ b.secret
  pub same_value : a.value ≡ b.value
  pub same_retention_days : a.retention_days ≡ b.retention_days
  pub same_static_files : a.static_files ≡ b.static_files
  pub same_shared_files : a.shared_files ≡ b.shared_files
  pub same_index_document : a.index_document ≡ b.index_document
  pub same_memory : a.memory ≡ b.memory
  pub same_platform : a.platform ≡ b.platform
  pub same_timeout : a.timeout ≡ b.timeout
  pub same_environment :
      (k : Text) → fetch k a.environment_variables ≡ fetch k b.environment_variables
  pub same_params :
      (ks : List Text) (leaf : Value)
      → is_block leaf ≡ false
      → at ks b.pulumi_params ≡ some leaf
      → at ks a.pulumi_params ≡ some leaf
  pub same_args :
      (k : Text) (ks : List Text) (leaf : Value)
      → is_block leaf ≡ false
      → at ks (args_of k b.provider_args) ≡ some leaf
      → at ks (args_of k a.provider_args) ≡ some leaf
