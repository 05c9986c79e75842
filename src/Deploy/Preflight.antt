-- ===== src/Deploy/Preflight.antt =====
-- internal/deploy/preflight.go: `Preflight`. What it asks of the machine is a record: the files of the output, the tools on the
-- path, the state file as it is read, the variables of the environment and the files of `~/.aws`. Refusals and warnings are values.
use cloudcc.Base.{
  Bool, false, ◌&&◌, ◌||◌, not, Option, none, some, List, [], ◌∷◌, ◌++◌, Text, codes, str_eq,
  length, take, ltb, if◌then◌else◌,
}

-- The state file is absent, cannot be read or parsed, or has a fingerprint.
pub data StateRead : Type 0 where
  absent : StateRead
  broken : Text → StateRead
  fingerprint : Text → StateRead

pub record Machine : Type 0 where
  pub is_dir : Bool
  pub has_index : Bool
  pub has_pulumi : Bool
  pub has_uv : Bool
  pub state : StateRead
  pub getenv : Text → Text
  pub home : Option (Text → Bool)

pub record PreflightInput : Type 0 where
  pub current_fingerprint : Text
  pub require_credentials : Bool
  pub force : Bool

pub data Refusal : Type 0 where
  no_output no_index no_pulumi no_state : Refusal
  bad_state : Text → Refusal
  stale : (output current : Text) → Refusal
  no_credentials : Refusal

pub data Warning : Type 0 where
  no_uv forced_without_state forced_stale : Warning

-- A fingerprint has one byte for each character.
unfoldable pub short : Text → Text
unfolding str_eq
short f = if ltb 12 (length f) then take 12 f else if str_eq f [] then codes "(none)" else f

unfoldable pub credentials_present : Machine → Bool
unfolding str_eq
credentials_present m =
    let in_files : Bool = elim m.home [
      | none ↦ false
      | some exists ↦ exists (codes "credentials") || exists (codes "config")
    ] in
    not (str_eq (m.getenv (codes "AWS_ACCESS_KEY_ID")) [])
    || not (str_eq (m.getenv (codes "AWS_PROFILE")) [])
    || not (str_eq (m.getenv (codes "AWS_ROLE_ARN")) [])
    || in_files

abbrev pub is_stale : Text → Text → Bool
is_stale output current = not (str_eq current []) && not (str_eq output current)

-- The switch on the state: a refusal, or the warnings that it adds.
pub data Judged : Type 0 where
  refuses : Refusal → Judged
  goes_on : List Warning → Judged

unfoldable pub judge : StateRead → PreflightInput → Judged
unfolding short str_eq
judge absent i = if i.force then goes_on (forced_without_state ∷ []) else refuses no_state
judge (broken why) i = refuses (bad_state why)
judge (fingerprint output) i =
    let forced =
      if i.force
      then goes_on (forced_stale ∷ [])
      else refuses (stale (short output) (short i.current_fingerprint)) in
    if is_stale output i.current_fingerprint then forced else goes_on []

-- The warnings, and the refusal if there is one.
unfoldable pub preflight : Machine → PreflightInput → List Warning × Option Refusal
unfolding judge credentials_present
preflight m i =
    let tools : List Warning = if m.has_uv then [] else no_uv ∷ [] in
    let judged : List Warning × Option Refusal = elim (judge m.state i) [
      | refuses r ↦ (tools, some r)
      | goes_on ws ↦ (
        tools ++ ws,
        if i.require_credentials && not (credentials_present m) then some no_credentials else none,
      )
    ] in
    if not m.is_dir
    then ([], some no_output)
    else if not m.has_index
    then ([], some no_index)
    else if not m.has_pulumi
    then ([], some no_pulumi)
    else judged
