-- ===== src/Deploy/Tests.antt =====
-- internal/deploy/preflight.go on a stale output.
use cloudcc.Base.{◌≡◌, ◌↔◌, refl, true, false, none, some, [], ◌∷◌, codes, str_eq}
use cloudcc.Deploy.Preflight.{
  Machine, PreflightInput, fingerprint, stale, no_uv, forced_stale, short, judge, preflight,
}
use cloudcc.Deploy.Ready.{IsReady, preflight_iff}

abbrev laptop : Machine
laptop = record {
  is_dir = true;
  has_index = true;
  has_pulumi = true;
  has_uv = false;
  state = fingerprint (codes "0123456789abcdef");
  getenv = λ name. [];
  home = none;
}

abbrev changed : PreflightInput
changed = record {
  current_fingerprint = codes "fedcba98";
  require_credentials = false;
  force = false;
}

stale_refused :
    preflight laptop changed ≡ (no_uv ∷ [], some (stale (codes "0123456789ab") (codes "fedcba98")))
unfolding preflight judge short str_eq
stale_refused = refl

preflight_iff_example :
    (preflight laptop (record changed { force = true }) ≡ (no_uv ∷ forced_stale ∷ [], none))
    ↔ IsReady laptop (record changed { force = true }) (no_uv ∷ forced_stale ∷ [])
preflight_iff_example =
    preflight_iff laptop (record changed { force = true }) (no_uv ∷ forced_stale ∷ [])
