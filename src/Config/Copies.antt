-- ===== src/Config/Copies.antt =====
-- internal/config/config.go: the arguments of each resource, which `Merge` copies and then merges.
use cloudcc.Base.{
  ◌≡◌, refl, ap, sym, ◌∙◌, subst, true, Option, none, some, List, [], ◌∷◌, Text, str_eq, str_eq_iff,
  arith, Option-cases, Bool-cases, inl, inr, fetch, fetch-put, fetch-none, dict_keys,
  put-IsDistinct, IsDistinct,
}
use cloudcc.Config.Value.{
  Value, text, other, seq, block, Entries, end, get_entry, merge_value, deep_merge,
}
use cloudcc.Config.Resource.{
  ResourceConfig, held, copy_args, merge_args, merge_provider_args, merge,
}
use cloudcc.Config.Paths.{get-merge_entries}
use cloudcc.Config.Maps.{AreMap, deep_merge-AreMap}
use cloudcc.Config.Overlay.{at, is_quiet, IsLaid, none-IsLaid, deep_merge-IsLaid}

merge_fresh : (v : Value) → merge_value none v ≡ v
unfolding merge_value
merge_fresh (text s) = refl
merge_fresh (other s) = refl
merge_fresh (seq xs) = refl
merge_fresh (block es) = refl

-- A copy reads as the original.
at-copy :
    (k : Text) (ks : List Text) (p : Option Entries)
    → AreMap p
    → at (k ∷ ks) (deep_merge none p) ≡ at (k ∷ ks) p
unfolding deep_merge get_entry
at-copy k ks none o = refl
at-copy k ks (some es) o = elim (Option-cases (get_entry k es)) [
  | inl e ↦ ground (arith, get-merge_entries k end es o, e)
  | inr (v, e) ↦ ground (arith, get-merge_entries k end es o, e, merge_fresh v)
]

copied-IsLaid :
    (m base over : Option Entries)
    → AreMap base
    → IsLaid m (deep_merge none base) over
    → IsLaid m base over
copied-IsLaid m base over b l = record {
  wins = l.wins;
  keeps = λ ks. elim ks as (λ ks. is_quiet ks over ≡ true → at ks m ≡ at ks base) [
    | [] ↦ λ h. cc
    | k ∷ ks ↦ λ h. l.keeps (k ∷ ks) h ∙ at-copy k ks base b
  ];
}

-- The block of a resource.
abbrev pub args_of : Text → List (Text × Option Entries) → Option Entries
args_of k args = held (fetch k args)

args_of-copy_args :
    (k : Text) (args : List (Text × Option Entries))
    → args_of k (copy_args args) ≡ deep_merge none (args_of k args)
unfolding copy_args fetch
args_of-copy_args k [] = unfold deep_merge in refl
args_of-copy_args k ((j, es) ∷ args) = elim (Bool-cases (str_eq k j)) [
  | inl y ↦ rw y refl
  | inr n ↦ rw n (args_of-copy_args k args)
]

fetch-merge_args :
    (k : Text) (out over : List (Text × Option Entries))
    → IsDistinct (dict_keys over)
    → fetch k (merge_args out over) ≡ elim (fetch k over) [
      | none ↦ fetch k out
      | some args ↦ some (deep_merge (held (fetch k out)) args)
    ]
unfolding merge_args fetch
fetch-merge_args k out [] h = refl
fetch-merge_args k out ((j, args) ∷ over) h =
    let rest = merge_args out over in
    let same : fetch j rest ≡ fetch j out =
      fetch-merge_args j out over h.1 ∙ rw (fetch-none j over h.0) refl in
    fetch-put k j (deep_merge (held (fetch j rest)) args) rest ∙ elim (Bool-cases (str_eq k j)) [
      | inl y ↦ rw y (
          ap (λ o. some (deep_merge (held o) args))
            (same ∙ ap (λ x. fetch x out) (sym ((str_eq_iff k j).0 y))))
      | inr n ↦ rw n (fetch-merge_args k out over h.1)
    ]

-- What Go and the decoder give: maps, whose keys are different.
pub record IsWritten (rc : ResourceConfig) : Type 0 where
  pub params : AreMap rc.pulumi_params
  pub args : (k : Text) → AreMap (args_of k rc.provider_args)
  pub resources : IsDistinct (dict_keys rc.provider_args)

pub args-IsLaid :
    (k : Text) (base over : List (Text × Option Entries))
    → AreMap (args_of k base)
    → AreMap (args_of k over)
    → IsDistinct (dict_keys over)
    → IsLaid (args_of k (merge_provider_args base over)) (args_of k base) (args_of k over)
unfolding merge_provider_args
args-IsLaid k base over b o h =
    let copy = args_of-copy_args k base in
    let there = fetch-merge_args k (copy_args base) over h in
    copied-IsLaid (args_of k (merge_provider_args base over)) (args_of k base) (args_of k over) b
      (elim (Option-cases (fetch k over)) [
        | inl e ↦ rw (there, e, copy) (none-IsLaid (deep_merge none (args_of k base)))
        | inr (args, e) ↦
            rw (there, e, copy)
              (deep_merge-IsLaid (deep_merge none (args_of k base)) args
                (subst (λ q. AreMap (held q)) e o))
      ])

args-AreMap :
    (k : Text) (base over : List (Text × Option Entries))
    → AreMap (args_of k base)
    → AreMap (args_of k over)
    → IsDistinct (dict_keys over)
    → AreMap (args_of k (merge_provider_args base over))
unfolding merge_provider_args
args-AreMap k base over b o h =
    let copy = args_of-copy_args k base in
    let there = fetch-merge_args k (copy_args base) over h in
    let fresh = deep_merge-AreMap none (args_of k base) tt b in
    elim (Option-cases (fetch k over)) [
      | inl e ↦ rw (there, e, copy) fresh
      | inr (args, e) ↦
          rw (there, e, copy)
            (deep_merge-AreMap (deep_merge none (args_of k base)) args fresh
              (subst (λ q. AreMap (held q)) e o))
    ]

copy_args-keys : (args : List (Text × Option Entries)) → dict_keys (copy_args args) ≡ dict_keys args
unfolding copy_args
copy_args-keys [] = refl
copy_args-keys ((k, es) ∷ args) = ap (λ ks. k ∷ ks) (copy_args-keys args)

merge_args-IsDistinct :
    (out over : List (Text × Option Entries))
    → IsDistinct (dict_keys out)
    → IsDistinct (dict_keys (merge_args out over))
unfolding merge_args
merge_args-IsDistinct out [] h = h
merge_args-IsDistinct out ((k, args) ∷ over) h =
    let rest = merge_args out over in
    put-IsDistinct k (deep_merge (held (fetch k rest)) args) rest (merge_args-IsDistinct out over h)

pub merge-IsWritten :
    (base over : ResourceConfig) → IsWritten base → IsWritten over → IsWritten (merge base over)
unfolding merge merge_provider_args
merge-IsWritten base over b o = record {
  params = deep_merge-AreMap base.pulumi_params over.pulumi_params b.params o.params;
  args = λ k.
      unfold merge_provider_args in
      args-AreMap k base.provider_args over.provider_args (b.args k) (o.args k) o.resources;
  resources =
      merge_args-IsDistinct (copy_args base.provider_args) over.provider_args
        (subst IsDistinct (sym (copy_args-keys base.provider_args)) b.resources);
}
