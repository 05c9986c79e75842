-- ===== src/Config/Overlay.antt =====
-- internal/config/config.go: parameters of several layers, read through paths of keys.
use cloudcc.Base.{◌≡◌, refl, ◌∙◌, Bool, true, false, Option, none, some, List, [], ◌∷◌, Text}
use cloudcc.Config.Value.{
  Value, block, Entries, end, get_entry, merge_entries, merge_value, deep_merge, IsMap,
}
use cloudcc.Config.Maps.{AreMap}
use cloudcc.Config.Paths.{read, is_block, is_silent, leaf_wins, silent_keeps}

-- The value that parameters hold at a path.
abbrev pub at : List Text → Option Entries → Option Value
at ks none = none
at ks (some es) = read ks (block es)

-- Parameters say nothing of a path.
abbrev pub is_quiet : List Text → Option Entries → Bool
is_quiet [] params = false
is_quiet (k ∷ ks) none = true
is_quiet (k ∷ ks) (some es) = is_silent (k ∷ ks) (block es)

-- The parameters `m` are `base` with `over` on top: a value of `over` that is no block stands, and what `over`
-- says nothing of is that of `base`.
pub record IsLaid (m base over : Option Entries) : Type 0 where
  pub wins :
      (ks : List Text) (leaf : Value)
      → is_block leaf ≡ false
      → at ks over ≡ some leaf
      → at ks m ≡ some leaf
  pub keeps : (ks : List Text) → is_quiet ks over ≡ true → at ks m ≡ at ks base

pub none-IsLaid : (p : Option Entries) → IsLaid p p none
none-IsLaid p = record { wins = λ ks leaf b h. cc; keeps = λ ks h. refl }

silent_at :
    (ks : List Text) (base over : Entries)
    → IsMap over
    → is_quiet ks (some over) ≡ true
    → read ks (block (merge_entries base over)) ≡ read ks (block base)
silent_at [] base over o h = cc
silent_at (k ∷ ks) base over o h =
    unfold merge_value in silent_keeps (k ∷ ks) (block base) (block over) o h

leaf_at :
    (ks : List Text) (base over : Entries) (leaf : Value)
    → IsMap over
    → is_block leaf ≡ false
    → read ks (block over) ≡ some leaf
    → read ks (block (merge_entries base over)) ≡ some leaf
leaf_at ks base over leaf o b h =
    unfold merge_value in leaf_wins ks (some (block base)) (block over) leaf o b h

quiet_end :
    (ks : List Text) (over : Entries) → is_quiet ks (some over) ≡ true → read ks (block end) ≡ none
unfolding get_entry
quiet_end [] over h = cc
quiet_end (k ∷ ks) over h = refl

pub deep_merge-IsLaid :
    (base over : Option Entries) → AreMap over → IsLaid (deep_merge base over) base over
unfolding deep_merge
deep_merge-IsLaid none none o = none-IsLaid none
deep_merge-IsLaid (some base) none o = none-IsLaid (some base)
deep_merge-IsLaid none (some over) o = record {
  wins = λ ks leaf b h. leaf_at ks end over leaf o b h;
  keeps = λ ks h. silent_at ks end over o h ∙ quiet_end ks over h;
}
deep_merge-IsLaid (some base) (some over) o = record {
  wins = λ ks leaf b h. leaf_at ks base over leaf o b h;
  keeps = λ ks h. silent_at ks base over o h;
}

-- Parameters from three layers, the strongest last.
pub record IsStacked (m d t e : Option Entries) : Type 0 where
  pub explicit_wins :
      (ks : List Text) (leaf : Value)
      → is_block leaf ≡ false
      → at ks e ≡ some leaf
      → at ks m ≡ some leaf
  pub type_wins :
      (ks : List Text) (leaf : Value)
      → is_quiet ks e ≡ true
      → is_block leaf ≡ false
      → at ks t ≡ some leaf
      → at ks m ≡ some leaf
  pub default_stays :
      (ks : List Text) → is_quiet ks e ≡ true → is_quiet ks t ≡ true → at ks m ≡ at ks d

pub laid-IsStacked : (m y d t e : Option Entries) → IsLaid m y e → IsLaid y d t → IsStacked m d t e
laid-IsStacked m y d t e x l = record {
  explicit_wins = x.wins;
  type_wins = λ ks leaf q b h. x.keeps ks q ∙ l.wins ks leaf b h;
  default_stays = λ ks q r. x.keeps ks q ∙ l.keeps ks r;
}
