-- ===== src/Pulumi/Tests.antt =====
-- internal/iac/pulumi_ts/expr.go on a unit with a function and a role, and a second unit whose id gives the same base.
use cloudcc.Base.{ℕ, zero, suc, ◌≡◌, refl, ap, some, List, [], ◌∷◌, Text, codes, All, arith}
use cloudcc.Ir.Defs.{Key}
use cloudcc.Pulumi.Names.{Namer, get, reserved_names, name_resources}
use cloudcc.Pulumi.Unique.{IsPrinting, IsNamed, name_resources_total}

-- A printing of numbers by strokes.
unfoldable strokes : ℕ → Text
strokes zero = b'1' ∷ []
strokes (suc n) = b'1' ∷ strokes n

strokes-filled : (n : ℕ) → strokes n ≡ [] → ⊥
unfolding strokes
strokes-filled zero h = cc
strokes-filled (suc n) h = cc

strokes-injective : (m n : ℕ) → strokes m ≡ strokes n → m ≡ n
unfolding strokes
strokes-injective zero zero h = refl
strokes-injective zero (suc n) h = absurd (strokes-filled n (ground (arith, h)))
strokes-injective (suc m) zero h = absurd (strokes-filled m (ground (arith, h)))
strokes-injective (suc m) (suc n) h = ap suc (strokes-injective m n (ground (arith, h)))

strokes-IsPrinting : IsPrinting strokes
strokes-IsPrinting = record { filled = strokes-filled; injective = strokes-injective }

abbrev unit_parts : List (Key × Text)
unit_parts =
    (record { kind = codes "aws.lambda"; id = codes "api" }, codes "fn")
    ∷ (record { kind = codes "aws.iam.role"; id = codes "api" }, codes "role")
    ∷ (record { kind = codes "aws.lambda"; id = codes "api-fn" }, [])
    ∷ []

name_resources_total_example :
    (v : Namer) × (name_resources strokes unit_parts ≡ some v)
    × IsNamed (reserved_names strokes) v
    × All (λ key. (n : Text) × (get v key.0 ≡ some n)) unit_parts
name_resources_total_example = name_resources_total strokes strokes-IsPrinting unit_parts
