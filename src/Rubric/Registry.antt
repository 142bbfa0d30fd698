-- ===== src/Rubric/Registry.antt =====
-- packages/rubric/src/rubric.ts: `assertRubricIsScorable` and `getRubric`, with the memo of the
-- versions that have been through the check as explicit state.
pub mod Memo
pub mod Published
mod Tests
use Prim.Native.Char.{code}
use mathlib.Core.List.{flat_map}
use vibefy.Prelude.{
  ℕ, zero, suc, ◌+◌, ◌≤◌, String, Bool, true, false, not, ◌&&◌, ◌||◌, Option, none, some, List, [],
  ◌∷◌, ◌++◌, map, Memᴰ, ◌≡◌, refl, ◌==◌, number_eq, text_eq, includes, any, all, leb, is_empty,
  if◌then◌else◌, Result, ok, err, ◌>>=◌, ◌>>◌, throw_if, arith,
}
use vibefy.Rubric.Types.{
  Number, absent, finite, not_finite, RubricGate, RubricDimension, RubricDefinition, Malformed,
  no_dimensions, bad_weight, weights_do_not_sum, no_gate_id, blocks_not_boolean, no_label,
  no_rationale, cap_not_a_number, selects_nothing, unknown_rule, unknown_dimension, RubricError,
  unknown_version, malformed,
}
use vibefy.Rubric.Fixed.{scale}

abbrev pub run_fact_gates : List String
run_fact_gates = "GATE-NO-AUTHORISATION-COVERAGE" ∷ []

-- The characters that `String.prototype.trim` removes.
abbrev is_white : ℕ → Bool
is_white c =
    leb 9 c && leb c 13
    || includes (32 ∷ 160 ∷ 0x1680 ∷ 0x2028 ∷ 0x2029 ∷ 0x202F ∷ 0x205F ∷ 0x3000 ∷ 0xFEFF ∷ []) c
    || leb 0x2000 c && leb c 0x200A

-- `text.trim().length === 0`.
unfoldable pub is_blank : String → Bool
is_blank String.[] = true
is_blank (String.◌∷◌ c s) = is_white (code c) && is_blank s

-- `typeof x !== 'string' || x.trim().length === 0`.
abbrev is_missing_text : Option String → Bool
unfolding is_blank
is_missing_text none = true
is_missing_text (some s) = is_blank s

-- `typeof gate.id !== 'string' || gate.id.length === 0`.
abbrev is_missing_id : Option String → Bool
is_missing_id none = true
is_missing_id (some s) = s == ""

-- The value in a message; only read where the id is there.
abbrev named : Option String → String
named none = "(a gate with no id)"
named (some s) = if s == "" then "(a gate with no id)" else s

-- `!Number.isFinite(weight) || weight <= 0`.
abbrev pub is_bad_weight : Number → Bool
is_bad_weight (finite zero) = true
is_bad_weight (finite (suc n)) = false
is_bad_weight _ = true

abbrev pub weight_of : Number → ℕ
weight_of (finite n) = n
weight_of _ = 0

pub check_weights : List RubricDimension → Result Malformed (Unit {0})
check_weights [] = ok tt
check_weights (d ∷ ds) = do throw_if (is_bad_weight d.weight) (bad_weight d.id); check_weights ds

unfoldable pub weight_total : List RubricDimension → ℕ
weight_total [] = 0
weight_total (d ∷ ds) = weight_of d.weight + weight_total ds

abbrev pub is_not_boolean : Option Bool → Bool
is_not_boolean none = true
is_not_boolean (some _) = false

-- `capOverallAt !== undefined && !Number.isFinite(capOverallAt)`.
abbrev is_bad_cap : Number → Bool
is_bad_cap not_finite = true
is_bad_cap _ = false

-- `selector ?? []`.
abbrev pub or_empty : Option (List String) → List String
or_empty none = []
or_empty (some xs) = xs

abbrev pub known_rules : RubricDefinition → List String
known_rules r = flat_map (λ (d : RubricDimension). d.criteria) r.dimensions

abbrev pub known_dimensions : RubricDefinition → List String
known_dimensions r = map (λ (d : RubricDimension). d.id) r.dimensions

-- `for (const name of names) if (!known.has(name)) throw …`.
pub check_known : List String → (String → Malformed) → List String → Result Malformed (Unit {0})
check_known known e [] = ok tt
check_known known e (name ∷ names) = do
  throw_if (not (includes known name)) (e name)
  check_known known e names

abbrev pub is_run_fact : Option String → Bool
is_run_fact none = false
is_run_fact (some id) = includes run_fact_gates id

pub check_selectors : RubricDefinition → RubricGate → Result Malformed (Unit {0})
unfolding check_known
check_selectors r g =
    let selecting : Result Malformed (Unit {0}) = do
      throw_if
          (is_empty (or_empty g.applies_to_rules) && is_empty (or_empty g.applies_to_dimensions))
          (selects_nothing (named g.id))
      check_known (known_rules r) (unknown_rule (named g.id)) (or_empty g.applies_to_rules)
      check_known (known_dimensions r) (unknown_dimension (named g.id))
          (or_empty g.applies_to_dimensions)
    in if is_run_fact g.id then ok tt else selecting

pub check_gate : RubricDefinition → RubricGate → Result Malformed (Unit {0})
check_gate r g = do
  throw_if (is_missing_id g.id) no_gate_id
  throw_if (is_not_boolean g.blocks_certification) (blocks_not_boolean (named g.id))
  throw_if (is_missing_text g.label) (no_label (named g.id))
  throw_if (is_missing_text g.rationale) (no_rationale (named g.id))
  throw_if (is_bad_cap g.cap_overall_at) (cap_not_a_number (named g.id))
  check_selectors r g

pub check_gates : RubricDefinition → List RubricGate → Result Malformed (Unit {0})
check_gates r [] = ok tt
check_gates r (g ∷ gs) = do check_gate r g; check_gates r gs

-- The body of `assertRubricIsScorable` for a version that is not in the memo.
-- `Number(weightTotal.toFixed(10)) !== 1` is the exact sum in fixed point.
pub check_rubric : RubricDefinition → Result Malformed (Unit {0})
check_rubric r = do
  throw_if (is_empty r.dimensions) no_dimensions
  check_weights r.dimensions
  throw_if (not (weight_total r.dimensions == scale))
      (weights_do_not_sum (weight_total r.dimensions))
  check_gates r r.gates

abbrev wrap : String → Result Malformed (Unit {0}) → Result RubricError (Unit {0})
wrap version (ok u) = ok u
wrap version (err m) = err (malformed version m)

-- The memo after the call, beside what the call returns or throws.
pub assert_rubric_is_scorable :
    List String → RubricDefinition → List String × Result RubricError (Unit {0})
assert_rubric_is_scorable validated r =
    if includes validated r.version then (validated, ok tt) else elim (check_rubric r) [
      | ok _ ↦ (r.version ∷ validated, ok tt)
      | err m ↦ (validated, err (malformed r.version m))
    ]

-- The registry is the object literal `REGISTRY`: the versions in order, with their definitions.
abbrev pub Registry : Type 0
Registry = List (String × RubricDefinition)

pub lookup_version : Registry → String → Option RubricDefinition
lookup_version [] version = none
lookup_version ((v, r) ∷ rest) version =
    if v == version then some r else lookup_version rest version

pub get_rubric : Registry → List String → String → List String × Result RubricError RubricDefinition
get_rubric registry validated version = elim (lookup_version registry version) [
  | none ↦ (validated, err (unknown_version version))
  | some r ↦
      let (validated', checked) = assert_rubric_is_scorable validated r in
      (validated', checked >>= λ _. ok r)
]
