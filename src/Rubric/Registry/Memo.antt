-- ===== src/Rubric/Registry/Memo.antt =====
-- What the validator of packages/rubric/src/rubric.ts has established when it lets a rubric
-- through, and that the memo of validated versions never stands in for the check.
use vibefy.Prelude.{
  ◌<◌, String, Bool, true, false, not, ◌&&◌, some, List, [], ◌∷◌, Memᴰ, ◌≡◌, ap, ◌∙◌, ◌≢◌, ◌⊎◌, inl,
  inr, ◌==◌, number_eq, text_eq, includes, includes_sound, mem_cons_elim, is_empty, Bool-cases,
  Option-cases, Result-cases, ok, >>=-eq-ok, throw_if, throw_if-eq-ok, arith,
}
use vibefy.Rubric.Types.{RubricGate, RubricDimension, RubricDefinition, Malformed}
use vibefy.Rubric.Fixed.{scale}
use vibefy.Rubric.Registry.{
  is_bad_weight, weight_of, check_weights, weight_total, or_empty, known_rules, known_dimensions,
  check_known, is_run_fact, check_selectors, check_gate, check_gates, check_rubric,
  assert_rubric_is_scorable, Registry, lookup_version, get_rubric,
}

-- A gate that says whether it blocks certification, and that something can trigger.
pub record GateHolds (r : RubricDefinition) (g : RubricGate) : Type 0 where
  pub says : (b : Bool) × (g.blocks_certification ≡ some b)
  pub can_trigger :
      (is_run_fact g.id ≡ true)
      ⊎ (or_empty g.applies_to_rules ≢ [])
      ⊎ (or_empty g.applies_to_dimensions ≢ [])
  pub rules_known :
      is_run_fact g.id ≡ false
      → (rule : String) → Memᴰ rule (or_empty g.applies_to_rules)
      → Memᴰ rule (known_rules r)
  pub dimensions_known :
      is_run_fact g.id ≡ false
      → (id : String) → Memᴰ id (or_empty g.applies_to_dimensions)
      → Memᴰ id (known_dimensions r)

pub record IsScorable (r : RubricDefinition) : Type 0 where
  pub some_dimension : r.dimensions ≢ []
  pub weights_positive : (d : RubricDimension) → Memᴰ d r.dimensions → 0 < weight_of d.weight
  pub weights_sum : weight_total r.dimensions ≡ scale
  pub gates_hold : (g : RubricGate) → Memᴰ g r.gates → GateHolds r g

good_weight : (d : RubricDimension) → is_bad_weight d.weight ≡ false → 0 < weight_of d.weight
good_weight d h = ground arith

check_weights-positive :
    (ds : List RubricDimension) {u : Unit {0}}
    → check_weights ds ≡ ok u
    → (d : RubricDimension) → Memᴰ d ds
    → 0 < weight_of d.weight
unfolding check_weights
check_weights-positive [] h = λ d m. elim m [ ]
check_weights-positive (x ∷ ds) h =
    let (u, good, rest) = >>=-eq-ok (throw_if (is_bad_weight x.weight) _) _ h in
    mem_cons_elim (λ (d : RubricDimension). 0 < weight_of d.weight)
      (good_weight x (throw_if-eq-ok _ _ good)) (check_weights-positive ds rest)

check_known-Mem :
    (known : List String) (e : String → Malformed) (names : List String) {u : Unit {0}}
    → check_known known e names ≡ ok u
    → (name : String) → Memᴰ name names
    → Memᴰ name known
unfolding check_known
check_known-Mem known e [] h = λ name m. elim m [ ]
check_known-Mem known e (x ∷ names) h =
    let (u, good, rest) = >>=-eq-ok (throw_if (not (includes known x)) (e x)) _ h in
    mem_cons_elim (λ name. Memᴰ name known)
      (includes_sound known x (ground (arith, throw_if-eq-ok _ _ good)))
      (check_known-Mem known e names rest)

-- A gate about findings selects something, and only what the rubric defines.
record Selects (r : RubricDefinition) (g : RubricGate) : Type 0 where
  selects : (or_empty g.applies_to_rules ≢ []) ⊎ (or_empty g.applies_to_dimensions ≢ [])
  rules : (rule : String) → Memᴰ rule (or_empty g.applies_to_rules) → Memᴰ rule (known_rules r)
  dimensions :
      (id : String) → Memᴰ id (or_empty g.applies_to_dimensions) → Memᴰ id (known_dimensions r)

not_both_empty :
    (xs ys : List String) → (is_empty xs && is_empty ys) ≡ false → (xs ≢ []) ⊎ (ys ≢ [])
not_both_empty [] [] h = cc
not_both_empty [] (y ∷ ys) h = inr (λ e. cc)
not_both_empty (x ∷ xs) ys h = inl (λ e. cc)

check_selectors-Selects :
    (r : RubricDefinition) (g : RubricGate) {u : Unit {0}}
    → check_selectors r g ≡ ok u
    → is_run_fact g.id ≡ false
    → Selects r g
unfolding check_selectors
check_selectors-Selects r g h about_findings =
    let (u, some_selector, h₁) = >>=-eq-ok (throw_if _ _) _ (rw about_findings at h) in
    let (v, rules, dimensions) = >>=-eq-ok (check_known (known_rules r) _ _) _ h₁ in
    record {
      selects = not_both_empty _ _ (throw_if-eq-ok _ _ some_selector);
      rules = check_known-Mem _ _ _ rules;
      dimensions = check_known-Mem _ _ _ dimensions;
    }

check_gate_parts :
    (r : RubricDefinition) (g : RubricGate) {u : Unit {0}}
    → check_gate r g ≡ ok u
    → ((b : Bool) × (g.blocks_certification ≡ some b)) × (check_selectors r g ≡ ok u)
unfolding check_gate
check_gate_parts r g h = ground arith

check_gate-GateHolds :
    (r : RubricDefinition) (g : RubricGate) {u : Unit {0}} → check_gate r g ≡ ok u → GateHolds r g
check_gate-GateHolds r g h =
    let (boolean, selectors) = check_gate_parts r g h in
    record {
      says = boolean;
      can_trigger = elim (Bool-cases (is_run_fact g.id)) [
        | inl run ↦ inl run
        | inr findings ↦ inr (check_selectors-Selects r g selectors findings).selects
      ];
      rules_known = λ findings. (check_selectors-Selects r g selectors findings).rules;
      dimensions_known = λ findings. (check_selectors-Selects r g selectors findings).dimensions;
    }

check_gates-GateHolds :
    (r : RubricDefinition) (gs : List RubricGate) {u : Unit {0}}
    → check_gates r gs ≡ ok u
    → (g : RubricGate) → Memᴰ g gs
    → GateHolds r g
unfolding check_gates
check_gates-GateHolds r [] h = λ g m. elim m [ ]
check_gates-GateHolds r (x ∷ gs) h =
    let (_, good, rest) = >>=-eq-ok (check_gate r x) _ h in
    mem_cons_elim (GateHolds r) (check_gate-GateHolds r x good) (check_gates-GateHolds r gs rest)

-- A rubric that passes the check is scorable.
pub check_rubric-IsScorable :
    (r : RubricDefinition) {u : Unit {0}} → check_rubric r ≡ ok u → IsScorable r
unfolding check_rubric
check_rubric-IsScorable r h =
    let (u, nonempty, h₁) = >>=-eq-ok (throw_if (is_empty r.dimensions) _) _ h in
    let (v, weights, h₂) = >>=-eq-ok (check_weights r.dimensions) _ h₁ in
    let (w, total, gates) =
      >>=-eq-ok (throw_if (not (weight_total r.dimensions == scale)) _) _ h₂ in
    record {
      some_dimension = λ e. cc (ap is_empty e, throw_if-eq-ok _ _ nonempty);
      weights_positive = λ d m. check_weights-positive r.dimensions weights d m;
      weights_sum = ground (arith, throw_if-eq-ok _ _ total);
      gates_hold = λ g m. check_gates-GateHolds r r.gates gates g m;
    }

-- The keys of the registry are the versions of its definitions.
abbrev pub IsKeyed : Registry → Type 0
IsKeyed registry =
    (version : String) (r : RubricDefinition)
    → lookup_version registry version ≡ some r
    → r.version ≡ version

-- Every version in the memo names a definition that passes the check.
abbrev pub IsChecked : Registry → List String → Type 0
IsChecked registry validated =
    (version : String)
    → Memᴰ version validated
    → (r : RubricDefinition) → lookup_version registry version ≡ some r
    → check_rubric r ≡ ok tt

checked_of_assert :
    (registry : Registry) (validated : List String) (r : RubricDefinition) {u : Unit {0}}
    → IsChecked registry validated
    → lookup_version registry r.version ≡ some r
    → (assert_rubric_is_scorable validated r).1 ≡ ok u
    → check_rubric r ≡ ok tt
unfolding assert_rubric_is_scorable
checked_of_assert registry validated r checked found h =
    elim (Bool-cases (includes validated r.version)) [
      | inl seen ↦ checked r.version (includes_sound validated r.version seen) r found
      | inr new ↦ elim (Result-cases (check_rubric r)) [
        | inl (u, good) ↦ good
        | inr (m, bad) ↦ cc (rw (new, bad) at h)
      ]
    ]

assert-IsChecked :
    (registry : Registry) (validated : List String) (r : RubricDefinition)
    → IsChecked registry validated
    → lookup_version registry r.version ≡ some r
    → IsChecked registry (assert_rubric_is_scorable validated r).0
unfolding assert_rubric_is_scorable
assert-IsChecked registry validated r checked found =
    elim (Bool-cases (includes validated r.version)) [
      | inl seen ↦ rw seen checked
      | inr new ↦ elim (Result-cases (check_rubric r)) [
        | inl (u, good) ↦
            rw (new, good)
              (mem_cons_elim
                (λ (v : String).
                  (q : RubricDefinition)
                  → lookup_version registry v ≡ some q
                  → check_rubric q ≡ ok tt)
                (λ q e. let same : r ≡ q = cc (found, e) in rw (← same) good) checked)
        | inr (m, bad) ↦ rw (new, bad) checked
      ]
    ]

at_own_version :
    (registry : Registry) (version : String) (q : RubricDefinition)
    → IsKeyed registry
    → lookup_version registry version ≡ some q
    → lookup_version registry q.version ≡ some q
at_own_version registry version q keyed found =
    ap (lookup_version registry) (keyed version q found) ∙ found

-- What the registry hands out has been checked, now or before.
pub get_rubric_checked :
    (registry : Registry) (validated : List String) (version : String) {r : RubricDefinition}
    → IsKeyed registry
    → IsChecked registry validated
    → (get_rubric registry validated version).1 ≡ ok r
    → (lookup_version registry version ≡ some r) × (check_rubric r ≡ ok tt)
unfolding get_rubric
get_rubric_checked registry validated version {r} keyed checked h =
    elim (Option-cases (lookup_version registry version)) [
      | inl missing ↦ cc (rw (missing, get_rubric) at h)
      | inr (q, found) ↦
          let (u, good, same) = >>=-eq-ok _ _ (rw (found, get_rubric) at h) in
          let e : q ≡ r = cc same in
          rw (← e) (
            found,
            checked_of_assert registry validated q checked
                (at_own_version registry version q keyed found) good,
          )
    ]

pub get_rubric-IsChecked :
    (registry : Registry) (validated : List String) (version : String)
    → IsKeyed registry
    → IsChecked registry validated
    → IsChecked registry (get_rubric registry validated version).0
unfolding get_rubric
get_rubric-IsChecked registry validated version keyed checked =
    elim (Option-cases (lookup_version registry version)) [
      | inl missing ↦ rw (missing, get_rubric) checked
      | inr (q, found) ↦
          rw (found, get_rubric)
            (assert-IsChecked registry validated q checked
              (at_own_version registry version q keyed found))
    ]

-- With an honest memo, a rubric that `get_rubric` returns is the registry's definition of that
-- version, is scorable, and the memo after the call is honest again.
get_rubric-IsScorable :
    (registry : Registry) (validated : List String) (version : String) {r : RubricDefinition}
    → IsKeyed registry
    → IsChecked registry validated
    → (get_rubric registry validated version).1 ≡ ok r
    → (lookup_version registry version ≡ some r)
      × IsScorable r
      × IsChecked registry (get_rubric registry validated version).0
get_rubric-IsScorable registry validated version {r} keyed checked h =
    let (found, good) = get_rubric_checked registry validated version keyed checked h in
    (
      found,
      check_rubric-IsScorable r good,
      get_rubric-IsChecked registry validated version keyed checked,
    )
