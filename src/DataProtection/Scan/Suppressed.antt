-- ===== src/DataProtection/Scan/Suppressed.antt =====
-- Under a policy that was validated, what a scan suppresses is named by an exception with a reason.
use gitreins.Prelude.{
  ◌≡◌, ◌∙◌, ◌⊎◌, inl, inr, refl, ap, subst, ℕ, true, false, not, ◌&&◌, ◌||◌, List, [], ◌∷◌, Option,
  none, some, String, ◌==◌, string_eq, text_eq, is_empty, All, Bool-cases, arith, map,
}
use gitreins.Prelude.Text.{Text, Unicode, strip}
use gitreins.Prelude.Slices.{All-map, All-mono, Any, All-sort_by}
use gitreins.DataProtection.Policy.{
  ExceptionPolicy, DataProtectionPolicy, rule_by_name, policy_active, exception_matches,
  differs_name, differs_text,
}
use gitreins.DataProtection.Findings.{Finding}
use gitreins.DataProtection.Scan.{
  RuleMatch, Detectors, stands_before, first_exception, finding_of, resolve, all_matches, scan,
}
use gitreins.DataProtection.Validate.{
  ConfigError, is_none, first_error, and_then, check_category, check_exception, validate,
}

and_then-none :
    (first later : Option ConfigError)
    → and_then first later ≡ none
    → (first ≡ none) × (later ≡ none)
and_then-none (some e) later h = cc h
and_then-none none later h = (refl, h)

All-of : {A : Type 0} {P : A → Type 0} → ((x : A) → P x) → (xs : List A) → All P xs
All-of f [] = tt
All-of f (x ∷ xs) = (f x, All-of f xs)

first_error-All :
    {A : Type 0} (check : A → Option ConfigError) (xs : List A)
    → first_error check xs ≡ none
    → All (λ x. check x ≡ none) xs
first_error-All check [] h = tt
first_error-All check (x ∷ xs) h =
    let (head, tail) = and_then-none (check x) (first_error check xs) h in
    (head, first_error-All check xs tail)

-- An exception with a reason that does not stand for a whole category.
abbrev IsNarrow : Unicode → ExceptionPolicy → Type 0
IsNarrow u e =
    (is_empty (strip u e.reason) ≡ false)
    × (((name : String) × (e.rule ≡ some name)) ⊎ ((value : Text) × (e.match ≡ some value)))

names_one :
    (rule : Option String) (match : Option Text)
    → (is_none rule && is_none match) ≡ false
    → ((name : String) × (rule ≡ some name)) ⊎ ((value : Text) × (match ≡ some value))
unfolding is_none
names_one (some name) match h = inl (name, refl)
names_one none (some value) h = inr (value, refl)
names_one none none h = cc h

check_exception-IsNarrow :
    (u : Unicode) (prefix_length : Text → Option ℕ) (e : ExceptionPolicy)
    → check_exception u prefix_length e ≡ none
    → IsNarrow u e
unfolding check_exception
check_exception-IsNarrow u prefix_length e h =
    let wide : (is_none e.rule && is_none e.match) ≡ false = ground arith in
    let reason : is_empty (strip u e.reason) ≡ false = ground arith in
    (reason, names_one e.rule e.match wide)

-- An exception suppresses this match.
abbrev Suppresses : Unicode → RuleMatch → Text → ExceptionPolicy → Type 0
Suppresses u match reason e =
    (e.category ≡ (rule_by_name match.rule).category)
    × (e.reason ≡ reason)
    × (is_empty (strip u reason) ≡ false)
    × ((e.rule ≡ some (rule_by_name match.rule).rule) ⊎ (e.match ≡ some match.value))

differs_name-eq : (name rule : String) → differs_name (some name) rule ≡ false → name ≡ rule
differs_name-eq name rule h = (string_eq.equals_iff name rule).0 (ground arith)

differs_text-eq : (text value : Text) → differs_text (some text) value ≡ false → text ≡ value
differs_text-eq text value h = (text_eq.equals_iff text value).0 (ground arith)

exception_matches-Suppresses :
    (u : Unicode) (d : Detectors) (e : ExceptionPolicy) (match : RuleMatch) (path : Option Text)
    → IsNarrow u e
    → exception_matches d.fnmatch e
        (rule_by_name match.rule).category
        (rule_by_name match.rule).rule
        match.value
        path
      ≡ true
    → Suppresses u match e.reason e
unfolding exception_matches
exception_matches-Suppresses u d e match path narrow h =
    let name_of_rule = (rule_by_name match.rule).rule in
    let same_rule : differs_name e.rule name_of_rule ≡ false = ground arith in
    let same_match : differs_text e.match match.value ≡ false = ground arith in
    let same_category : (e.category == (rule_by_name match.rule).category) ≡ true = ground arith in
    let category =
      (string_eq.equals_iff e.category (rule_by_name match.rule).category).0 same_category in
    (
      category,
      refl,
      narrow.0,
      elim narrow.1 [
        | inl (name, is) ↦
            let same : differs_name (some name) name_of_rule ≡ false =
              subst (λ o. differs_name o name_of_rule ≡ false) is same_rule in
            inl (is ∙ ap (λ n. some n) (differs_name-eq name name_of_rule same))
        | inr (value, is) ↦
            let same : differs_text (some value) match.value ≡ false =
              subst (λ o. differs_text o match.value ≡ false) is same_match in
            inr (is ∙ ap (λ n. some n) (differs_text-eq value match.value same))
      ],
    )

reason_of : Option ExceptionPolicy → Text
reason_of none = []
reason_of (some e) = e.reason

first_exception-Suppresses :
    (u : Unicode) (d : Detectors) (p : DataProtectionPolicy) (match : RuleMatch)
    (path : Option Text) (es : List ExceptionPolicy)
    → All (IsNarrow u) es
    → (e : ExceptionPolicy) → first_exception d p es match path ≡ some e
    → Any (Suppresses u match e.reason) es
unfolding first_exception reason_of
first_exception-Suppresses u d p match path [] narrow e h = cc h
first_exception-Suppresses u d p match path (x ∷ es) narrow e h =
    elim (Bool-cases (
      exception_matches d.fnmatch x (rule_by_name match.rule).category
        (rule_by_name match.rule).rule match.value path)) [
          | inl applies ↦
              let is : some x ≡ some e = rw applies at h in
              inl (
                subst (λ reason. Suppresses u match reason x) (ap reason_of is)
                  (exception_matches-Suppresses u d x match path narrow.0 applies))
          | inr passes ↦
              inr (first_exception-Suppresses u d p match path es narrow.1 e (rw passes at h))
        ]

module _ (u : Unicode) (prefix_length : Text → Option ℕ) (d : Detectors)
    (p : DataProtectionPolicy) where
  -- If the finding is suppressed, an exception of the policy is for it.
  abbrev pub IsAccounted : Finding → Type 0
  IsAccounted f =
      f.suppressed ≡ true
      → Any
          (λ e.
            (e.category ≡ (rule_by_name f.rule).category)
            × (e.reason ≡ f.exception_reason)
            × (is_empty (strip u f.exception_reason) ≡ false)
            × ((e.rule ≡ some (rule_by_name f.rule).rule) ⊎ (e.match ≡ some f.value)))
          p.exceptions

  finding_of-IsAccounted :
      (match : RuleMatch) (text : Text) (found : Option ExceptionPolicy)
      → ((e : ExceptionPolicy) → found ≡ some e → Any (Suppresses u match e.reason) p.exceptions)
      → IsAccounted (finding_of d p found match text)
  unfolding finding_of
  finding_of-IsAccounted match text none named h = cc h
  finding_of-IsAccounted match text (some e) named h = named e refl

  resolve-IsAccounted :
      (text : Text) (path : Option Text)
      → All (IsNarrow u) p.exceptions
      → (match : RuleMatch) → IsAccounted (resolve d p match text path)
  unfolding resolve
  resolve-IsAccounted text path narrow match =
      finding_of-IsAccounted match text (first_exception d p p.exceptions match path)
        (first_exception-Suppresses u d p match path p.exceptions narrow)

  exceptions-IsNarrow : validate u prefix_length p ≡ none → All (IsNarrow u) p.exceptions
  unfolding validate
  exceptions-IsNarrow valid = All-mono (check_exception-IsNarrow u prefix_length) p.exceptions (
      first_error-All (check_exception u prefix_length) p.exceptions
        (and_then-none (first_error (check_category u prefix_length) p.categories)
          (first_error (check_exception u prefix_length) p.exceptions) valid).1)

  -- Under a policy that validates, every suppressed finding of a scan is one that an exception of
  -- the policy is for: of its category, with its reason, which is not blank, and that names its rule
  -- or its value.
  pub scan-IsAccounted :
      (text : Text) (path : Option Text)
      → validate u prefix_length p ≡ none
      → All IsAccounted (scan d p text path).findings
  unfolding scan
  scan-IsAccounted text path valid = elim (Bool-cases (not (policy_active p) || is_empty text)) [
    | inl idle ↦ rw idle tt
    | inr busy ↦ rw busy (
        All-sort_by stands_before IsAccounted
          (map (λ match. resolve d p match text path) (all_matches d p text))
          (All-map IsAccounted (λ match. resolve d p match text path) (all_matches d p text)
            (All-of (resolve-IsAccounted text path (exceptions-IsNarrow valid))
              (all_matches d p text))))
  ]
