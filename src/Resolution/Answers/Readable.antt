-- ===== src/Resolution/Answers/Readable.antt =====
-- engine/resolution.py: what a payload that is read as answers holds.
use gitreins.Prelude.{
  ◌≡◌, ◌≢◌, sym, subst, ◌∙◌, Bool, true, false, not, ◌&&◌, Option, none, some, String,
}
use gitreins.Prelude.{◌==◌, string_eq, Bool-cases, inl, inr}
use text.Mathlib.TextEquality.{eq_iff}
use gitreins.Resolution.Value.{
  Real, Json, null, bool, int, float, string, array, object, get_member,
}
use gitreins.Resolution.Answers.{
  Answers, Parsed, typed, problem, ◌>>=◌, in_range, keep_if, as_probability, as_score, as_number,
  as_label, parse_answers,
}

typed_eq {ℓ} : {A : Type ℓ} {a b : A} → typed a ≡ typed b → a ≡ b
typed_eq h = cc

problem≢typed {ℓ} : {A : Type ℓ} {a : A} {why : String} → problem why ≢ typed a
problem≢typed h = cc

false≢true : false ≢ true
false≢true h = cc

-- What holds of a result, if it is one.
data Ensures {ℓ} {A : Type ℓ} (P : A → Type 0) : Parsed A → Type ℓ where
  good : {a : A} → P a → Ensures P (typed a)
  named : {why : String} → Ensures P (problem why)

Ensures-bind {ℓ κ} :
    {A : Type ℓ} {B : Type κ} (P : A → Type 0) (Q : B → Type 0) (m : Parsed A) (f : A → Parsed B)
    → Ensures P m
    → ((a : A) → P a → Ensures Q (f a))
    → Ensures Q (m >>= f)
unfolding ◌>>=◌
Ensures-bind P Q (typed a) f (good h) k = k a h
Ensures-bind P Q (problem why) f named k = named

Ensures-any {ℓ} : {A : Type ℓ} (m : Parsed A) → Ensures (λ (_ : A). Unit {0}) m
Ensures-any (typed a) = good tt
Ensures-any (problem why) = named

Ensures-typed {ℓ} :
    {A : Type ℓ} {P : A → Type 0} {m : Parsed A} {a : A} → Ensures P m → m ≡ typed a → P a
Ensures-typed {P} (good {a = b} h) e = subst P (typed_eq e) h
Ensures-typed named e = absurd (problem≢typed e)

module _ (real : Real) where
  open real use {F, decimal, finite, greater}

  abbrev is_score : F → Bool
  is_score x = finite x && not (greater (decimal 0 0) x)

  -- The probability is finite and between 0 and 1, the label is not empty, the score is finite and
  -- not negative.
  pub record IsReadable (a : Answers F) : Type 0 where
    pub probability : in_range real a.resolves ≡ true
    pub label : a.missing_kind ≢ ""
    pub score : is_score a.quality_score ≡ true

  readable :
      (a : Answers F)
      → in_range real a.resolves ≡ true
      → a.missing_kind ≢ ""
      → is_score a.quality_score ≡ true
      → IsReadable a
  readable a p l s = record { probability = p; label = l; score = s }

  as_number-Ensures :
      (why : String) (test : F → Bool) (o : Option F)
      → Ensures (λ x. test x ≡ true) (as_number real why (keep_if real test o))
  as_number-Ensures why test none = named
  as_number-Ensures why test (some x) = elim (Bool-cases (test x)) [
    | inl kept ↦ rw kept (good kept)
    | inr bad ↦ rw bad named
  ]

  as_label-Ensures : (v : Json F) → Ensures (λ s. s ≢ "") (as_label real v)
  as_label-Ensures (string s) = elim (Bool-cases (s == "")) [
    | inl blank ↦ rw blank named
    | inr full ↦ rw full (good (λ e. false≢true (sym full ∙ (eq_iff s "").1 e)))
  ]
  as_label-Ensures null = named
  as_label-Ensures (bool b) = named
  as_label-Ensures (int n) = named
  as_label-Ensures (float x) = named
  as_label-Ensures array = named
  as_label-Ensures (object m) = named

  module _ (show : Json F → String) where
    parse_answers-Ensures :
        (payload : Json F) → Ensures IsReadable (parse_answers real show payload)
    unfolding parse_answers as_probability as_score
    parse_answers-Ensures payload =
        Ensures-bind (λ _. Unit {0}) IsReadable _ _ (Ensures-any _)
          (λ fields _.
            Ensures-bind (λ _. Unit {0}) IsReadable _ _ (Ensures-any _)
              (λ answers _.
                Ensures-bind (λ _. Unit {0}) IsReadable _ _ (Ensures-any _)
                  (λ resolves _.
                    Ensures-bind (λ (x : F). in_range real x ≡ true) IsReadable _ _
                      (as_number-Ensures _ (in_range real) _)
                      (λ probability p.
                        Ensures-bind (λ _. Unit {0}) IsReadable _ _ (Ensures-any _)
                          (λ choice _.
                            Ensures-bind (λ (s : String). s ≢ "") IsReadable _ _
                              (as_label-Ensures (get_member "choice" choice))
                              (λ label l.
                                Ensures-bind (λ _. Unit {0}) IsReadable _ _ (Ensures-any _)
                                  (λ quality _.
                                    Ensures-bind (λ (x : F). is_score x ≡ true) IsReadable _ _
                                      (as_number-Ensures _ is_score _)
                                      (λ score s. good (readable _ p l s)))))))))

    -- A payload that is read as answers has a finite probability from 0 to 1, a label that is not
    -- empty, and a finite score that is not negative.
    pub parse_answers-IsReadable :
        (payload : Json F) (a : Answers F)
        → parse_answers real show payload ≡ typed a
        → IsReadable a
    parse_answers-IsReadable payload a e = Ensures-typed (parse_answers-Ensures payload) e
