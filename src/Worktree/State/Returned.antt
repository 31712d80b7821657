-- ===== src/Worktree/State/Returned.antt =====
-- engine/worktree_manager.py: what is known of the parts of a command that returned.
use gitreins.Prelude.{◌≡◌, ◌≢◌, refl, ap, Bool, true, false, not, Option, none, some, arith}
use gitreins.Worktree.State.{
  Command, Refusal, Outcome, returned, raised, ◌>>=◌, after, refuse_if, need,
}

pub raised≢returned :
    {A W : Type 0} {e : Refusal} {a : A} {w v : W}
    → ◌≢◌ {A = Outcome A × W} (raised e, w) (returned a, v)
raised≢returned h = cc

pub returned_value :
    {A W : Type 0} {a b : A} {w v : W}
    → ◌≡◌ {A = Outcome A × W} (returned a, w) (returned b, v)
    → a ≡ b
returned_value h = cc

pub negated : (b : Bool) → not b ≡ false → b ≡ true
negated b h = ground arith

pub some_value : {A : Type 0} {a b : A} → some a ≡ some b → a ≡ b
some_value h = cc

pub returned_world :
    {A W : Type 0} {a b : A} {w v : W}
    → ◌≡◌ {A = Outcome A × W} (returned a, w) (returned b, v)
    → w ≡ v
returned_world h = cc

module _ {W : Type 0} where
  -- At some time the command returned the value.
  abbrev pub Gave : {A : Type 0} → Command W A → A → Type 0
  Gave m a = (w v : W) × (m w ≡ (returned a, v))

  after-returned :
      {A B : Type 0} (f : A → Command W B) (o : Outcome A × W) {b : B} {v : W}
      → after f o ≡ (returned b, v)
      → (a : A) × (u : W) × (o ≡ (returned a, u)) × (f a u ≡ (returned b, v))
  unfolding after
  after-returned f (returned a, u) h = (a, u, refl, h)
  after-returned f (raised e, u) h = absurd (raised≢returned h)

  -- A sequence that returned has both parts returned.
  pub bind-returned :
      {A B : Type 0} (m : Command W A) (f : A → Command W B) {b : B} (w : W) {v : W}
      → (m >>= f) w ≡ (returned b, v)
      → (a : A) × (u : W) × (m w ≡ (returned a, u)) × (f a u ≡ (returned b, v))
  unfolding ◌>>=◌
  bind-returned m f w h = after-returned f (m w) h

  pub need-returned :
      {A : Type 0} (o : Option A) (e : Refusal) (w : W) {a : A} {v : W}
      → need o e w ≡ (returned a, v)
      → o ≡ some a
  need-returned none e w h = absurd (raised≢returned h)
  need-returned (some a) e w h = ap some (returned_value h)

  pub refuse_if-returned :
      (test : Bool) (e : Refusal) (w : W) {a : Unit} {v : W}
      → refuse_if test e w ≡ (returned a, v)
      → test ≡ false
  refuse_if-returned true e w h = absurd (raised≢returned h)
  refuse_if-returned false e w h = refl
