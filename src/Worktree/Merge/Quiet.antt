-- ===== src/Worktree/Merge/Quiet.antt =====
-- engine/worktree_manager.py: which commands leave the tip of a branch where it is, while nobody else moves it.
pub mod Judged
use gitreins.Prelude.{
  ◌≡◌, refl, sym, ap, subst, ◌∙◌, inl, Bool, true, false, List, [], ◌∷◌, Option, none, some, String,
  ◌==◌, text_eq, contains, text_beq, text_beq_iff, or_false, if_ind, is_empty,
}
use gitreins.Prelude.Dict.{Dict}
use gitreins.Prelude.Text.{Text, codes}
use gitreins.Gate.Value.{Value}
use gitreins.Worktree.State.{
  WorktreeRecord, Command, Refusal, Outcome, returned, raised, ◌>>=◌, pure, refuse, refuse_if, when,
  need, or_refuse, instead, Host, branch_gone,
}
use gitreins.Worktree.Checkout.{head, branch_tip, commit_exists, is_ancestor, is_clean}
use gitreins.Worktree.Verdict.{
  is_fresh, refuse_for, accept, matching_verdicts, find_verdict, fresh_verdict,
}
use gitreins.Worktree.Ready.{Ready, branch_for, find_record, known_commit, get_ready}
use gitreins.Worktree.Merge.{
  Merged, hold_gate, fresh_gate, rebase_onto, guard_gate, follow_main, moved, recheck, finish,
  gates, merge_from, merge,
}
use gitreins.Worktree.State.Returned.{
  raised≢returned, returned_value, returned_world, bind-returned, need-returned, some_value,
  negated, refuse_if-returned,
}
use gitreins.Worktree.Merge.Gated.{
  hold_gate-returned, fresh_gate-returned, apply-returned, IsJudged,
}

-- The commands of git that ask and change nothing.
abbrev pub asks : List Text → Bool
asks [] = false
asks (command ∷ args) =
    contains
      (codes "rev-parse"
        ∷ codes "symbolic-ref"
        ∷ codes "status"
        ∷ codes "cat-file"
        ∷ codes "merge-base"
        ∷ [])
      command

module _ (h : Host) (tip_in : h.W → Option Text) where
  open h use {W, F}

  -- A command that returns leaves the tip of the branch where it was.
  abbrev pub Keeps : {A : Type 0} → Command W A → Type 0
  Keeps {A} m = (a : A) (w v : W) → m w ≡ (returned a, v) → tip_in v ≡ tip_in w

  -- The tip is what `git rev-parse` says, and of all that works on the repository only the commands
  -- of `merge` that change it move the tip: questions to git, the verdict store, the guard and the
  -- judge do not.
  pub record IsQuiet (branch : Text) : Type 0 where
    pub reads : (o : Option Text) (w v : W) → branch_tip h branch w ≡ (returned o, v) → o ≡ tip_in w
    pub questions : (dir : Text) (args : List Text) → asks args ≡ true → Keeps (h.git dir args)
    pub verdicts : (tree : Text) (task_id : String) → Keeps (h.list_verdicts tree task_id)
    pub disk : (tree : Text) → Keeps (h.read_disk_verdict tree)
    pub guard : (tree : Text) → Keeps (h.guard_runner tree)
    pub judge : (tree : Text) (task_id : String) → Keeps (h.judge_runner tree task_id)

  bind-Keeps :
      {A B : Type 0} (m : Command W A) (f : A → Command W B)
      → Keeps m
      → ((a : A) → Keeps (f a))
      → Keeps (m >>= f)
  bind-Keeps m f k l b w v e =
      let (a, u, e1, e2) = bind-returned m f w e in l a b u v e2 ∙ k a w u e1

  pure-Keeps : {A : Type 0} (a : A) → Keeps (pure a)
  pure-Keeps a b w v e = ap tip_in (sym (returned_world e))

  refuse-Keeps : {A : Type 0} (e : Refusal) → Keeps {A = A} (refuse e)
  refuse-Keeps e b w v k = absurd (raised≢returned k)

  refuse_if-Keeps : (test : Bool) (e : Refusal) → Keeps (refuse_if test e)
  refuse_if-Keeps true e = refuse-Keeps e
  refuse_if-Keeps false e = pure-Keeps tt

  need-Keeps : {A : Type 0} (o : Option A) (e : Refusal) → Keeps (need o e)
  need-Keeps none e = refuse-Keeps e
  need-Keeps (some a) e = pure-Keeps a

  instead-returned :
      {A : Type 0} (e : Refusal) (o : Outcome A × W) {b : A} {v : W}
      → instead e o ≡ (returned b, v)
      → o ≡ (returned b, v)
  unfolding instead
  instead-returned e (returned a, u) k = k
  instead-returned e (raised f, u) k = absurd (raised≢returned k)

  or_refuse-Keeps : {A : Type 0} (m : Command W A) (e : Refusal) → Keeps m → Keeps (or_refuse m e)
  unfolding or_refuse
  or_refuse-Keeps m e k a w v r = k a w v (instead-returned e (m w) r)

  -- What holds of the value and the world when a command returns; and when it does so from a world
  -- with the given tip.
  abbrev Yields : {A : Type 0} → Command W A → (A → W → Type 0) → Type 0
  Yields {A} m Q = (a : A) (w v : W) → m w ≡ (returned a, v) → Q a v

  abbrev Holding : {A : Type 0} → Option Text → Command W A → (A → W → Type 0) → Type 0
  Holding {A} t m Q = (a : A) (w v : W) → tip_in w ≡ t → m w ≡ (returned a, v) → Q a v

  bind-Yields :
      {A B : Type 0} (m : Command W A) (f : A → Command W B) (Q : B → W → Type 0)
      → ((a : A) → Yields (f a) Q)
      → Yields (m >>= f) Q
  bind-Yields m f Q l b w v e = let (a, u, _, e2) = bind-returned m f w e in l a b u v e2

  bind-Holding :
      {A B : Type 0} (t : Option Text) (m : Command W A) (f : A → Command W B) (Q : B → W → Type 0)
      → Keeps m
      → ((a : A) → Holding t (f a) Q)
      → Holding t (m >>= f) Q
  bind-Holding t m f Q k l b w v at e =
      let (a, u, e1, e2) = bind-returned m f w e in l a b u v (k a w u e1 ∙ at) e2

  -- A value that was needed is there from then on.
  need-Holding :
      {A B : Type 0} (t : Option Text) (o : Option A) (x : Refusal) (f : A → Command W B)
      (Q : B → W → Type 0)
      → ((a : A) → o ≡ some a → Holding t (f a) Q)
      → Holding t (need o x >>= f) Q
  need-Holding t o x f Q l b w v at e =
      let (a, u, e1, e2) = bind-returned (need o x) f w e in
      l a (need-returned o x w e1) b u v (need-Keeps o x a w u e1 ∙ at) e2

  pure-Holding :
      {A : Type 0} (t : Option Text) (a : A) (Q : A → W → Type 0)
      → ((v : W) → tip_in v ≡ t → Q a v)
      → Holding t (pure a) Q
  pure-Holding t a Q l b w v at e =
      subst (λ x. Q x v) (returned_value e) (l v (ap tip_in (sym (returned_world e)) ∙ at))

  module _ {branch : Text} (quiet : IsQuiet branch) where
    head-Keeps : (dir : Text) → Keeps (head h dir)
    unfolding head contains text_beq
    head-Keeps dir = bind-Keeps _ _ (quiet.questions dir _ refl) (λ r. pure-Keeps _)

    branch_tip-Keeps : (b : Text) → Keeps (branch_tip h b)
    unfolding branch_tip contains text_beq
    branch_tip-Keeps b = bind-Keeps _ _ (quiet.questions _ _ refl) (λ r. pure-Keeps _)

    commit_exists-Keeps : (commit : Text) → Keeps (commit_exists h commit)
    unfolding commit_exists contains text_beq
    commit_exists-Keeps commit = bind-Keeps _ _ (quiet.questions _ _ refl) (λ r. pure-Keeps _)

    is_ancestor-Keeps : (a b : Text) → Keeps (is_ancestor h a b)
    unfolding is_ancestor contains text_beq
    is_ancestor-Keeps a b = bind-Keeps _ _ (quiet.questions _ _ refl) (λ r. pure-Keeps _)

    is_clean-Keeps : (dir : Text) → Keeps (is_clean h dir)
    unfolding is_clean contains text_beq
    is_clean-Keeps dir =
        bind-Keeps _ _ (quiet.questions dir _ refl)
          (λ r. bind-Keeps _ _ (refuse_if-Keeps _ _) (λ _. pure-Keeps _))

    known_commit-Keeps : (o : Option Text) → Keeps (known_commit h o)
    known_commit-Keeps none = pure-Keeps false
    known_commit-Keeps (some commit) =
        if_ind (λ (m : Command W Bool). Keeps m) (is_empty commit) (λ _. pure-Keeps false)
          (λ _. commit_exists-Keeps commit)

    refuse_for-Keeps : (v : Value) (o : Option Refusal) → Keeps (refuse_for h v o)
    refuse_for-Keeps v none = pure-Keeps v
    refuse_for-Keeps v (some e) = refuse-Keeps e

    accept-Keeps : (o : Option Value) → Keeps (accept h o)
    unfolding accept
    accept-Keeps none = refuse-Keeps _
    accept-Keeps (some v) = refuse_for-Keeps v _

    -- The tip is what was read, as long as nothing else moves it.
    branch_tip-Holding :
        {B : Type 0} (f : Option Text → Command W B) (Q : B → W → Type 0)
        → ((o : Option Text) → Holding o (f o) Q)
        → Yields (branch_tip h branch >>= f) Q
    branch_tip-Holding f Q l b w v e =
        let (o, u, e1, e2) = bind-returned (branch_tip h branch) f w e in
        l o b u v (branch_tip-Keeps branch o w u e1 ∙ sym (quiet.reads o w u e1)) e2

    module _ (task_id : String) (r : WorktreeRecord F) where
      find_verdict-Keeps : (commit : Text) → Keeps (find_verdict h task_id r commit)
      unfolding find_verdict matching_verdicts
      find_verdict-Keeps commit =
          bind-Keeps _ _
            (bind-Keeps _ _ (or_refuse-Keeps _ _ (quiet.verdicts _ task_id))
              (λ _. bind-Keeps _ _ (quiet.disk _) (λ _. pure-Keeps _)))
            (λ _. pure-Keeps _)

      hold_gate-Keeps : (commit : Text) → Keeps (hold_gate h task_id r commit)
      unfolding hold_gate
      hold_gate-Keeps commit = bind-Keeps _ _ (find_verdict-Keeps commit) (λ o. accept-Keeps o)

      fresh_verdict-Keeps : (commit : Text) (v : Value) → Keeps (fresh_verdict h task_id r commit v)
      unfolding fresh_verdict
      fresh_verdict-Keeps commit v =
          if_ind (λ (m : Command W (Option Value)). Keeps m) (is_fresh commit v)
            (λ _. pure-Keeps (some v)) (λ _. find_verdict-Keeps commit)

      fresh_gate-Keeps : (commit : Text) → Keeps (fresh_gate h task_id r commit)
      unfolding fresh_gate
      fresh_gate-Keeps commit =
          bind-Keeps _ _ (or_refuse-Keeps _ _ (quiet.judge _ task_id))
            (λ v. bind-Keeps _ _ (fresh_verdict-Keeps commit v) (λ o. accept-Keeps o))

      guard_gate-Keeps : Keeps (guard_gate h r)
      unfolding guard_gate
      guard_gate-Keeps =
          bind-Keeps _ _ (or_refuse-Keeps _ _ (quiet.guard _)) (λ _. refuse_if-Keeps _ _)
