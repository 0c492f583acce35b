-- ===== src/Eval/Confined/Accepted.antt =====
-- Which expressions are admitted: those that the parser accepts, and those that start no command.
use mdsort.Base.{ℕ, ◌≤◌, ◌<◌, true, false, ◌≡◌, refl, arith, if◌then◌else◌}
use mdsort.Expr.{
  ExprType, ExprAttrs, Expr, null, node, type_eq, ex_flags, expr_count, expr_count_actions,
}
use mdsort.Exec.Watch.{Relevant}
use mdsort.Eval.Confined.{Fits}

-- No action but exec.
abbrev pub OnlyExec : Expr → Type 0
OnlyExec ex = expr_count_actions ex ≤ expr_count ex ExprType.exec

-- On attachments there is no action but exec.
abbrev pub Accepted : Expr → Type 0
Accepted null = Unit
Accepted (node ExprType.attachment attrs l r) = OnlyExec l
Accepted (node ExprType.attachment_block attrs l r) = OnlyExec l
Accepted (node t attrs l r) = Accepted l × Accepted r

-- A type that is admitted on every message.
pub Fits-all :
    (A : ExprType → ℕ → Type 0) (t : ExprType) (attrs : ExprAttrs) (l r : Expr)
    → ((h : ℕ) → A t h)
    → ((h : ℕ) → Fits A l h)
    → ((h : ℕ) → Fits A r h)
    → (h : ℕ) → Fits A (node t attrs l r) h
Fits-all A ExprType.attachment attrs l r a f g h = f
Fits-all A ExprType.attachment_block attrs l r a f g h = f
Fits-all A _ attrs l r a f g h = (a h, f h, g h)

exec_acts :
    (t : ExprType)
    → (if type_eq t ExprType.exec then 1 else 0) ≤ (if (ex_flags t).is_action then 1 else 0)
unfolding type_eq ex_flags
exec_acts _ = ground arith

exec_is_action : (ex : Expr) → expr_count ex ExprType.exec ≤ expr_count_actions ex
unfolding expr_count expr_count_actions
exec_is_action null = ground arith
exec_is_action (node t attrs l r) =
    let p = exec_acts t in
    let q = exec_is_action l in let s = exec_is_action r in omega (arith, p, q, s)

module _ (D : Type 0) (i : ℕ) where
  exec-Relevant :
      (t : ExprType) (h : ℕ)
      → (if (ex_flags t).is_action then 1 else 0) ≤ (if type_eq t ExprType.exec then 1 else 0)
      → Relevant D i t h
  unfolding type_eq ex_flags
  exec-Relevant ExprType.move h p = absurd (ground (arith, p))
  exec-Relevant ExprType.flag h p = absurd (ground (arith, p))
  exec-Relevant ExprType.flags h p = absurd (ground (arith, p))
  exec-Relevant ExprType.discard h p = absurd (ground (arith, p))
  exec-Relevant ExprType.label h p = absurd (ground (arith, p))
  exec-Relevant ExprType.add_header h p = absurd (ground (arith, p))
  exec-Relevant _ h p = tt

  -- With no action but exec an expression may be evaluated on any message.
  OnlyExec-Fits : (ex : Expr) → OnlyExec ex → (h : ℕ) → Fits (Relevant D i) ex h
  unfolding expr_count expr_count_actions
  OnlyExec-Fits null p h = tt
  OnlyExec-Fits (node t attrs l r) p h =
      let x = exec_is_action l in
      let y = exec_is_action r in
      let z = exec_acts t in
      Fits-all (Relevant D i) t attrs l r (λ k. exec-Relevant t k (omega (arith, p, x, y)))
        (OnlyExec-Fits l (omega (arith, p, x, y, z))) (OnlyExec-Fits r (omega (arith, p, x, y, z)))
        h

  -- An accepted expression is about the message it is evaluated on, and removes it if it has a
  -- discard.
  pub Accepted-Fits :
      (ex : Expr)
      → Accepted ex
      → (0 < expr_count ex ExprType.discard → D)
      → Fits (Relevant D i) ex i
  unfolding expr_count type_eq
  Accepted-Fits null a d = tt
  Accepted-Fits (node ExprType.attachment attrs l r) a d = OnlyExec-Fits l a
  Accepted-Fits (node ExprType.move attrs l r) a d = (
    refl,
    Accepted-Fits l a.0 (λ p. d (omega (arith, p))),
    Accepted-Fits r a.1 (λ p. d (omega (arith, p))),
  )
  Accepted-Fits (node ExprType.flag attrs l r) a d = (
    refl,
    Accepted-Fits l a.0 (λ p. d (omega (arith, p))),
    Accepted-Fits r a.1 (λ p. d (omega (arith, p))),
  )
  Accepted-Fits (node ExprType.flags attrs l r) a d = (
    refl,
    Accepted-Fits l a.0 (λ p. d (omega (arith, p))),
    Accepted-Fits r a.1 (λ p. d (omega (arith, p))),
  )
  Accepted-Fits (node ExprType.discard attrs l r) a d = (
    (refl, d (ground arith)),
    Accepted-Fits l a.0 (λ p. d (omega (arith, p))),
    Accepted-Fits r a.1 (λ p. d (omega (arith, p))),
  )
  Accepted-Fits (node ExprType.label attrs l r) a d = (
    refl,
    Accepted-Fits l a.0 (λ p. d (omega (arith, p))),
    Accepted-Fits r a.1 (λ p. d (omega (arith, p))),
  )
  Accepted-Fits (node ExprType.attachment_block attrs l r) a d = OnlyExec-Fits l a
  Accepted-Fits (node ExprType.add_header attrs l r) a d = (
    refl,
    Accepted-Fits l a.0 (λ p. d (omega (arith, p))),
    Accepted-Fits r a.1 (λ p. d (omega (arith, p))),
  )
  Accepted-Fits (node _ attrs l r) a d = (
    tt,
    Accepted-Fits l a.0 (λ p. d (omega (arith, p))),
    Accepted-Fits r a.1 (λ p. d (omega (arith, p))),
  )

-- No command is started as a condition, and none as an action unless `dry`.
abbrev pub Silent : Type 0 → ExprType → ℕ → Type 0
Silent dry ExprType.command h = ⊥
Silent dry ExprType.exec h = dry
Silent dry _ h = Unit

Silent-type :
    (dry : Type 0) (t : ExprType) (h : ℕ)
    → type_eq t ExprType.command ≡ false
    → (type_eq t ExprType.exec ≡ true → dry)
    → Silent dry t h
unfolding type_eq
Silent-type dry ExprType.command h c x = absurd (ground (arith, c))
Silent-type dry ExprType.exec h c x = x refl
Silent-type dry _ h c x = tt

-- An expression without command conditions, and with no exec unless `dry`.
pub Silent-Fits :
    (dry : Type 0) (ex : Expr)
    → expr_count ex ExprType.command ≡ 0
    → (0 < expr_count ex ExprType.exec → dry)
    → (h : ℕ) → Fits (Silent dry) ex h
unfolding expr_count
Silent-Fits dry null c x h = tt
Silent-Fits dry (node t attrs l r) c x h =
    Fits-all (Silent dry) t attrs l r
      (λ k. Silent-type dry t k (ground (arith, c)) (λ e. x (ground (arith, e))))
      (Silent-Fits dry l (ground (arith, c)) (λ p. x (omega (arith, p))))
      (Silent-Fits dry r (ground (arith, c)) (λ p. x (omega (arith, p)))) h
