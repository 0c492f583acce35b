-- ===== src/Main/Commands.antt =====
-- When the privilege to execute is kept: config_has_exec against its description.
use mdsort.Base.{
  ℕ, ◌+◌, Bool, true, false, not, ◌&&◌, ◌||◌, List, [], ◌∷◌, ◌≡◌, refl, ◌∙◌, arith, Bytes, ltb,
  if◌then◌else◌, Bool-cases, inl, inr,
}
use mdsort.Environment.{Env}
use mdsort.Expr.{ExprType, Expr, expr_count}
use mdsort.Main.{Config, maildir_skip, exec_paths, exec_configs, config_has_exec}

-- Whether one element passes a test.
abbrev pub any {ℓ} : {A : Type ℓ} → (A → Bool) → List A → Bool
any f [] = false
any f (x ∷ l) = f x || any f l

-- Whether a configuration is for this kind of run, and has expressions of a type.
abbrev pub runs_here : Env → Config → Bool
runs_here env conf = any (λ path. not (maildir_skip path env)) conf.paths

abbrev pub runs_type : ExprType → Env → Config → Bool
runs_type t env conf = runs_here env conf && ltb 0 (expr_count conf.expr t)

exec_paths-any :
    (env : Env) (expr : Expr) (paths : List Bytes)
    → (((exec_paths env expr paths).0 ≡ (
        any (λ path. not (maildir_skip path env)) paths
        && ltb 0 (expr_count expr ExprType.command))))
      × ((exec_paths env expr paths).0 ≡ false
          → ltb 0 ((exec_paths env expr paths).1) ≡ (
              any (λ path. not (maildir_skip path env)) paths
              && ltb 0 (expr_count expr ExprType.exec)))
unfolding exec_paths
exec_paths-any env expr [] = (refl, λ _. refl)
exec_paths-any env expr (path ∷ paths) = elim (Bool-cases (maildir_skip path env)) [
  | inl s ↦ rw (exec_paths, s) (exec_paths-any env expr paths)
  | inr s ↦ elim (Bool-cases (ltb 0 (expr_count expr ExprType.command))) [
    | inl c ↦ rw (exec_paths, s, c) (refl, λ e. ground (arith, e))
    | inr c ↦ elim (Bool-cases (ltb 0 (expr_count expr ExprType.exec))) [
      | inl x ↦ rw (exec_paths, s, c, x) (refl, λ _. refl)
      | inr x ↦ rw (exec_paths, s, c, x) (refl, λ _. refl)
    ]
  ]
]

ltb_add : (n m : ℕ) → ltb 0 (n + m) ≡ (ltb 0 n || ltb 0 m)
ltb_add n m = ground arith

-- A configuration before others, of which the answers are known.
configs_step :
    (n m : ℕ) (r c x cs xs d : Bool) (f : ℕ → Bool)
    → ((k : ℕ) → f k ≡ (cs || (not d && (ltb 0 k || xs))))
    → r ≡ c
    → (r ≡ false → ltb 0 m ≡ x)
    → (if r then true else f (n + m)) ≡ ((c || cs) || (not d && (ltb 0 n || (x || xs))))
configs_step n m true c x cs xs d f h a b = rw⁻¹ a refl
configs_step n m false c x cs xs d f h a b =
    rw⁻¹ a (h (n + m) ∙ rw (ltb_add n m, b refl) (go cs d (ltb 0 n) x xs))
  where
    go :
        (cs d k x xs : Bool)
        → (cs || (not d && ((k || x) || xs))) ≡ ((false || cs) || (not d && (k || (x || xs))))
    go true d k x xs = refl
    go false true k x xs = refl
    go false false true x xs = refl
    go false false false x xs = refl

exec_configs-any :
    (env : Env) (n : ℕ) (cl : List Config)
    → exec_configs env n cl ≡ (
        any (runs_type ExprType.command env) cl
        || (not env.dryrun && (ltb 0 n || any (runs_type ExprType.exec env) cl)))
unfolding exec_configs
exec_configs-any env n [] = go env.dryrun (ltb 0 n)
  where
    go : (d k : Bool) → (not d && k) ≡ (false || (not d && (k || false)))
    go true k = refl
    go false true = refl
    go false false = refl
exec_configs-any env n (conf ∷ cl) =
    let (a, b) = exec_paths-any env conf.expr conf.paths in
    configs_step n ((exec_paths env conf.expr conf.paths).1)
      ((exec_paths env conf.expr conf.paths).0) (runs_type ExprType.command env conf)
      (runs_type ExprType.exec env conf) _ _ env.dryrun (λ k. exec_configs env k cl)
      (λ k. exec_configs-any env k cl) a b

-- `config_has_exec` tells whether, among the configurations with a path that is not skipped, one has
-- a command condition, or one has an exec action and this is not a dry run.
pub config_has_exec-any :
    (cl : List Config) (env : Env)
    → config_has_exec cl env ≡ (
        any (runs_type ExprType.command env) cl
        || (not env.dryrun && any (runs_type ExprType.exec env) cl))
unfolding config_has_exec
config_has_exec-any cl env = exec_configs-any env 0 cl
