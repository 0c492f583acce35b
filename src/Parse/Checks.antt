-- ===== src/Parse/Checks.antt =====
-- What a step of the parser guarantees when no error has been counted.
use mdsort.Base.{
  ℕ, zero, suc, ◌≤◌, Bool, true, false, Option, none, some, List, [], ◌∷◌, ◌++◌, ◌≡◌, refl, ◌∙◌,
  arith, Bytes, Bool-cases, inl, inr,
}
use mdsort.Macro.{MacroCtx, IsMacro, no_macro, unterminated, macro, ismacro, macro_context}
use mdsort.Parse.{Parser, Parse, ◌>>=◌, pure, yyerror, yyerror_if}
use mdsort.Parse.Expand.{
  Use, delayed, misused, replaced, macro_use, macro_replaced, expand_used, expand_at, expand_loop,
  expandmacros, expandtilde, expand, expandstrings,
}
use mdsort.Parse.Conditions.{u32_mul, date_age}

-- The errors are never taken back, the configurations stay as they are, and without an error the
-- result is as `P` tells.
pub record Checked {A : Type 0} (P : A → Type 0) (f : Parse A) : Type 0 where
  pub grows : (p : Parser) → p.error ≤ (f p).1.error
  pub keeps : (p : Parser) → (f p).1.cl ≡ p.cl
  pub holds : (p : Parser) → (f p).1.error ≡ 0 → P (f p).0

pub Checked-bind :
    {A B : Type 0} (P : A → Type 0) (Q : B → Type 0) (f : Parse A) (k : A → Parse B)
    → Checked P f
    → ((a : A) → Checked (λ b. P a → Q b) (k a))
    → Checked Q (f >>= k)
unfolding ◌>>=◌
Checked-bind P Q f k hf hk = record {
  grows = λ p. (let a = hf.grows p in let b = (hk (f p).0).grows (f p).1 in omega (arith, a, b));
  keeps = λ p. (hk (f p).0).keeps (f p).1 ∙ hf.keeps p;
  holds = λ p z.
      let b = (hk (f p).0).grows (f p).1 in
      (hk (f p).0).holds (f p).1 z (hf.holds p (omega (arith, b, z)));
}

pub Checked-pure : {A : Type 0} (P : A → Type 0) (a : A) → P a → Checked P (pure a)
unfolding pure
Checked-pure P a h = record { grows = λ p. omega arith; keeps = λ p. refl; holds = λ p z. h }

pub Checked-map :
    {A : Type 0} (P Q : A → Type 0) (f : Parse A)
    → ((a : A) → P a → Q a)
    → Checked P f
    → Checked Q f
Checked-map P Q f h c = record {
  grows = c.grows;
  keeps = c.keeps;
  holds = λ p z. h (f p).0 (c.holds p z);
}

-- Nothing is told of the result.
abbrev pub Steady : {A : Type 0} → Parse A → Type 0
Steady f = Checked (λ a. Unit) f

pub Steady-bind :
    {A B : Type 0} (f : Parse A) (k : A → Parse B)
    → Steady f
    → ((a : A) → Steady (k a))
    → Steady (f >>= k)
Steady-bind f k hf hk =
    Checked-bind (λ a. Unit) (λ b. Unit) f k hf
      (λ a. Checked-map (λ b. Unit) (λ b. Unit → Unit) (k a) (λ b u v. tt) (hk a))

pub Steady-pure : {A : Type 0} (a : A) → Steady (pure a)
Steady-pure a = Checked-pure (λ x. Unit) a tt

-- A step whose result is not told, before one whose result is.
pub Steady-then :
    {A B : Type 0} (Q : B → Type 0) (f : Parse A) (k : A → Parse B)
    → Steady f
    → ((a : A) → Checked Q (k a))
    → Checked Q (f >>= k)
Steady-then Q f k hf hk =
    Checked-bind (λ a. Unit) Q f k hf
      (λ a. Checked-map Q (λ b. Unit → Q b) (k a) (λ b q u. q) (hk a))

pub yyerror-never : (P : Unit → Type 0) → Checked P yyerror
unfolding yyerror
yyerror-never P = record {
  grows = λ p. omega arith;
  keeps = λ p. refl;
  holds = λ p z. absurd (ground (arith, z));
}

pub yyerror_if-false : (b : Bool) → Checked (λ u. b ≡ false) (yyerror_if b)
unfolding yyerror_if
yyerror_if-false true = yyerror-never (λ u. true ≡ false)
yyerror_if-false false = Checked-pure (λ u. false ≡ false) tt refl

pub yyerror_if-Steady : (b : Bool) → Steady (yyerror_if b)
yyerror_if-Steady b =
    Checked-map (λ u. b ≡ false) (λ u. Unit) (yyerror_if b) (λ u e. tt) (yyerror_if-false b)

macro_replaced-Steady : (name : Bytes) → Steady (macro_replaced name)
unfolding macro_replaced yyerror
macro_replaced-Steady name = record {
  grows = λ p. ground arith;
  keeps = λ p. ground arith;
  holds = λ p z. tt;
}

expand_used-Steady : (u : Use) (c n : ℕ) (name : Bytes) → Steady (expand_used u c n name)
unfolding expand_used
expand_used-Steady delayed c n name = Steady-pure _
expand_used-Steady misused c n name =
    Steady-bind yyerror _ (yyerror-never (λ u. Unit)) (λ a. Steady-pure _)
expand_used-Steady replaced c n name =
    Steady-bind (macro_replaced name) _ (macro_replaced-Steady name) (λ v. Steady-pure _)

expand_at-Steady : (curctx : MacroCtx) (c : ℕ) (m : IsMacro) → Steady (expand_at curctx c m)
unfolding expand_at
expand_at-Steady curctx c unterminated =
    Steady-bind yyerror _ (yyerror-never (λ u. Unit)) (λ a. Steady-pure _)
expand_at-Steady curctx c no_macro = Steady-pure _
expand_at-Steady curctx c (macro n name) =
    expand_used-Steady (macro_use curctx (macro_context name)) c n name

expand_loop-Steady :
    (curctx : MacroCtx) (skip : Option ℕ) (str bf : Bytes) → Steady (expand_loop curctx skip str bf)
unfolding expand_loop
expand_loop-Steady curctx none str bf = Steady-pure bf
expand_loop-Steady curctx (some skip) [] bf = Steady-pure bf
expand_loop-Steady curctx (some (suc skip)) (c ∷ str) bf =
    expand_loop-Steady curctx (some skip) str bf
expand_loop-Steady curctx (some zero) (c ∷ str) bf =
    Steady-bind (expand_at curctx c (ismacro (c ∷ str))) _
      (expand_at-Steady curctx c (ismacro (c ∷ str)))
      (λ r. expand_loop-Steady curctx r.0 str (bf ++ r.1))

pub expand-Steady :
    (home : Bytes) (curctx : MacroCtx) (str : Bytes) → Steady (expand home curctx str)
unfolding expand expandmacros
expand-Steady home curctx str = expand_loop-Steady curctx (some zero) (expandtilde str home) []

pub expandstrings-Steady :
    (home : Bytes) (curctx : MacroCtx) (strs : List Bytes) → Steady (expandstrings home curctx strs)
unfolding expandstrings
expandstrings-Steady home curctx [] = Steady-pure []
expandstrings-Steady home curctx (str ∷ strs) =
    Steady-bind (expand home curctx str) _ (expand-Steady home curctx str) (λ s.
      Steady-bind (expandstrings home curctx strs) _ (expandstrings-Steady home curctx strs)
        (λ ss. Steady-pure (s ∷ ss)))

pub date_age-Steady : (n scalar : ℕ) → Steady (date_age n scalar)
unfolding date_age
date_age-Steady n scalar = elim (Bool-cases (u32_mul n scalar).0) [
  | inl e ↦
      rw (date_age, e) (Steady-bind yyerror _ (yyerror-never (λ u. Unit)) (λ a. Steady-pure _))
  | inr e ↦ rw (date_age, e) (Steady-pure _)
]
