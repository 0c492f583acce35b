-- ===== src/Interpolate/Safe.antt =====
-- Interpolation with a list of macros reads through no null pointer.
use mdsort.Base.{ℕ, zero, suc, ◌-◌, Option, none, some, [], ◌∷◌, ◌++◌, ◌≡◌, ◌≢◌, refl, arith, Bytes}
use mdsort.Macro.{MacroList, macro, ismacro}
use mdsort.Match.{MatchList}
use mdsort.Interpolate.{
  Outcome, done, failed, crashed, no_backref, isbackref, interpolate_at, interpolate_loop,
  interpolate, macro_value,
}

interpolate_at-safe :
    (ml : MatchList) (macros : MacroList) (s : Bytes) → interpolate_at ml (some macros) s ≢ crashed
unfolding interpolate_at macro_value
interpolate_at-safe ml macros s = ground arith

-- One round of the loop, on what stands at the front of the string.
step-safe :
    (ml : MatchList) (macros : Option MacroList) (c : ℕ) (s bf : Bytes)
    (r : Outcome (Option (ℕ × Bytes)))
    → r ≢ crashed
    → ((skip : ℕ) (bf' : Bytes) → interpolate_loop ml macros skip s bf' ≢ crashed)
    → (elim r [
      | failed ↦ failed
      | crashed ↦ crashed
      | done none ↦ interpolate_loop ml macros zero s (bf ++ c ∷ [])
      | done (some (n, sub)) ↦ interpolate_loop ml macros (n - 1) s (bf ++ sub)
    ])
      ≢ crashed
step-safe ml macros c s bf failed h rest e = cc
step-safe ml macros c s bf crashed h rest e = h refl
step-safe ml macros c s bf (done none) h rest e = rest zero (bf ++ c ∷ []) e
step-safe ml macros c s bf (done (some (n, sub))) h rest e = rest (n - 1) (bf ++ sub) e

loop-safe :
    (ml : MatchList) (macros : MacroList) (skip : ℕ) (s bf : Bytes)
    → interpolate_loop ml (some macros) skip s bf ≢ crashed
unfolding interpolate_loop
loop-safe ml macros skip [] bf = λ e. cc
loop-safe ml macros (suc skip) (c ∷ s) bf = loop-safe ml macros skip s bf
loop-safe ml macros zero (c ∷ s) bf =
    step-safe ml (some macros) c s bf (interpolate_at ml (some macros) (c ∷ s))
      (interpolate_at-safe ml macros (c ∷ s)) (λ skip bf'. loop-safe ml macros skip s bf')

-- With a list of macros, whichever it is, the interpolation of a string ends with a string or with
-- a warning, and never reads through a null pointer.
pub interpolate-safe :
    (ml : MatchList) (macros : MacroList) (str : Bytes) → interpolate ml (some macros) str ≢ crashed
unfolding interpolate
interpolate-safe ml macros str = loop-safe ml macros zero str []

macro-no_backref :
    (s : Bytes) (n : ℕ) (name : Bytes) → ismacro s ≡ macro n name → isbackref s ≡ no_backref
unfolding ismacro isbackref
macro-no_backref [] n name h = cc
macro-no_backref (a ∷ []) n name h = cc
macro-no_backref (a ∷ b ∷ s) n name h = ground (arith, h)

-- With no list of macros, which is how expr_eval_command and expr_eval_stat call, a string that
-- starts with a macro makes the interpolation read through the null pointer.
pub interpolate-null :
    (ml : MatchList) (name : Bytes) (n : ℕ) (s : Bytes)
    → ismacro s ≡ macro n name
    → interpolate ml none s ≡ crashed
unfolding interpolate interpolate_loop interpolate_at macro_value
interpolate-null ml name n [] h = unfold ismacro in cc
interpolate-null ml name n (c ∷ s) h =
    rw (interpolate, interpolate_loop, interpolate_at, macro-no_backref (c ∷ s) n name h, h) refl
