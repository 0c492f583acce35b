-- ===== src/Interpolate/Plain.antt =====
-- Interpolation of strings without back-references and macros.
use mdsort.Base.{
  ℕ, zero, Option, [], ◌∷◌, ◌++◌, ◌≡◌, ◌≢◌, refl, sym, ap, ◌∙◌, arith, Bytes, All, append-nil,
  append_assoc,
}
use mdsort.Macro.{MacroList, no_macro, ismacro}
use mdsort.Match.{MatchList}
use mdsort.Interpolate.{
  done, backslash, isbackref, no_backref, interpolate_at, interpolate_loop, interpolate,
}

abbrev pub Ordinary : ℕ → Type 0
Ordinary c = (c ≢ b'$') × (c ≢ backslash)

isbackref-Ordinary : (c : ℕ) (s : Bytes) → c ≢ backslash → isbackref (c ∷ s) ≡ no_backref
unfolding isbackref
isbackref-Ordinary c [] h = refl
isbackref-Ordinary c (d ∷ s) h = ground arith

ismacro-Ordinary : (c : ℕ) (s : Bytes) → c ≢ b'$' → ismacro (c ∷ s) ≡ no_macro
unfolding ismacro
ismacro-Ordinary c [] h = refl
ismacro-Ordinary c (d ∷ s) h = ground arith

interpolate_loop-Ordinary :
    (ml : MatchList) (macros : Option MacroList) (s bf : Bytes)
    → All Ordinary s
    → interpolate_loop ml macros zero s bf ≡ done (bf ++ s)
unfolding interpolate_loop interpolate_at
interpolate_loop-Ordinary ml macros [] bf h = ap done (sym (append-nil bf))
interpolate_loop-Ordinary ml macros (c ∷ s) bf h =
    rw (interpolate_loop, interpolate_at, isbackref-Ordinary c s h.0.1, ismacro-Ordinary c s h.0.0)
      (interpolate_loop-Ordinary ml macros s (bf ++ c ∷ []) h.1
        ∙ ap done (append_assoc bf (c ∷ []) s))

-- A string with neither a dollar sign nor a backslash is its own interpolation, whatever has been
-- matched and whichever macros there are.
pub interpolate-Ordinary :
    (ml : MatchList) (macros : Option MacroList) (s : Bytes)
    → All Ordinary s
    → interpolate ml macros s ≡ done s
unfolding interpolate
interpolate-Ordinary ml macros s h = interpolate_loop-Ordinary ml macros s [] h
