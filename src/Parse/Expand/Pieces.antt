-- ===== src/Parse/Expand/Pieces.antt =====
-- What a string of text and references to macros expands to.
use mathlib.Core.Option
use mdsort.Base.{
  ℕ, zero, ◌+◌, ◌-◌, false, Option, none, some, List, [], ◌∷◌, ◌++◌, ◌≡◌, ◌≢◌, refl, sym, ap, ap₂,
  ◌∙◌, arith, Bytes, ◌==◌, find, length, length-append, All, append_assoc, append-nil, Bool-cases,
  Option-cases, inl, inr,
}
use mdsort.Macro.{
  MacroCtx, ctx_default, ctx_action, Macro, MacroList, no_macro, macro, ismacro, macro_name,
  macro_context, macros_find, macro_ref, has_name, update_macro,
}
use mdsort.Macro.Insert.{value_of}
use mdsort.Parse.{Parser, ◌>>=◌, pure}
use mdsort.Parse.Expand.{
  replaced, macro_use, macro_replaced, expand_used, expand_at, expand_loop, expandmacros,
}

-- A piece of a string: text, or a reference to a macro.
pub data Piece : Type 0 where
  plain reference : Bytes → Piece

unfoldable pub written : List Piece → Bytes
written [] = []
written (plain s ∷ l) = s ++ written l
written (reference name ∷ l) = b'$' ∷ b'{' ∷ (name ++ b'}' ∷ written l)

-- A value, if there is one, before a text.
abbrev pub valued : Option Bytes → Bytes → Bytes
valued none s = s
valued (some value) s = value ++ s

-- The text, and the values of the macros.
unfoldable pub meant : MacroList → List Piece → Bytes
meant macros [] = []
meant macros (plain s ∷ l) = s ++ meant macros l
meant macros (reference name ∷ l) = valued (value_of macros name) (meant macros l)

-- Text has no dollar sign; a reference is to a macro with a value, other than `path`.
abbrev pub Defined : MacroList → Piece → Type 0
Defined macros (plain s) = All (λ c. c ≢ b'$') s
Defined macros (reference name) =
    All (λ c. c ≢ b'}') name × (macro_context name ≡ ctx_default) × (value_of macros name ≢ none)

ismacro-other : (c : ℕ) (s : Bytes) → c ≢ b'$' → ismacro (c ∷ s) ≡ no_macro
unfolding ismacro
ismacro-other c [] h = refl
ismacro-other c (d ∷ s) h = ground arith

macro_name-All :
    (name s : Bytes) (i : ℕ) (acc : Bytes)
    → All (λ c. c ≢ b'}') name
    → macro_name i acc (name ++ b'}' ∷ s) ≡ macro (i + length name + 1) (acc ++ name)
unfolding macro_name
macro_name-All [] s i acc h = rw (append-nil acc) (ap (λ n. macro n acc) (omega arith))
macro_name-All (c ∷ name) s i acc h =
    let other : (c == b'}') ≡ false = ground (arith, h.0) in
    rw (macro_name, other)
      (macro_name-All name s (i + 1) (acc ++ c ∷ []) h.1
        ∙ rw (append_assoc acc (c ∷ []) name) (ap (λ n. macro n (acc ++ c ∷ name)) (omega arith)))

-- A reference leaves the values as they are.
abbrev referred : Macro → Macro
referred mc = record mc { refs = mc.refs + 1 }

values-referred :
    (name other : Bytes) (l : List Macro)
    → Option.map (λ mc. mc.value) (find (has_name other) (update_macro name referred l))
      ≡ Option.map (λ mc. mc.value) (find (has_name other) l)
unfolding update_macro
values-referred name other [] = refl
values-referred name other (mc ∷ l) = elim (Bool-cases (has_name name mc)) [
  | inl e ↦ rw e (elim (Bool-cases (has_name other mc)) [ inl f ↦ rw f refl | inr f ↦ rw f refl ])
  | inr e ↦ rw e (elim (Bool-cases (has_name other mc)) [
    | inl f ↦ rw f refl
    | inr f ↦ rw f (values-referred name other l)
  ])
]

value_of-macro_ref :
    (macros : MacroList) (name other : Bytes)
    → value_of (macro_ref macros name) other ≡ value_of macros other
unfolding macro_ref macros_find
value_of-macro_ref macros name other = values-referred name other macros.macros

Defined-macro_ref :
    (macros : MacroList) (name : Bytes) (l : List Piece)
    → All (Defined macros) l
    → All (Defined (macro_ref macros name)) l
Defined-macro_ref macros name [] h = tt
Defined-macro_ref macros name (plain s ∷ l) h = (h.0, Defined-macro_ref macros name l h.1)
Defined-macro_ref macros name (reference other ∷ l) (h, t) = (
  (h.0, h.1, λ e. h.2 (sym (value_of-macro_ref macros name other) ∙ e)),
  Defined-macro_ref macros name l t,
)

meant-macro_ref :
    (macros : MacroList) (name : Bytes) (l : List Piece)
    → meant (macro_ref macros name) l ≡ meant macros l
unfolding meant
meant-macro_ref macros name [] = refl
meant-macro_ref macros name (plain s ∷ l) = ap (λ t. s ++ t) (meant-macro_ref macros name l)
meant-macro_ref macros name (reference other ∷ l) =
    ap₂ valued (value_of-macro_ref macros name other) (meant-macro_ref macros name l)

expand_skip :
    (curctx : MacroCtx) (u t bf : Bytes)
    → expand_loop curctx (some (length u)) (u ++ t) bf ≡ expand_loop curctx (some zero) t bf
unfolding expand_loop
expand_skip curctx [] t bf = refl
expand_skip curctx (c ∷ u) t bf = expand_skip curctx u t bf

expand_plain :
    (curctx : MacroCtx) (s t bf : Bytes) (p : Parser)
    → All (λ c. c ≢ b'$') s
    → expand_loop curctx (some zero) (s ++ t) bf p ≡ expand_loop curctx (some zero) t (bf ++ s) p
unfolding expand_loop expand_at ◌>>=◌ pure
expand_plain curctx [] t bf p h = rw (append-nil bf) refl
expand_plain curctx (c ∷ s) t bf p h =
    rw (expand_loop, ismacro-other c (s ++ t) h.0)
      (expand_plain curctx s t (bf ++ c ∷ []) p h.1
        ∙ ap (λ b. expand_loop curctx (some zero) t b p) (append_assoc bf (c ∷ []) s))

-- The value of a macro that has one.
macro_replaced_lem :
    (name value : Bytes) (p : Parser)
    → value_of p.macros name ≡ some value
    → macro_replaced name p ≡ (value, record p { macros = macro_ref p.macros name })
unfolding macro_replaced
macro_replaced_lem name value p h = elim (Option-cases (macros_find p.macros name)) [
  | inl e ↦ let no : value_of p.macros name ≡ none = rw e refl in cc
  | inr e ↦
      let here : value_of p.macros name ≡ some e.0.value = rw (e.1) refl in
      let same : e.0.value ≡ value = cc in rw (macro_replaced, e.1, same) refl
]

used : (curctx : MacroCtx) → macro_use curctx ctx_default ≡ replaced
unfolding macro_use
used ctx_default = refl
used ctx_action = refl

-- One turn of the loop at a reference.
expand_at_reference :
    (curctx : MacroCtx) (name value t : Bytes) (p : Parser)
    → All (λ c. c ≢ b'}') name
    → macro_context name ≡ ctx_default
    → value_of p.macros name ≡ some value
    → expand_at curctx b'$' (ismacro (b'$' ∷ b'{' ∷ (name ++ b'}' ∷ t))) p
      ≡ ((some (2 + length name + 1 - 1), value), record p { macros = macro_ref p.macros name })
unfolding expand_at expand_used ismacro ◌>>=◌ pure
expand_at_reference curctx name value t p h d e =
    rw (macro_name-All name t 2 [] h, expand_at, d, used curctx, expand_used)
      (ap (λ r. ((some (2 + length name + 1 - 1), r.0), r.1)) (macro_replaced_lem name value p e))

-- A reference, before what follows it.
expand_reference :
    (curctx : MacroCtx) (name value t bf : Bytes) (p : Parser)
    → All (λ c. c ≢ b'}') name
    → macro_context name ≡ ctx_default
    → value_of p.macros name ≡ some value
    → expand_loop curctx (some zero) (b'$' ∷ b'{' ∷ (name ++ b'}' ∷ t)) bf p
      ≡ expand_loop curctx
          (some zero)
          t
          (bf ++ value)
          (record p { macros = macro_ref p.macros name })
unfolding expand_loop ◌>>=◌
expand_reference curctx name value t bf p h d e =
    let u : Bytes = b'{' ∷ (name ++ b'}' ∷ []) in
    let long : 2 + length name + 1 - 1 ≡ length u =
      rw (length-append name (b'}' ∷ [])) (omega arith) in
    let split : b'{' ∷ (name ++ b'}' ∷ t) ≡ u ++ t =
      ap (λ x. b'{' ∷ x) (sym (append_assoc name (b'}' ∷ []) t)) in
    let q : Parser = record p { macros = macro_ref p.macros name } in
    ap (λ r. expand_loop curctx r.0.0 (b'{' ∷ (name ++ b'}' ∷ t)) (bf ++ r.0.1) r.1)
      (expand_at_reference curctx name value t p h d e)
    ∙ ap (λ n. expand_loop curctx (some n) (b'{' ∷ (name ++ b'}' ∷ t)) (bf ++ value) q) long
    ∙ ap (λ s. expand_loop curctx (some (length u)) s (bf ++ value) q) split
    ∙ ap (λ f. f q) (expand_skip curctx u t (bf ++ value))

-- The text that is written, with what was there before, and no error.
abbrev Expanded : Bytes → Parser → List Piece → Bytes × Parser → Type 0
Expanded bf p l r = (r.0 ≡ bf ++ meant p.macros l) × (r.1.error ≡ p.error)

expand_pieces :
    (curctx : MacroCtx) (l : List Piece) (bf : Bytes) (p : Parser)
    → All (Defined p.macros) l
    → Expanded bf p l (expand_loop curctx (some zero) (written l) bf p)
unfolding expand_loop written meant pure
expand_pieces curctx [] bf p h = (sym (append-nil bf), refl)
expand_pieces curctx (plain s ∷ l) bf p h =
    let (a, b) = expand_pieces curctx l (bf ++ s) p h.1 in
    rw (expand_plain curctx s (written l) bf p h.0) (a ∙ append_assoc bf s (meant p.macros l), b)
expand_pieces curctx (reference name ∷ l) bf p (h, t) =
    elim (Option-cases (value_of p.macros name)) [
      | inl e ↦ absurd (h.2 e)
      | inr e ↦
          let q : Parser = record p { macros = macro_ref p.macros name } in
          let (a, b) = expand_pieces curctx l (bf ++ e.0) q (Defined-macro_ref p.macros name l t) in
          let whole : meant p.macros (reference name ∷ l) ≡ e.0 ++ meant p.macros l =
            rw (meant, e.1) refl in
          rw (expand_reference curctx name e.0 (written l) bf p h.0 h.1 e.1) (
            a
                ∙ ap (λ m. (bf ++ e.0) ++ m) (meant-macro_ref p.macros name l)
                ∙ append_assoc bf e.0 (meant p.macros l)
                ∙ ap (λ m. bf ++ m) (sym whole),
            b,
          )
    ]

-- A string of text without dollar signs and of references to macros that are defined, in either
-- context, expands to the text with the values of the macros in place of the references, and no error
-- is counted.
pub expandmacros-meant :
    (curctx : MacroCtx) (l : List Piece) (p : Parser)
    → All (Defined p.macros) l
    → ((expandmacros curctx (written l) p).0 ≡ meant p.macros l)
      × ((expandmacros curctx (written l) p).1.error ≡ p.error)
unfolding expandmacros
expandmacros-meant curctx l p h = expand_pieces curctx l [] p h
