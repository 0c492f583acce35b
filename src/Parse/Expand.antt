-- ===== src/Parse/Expand.antt =====
-- The expansion of a tilde and of macros in the strings of a configuration.
pub mod Pieces
use mdsort.Base.{
  ℕ, zero, suc, ◌-◌, Option, none, some, List, [], ◌∷◌, ◌++◌, Bytes, ◌==◌, if◌then◌else◌,
}
use mdsort.Macro.{
  MacroCtx, ctx_default, ctx_action, IsMacro, no_macro, unterminated, macro, ismacro, macro_context,
  macros_find, macro_ref,
}
use mdsort.Parse.{Parse, ◌>>=◌, pure, yyerror}

unfoldable pub expandtilde : Bytes → Bytes → Bytes
expandtilde [] home = []
expandtilde (c ∷ str) home = if c == b'~' then home ++ str else c ∷ str

-- What is done of a macro in a context: it is left as it stands, with or without an error, or it is
-- replaced.
pub data Use : Type 0 where
  delayed misused replaced : Use

unfoldable pub macro_use : MacroCtx → MacroCtx → Use
macro_use ctx_action ctx_action = delayed
macro_use ctx_action ctx_default = replaced
macro_use ctx_default ctx_action = misused
macro_use ctx_default ctx_default = replaced

-- The value of a macro, which is counted as a reference.
unfoldable pub macro_replaced : Bytes → Parse Bytes
unfolding macros_find macro_ref yyerror
macro_replaced name p = elim (macros_find p.macros name) [
  | some mc ↦ (mc.value, record p { macros = macro_ref p.macros name })
  | none ↦ ([], (yyerror p).1)
]

-- One turn of the loop at the byte `c`: what is written to the buffer, and how many bytes of the string
-- belong to it behind `c`; no length is the end of the loop.
unfoldable pub expand_used : Use → ℕ → ℕ → Bytes → Parse (Option ℕ × Bytes)
unfolding macro_replaced yyerror
expand_used delayed c n name = pure (some 0, c ∷ [])
expand_used misused c n name = do e ← yyerror; pure (some 0, c ∷ [])
expand_used replaced c n name = do value ← macro_replaced name; pure (some (n - 1), value)

unfoldable pub expand_at : MacroCtx → ℕ → IsMacro → Parse (Option ℕ × Bytes)
unfolding expand_used macro_use macro_context yyerror
expand_at curctx c unterminated = do e ← yyerror; pure (none, [])
expand_at curctx c no_macro = pure (some 0, c ∷ [])
expand_at curctx c (macro n name) = expand_used (macro_use curctx (macro_context name)) c n name

-- The loop: `skip` bytes belong to what has been replaced.
unfoldable pub expand_loop : MacroCtx → Option ℕ → Bytes → Bytes → Parse Bytes
unfolding expand_at ismacro
expand_loop curctx none str bf = pure bf
expand_loop curctx (some skip) [] bf = pure bf
expand_loop curctx (some (suc skip)) (c ∷ str) bf = expand_loop curctx (some skip) str bf
expand_loop curctx (some zero) (c ∷ str) bf = do
  r ← expand_at curctx c (ismacro (c ∷ str))
  expand_loop curctx r.0 str (bf ++ r.1)

unfoldable pub expandmacros : MacroCtx → Bytes → Parse Bytes
unfolding expand_loop
expandmacros curctx str = expand_loop curctx (some zero) str []

unfoldable pub expand : Bytes → MacroCtx → Bytes → Parse Bytes
unfolding expandtilde expandmacros
expand home curctx str = expandmacros curctx (expandtilde str home)

unfoldable pub expandstrings : Bytes → MacroCtx → List Bytes → Parse (List Bytes)
unfolding expand
expandstrings home curctx [] = pure []
expandstrings home curctx (str ∷ strs) = do
  s ← expand home curctx str
  ss ← expandstrings home curctx strs
  pure (s ∷ ss)
