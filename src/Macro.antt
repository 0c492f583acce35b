-- ===== src/Macro.antt =====
-- macro.c: the macros of a configuration or of an action.
pub mod Insert
use mdsort.Base.{
  ℕ, zero, suc, ◌+◌, ◌<◌, Bool, true, false, not, ◌&&◌, ◌||◌, Option, none, some, List, [], ◌∷◌,
  ◌++◌, map, Bytes, codes, ltb, ◌==◌, if◌then◌else◌, find, keep, bytes_eq,
}

-- `struct macro`; `sticky` is MACRO_FLAG_STICKY in its flags.
pub record Macro : Type 0 where
  pub name : Bytes
  pub value : Bytes
  pub refs : ℕ
  pub defs : ℕ
  pub lno : ℕ
  pub sticky : Bool

-- MACRO_CTX_DEFAULT and MACRO_CTX_ACTION, which are single bits.
pub data MacroCtx : Type 0 where
  ctx_default ctx_action : MacroCtx

-- `(a & b) != 0`
unfoldable pub ctx_and : MacroCtx → MacroCtx → Bool
ctx_and ctx_default ctx_default = true
ctx_and ctx_action ctx_action = true
ctx_and _ _ = false

pub record MacroList : Type 0 where
  pub ctx : MacroCtx
  pub macros : List Macro

pub data MacroError : Type 0 where
  err_none err_ctx err_exist err_sticky : MacroError

unfoldable pub macros_alloc : MacroCtx → MacroList
macros_alloc ctx = record { ctx = ctx; macros = [] }

unfoldable pub macro_context : Bytes → MacroCtx
unfolding bytes_eq
macro_context name = if bytes_eq (codes "path") name then ctx_action else ctx_default

abbrev pub has_name : Bytes → Macro → Bool
has_name name mc = bytes_eq mc.name name

unfoldable pub macros_find : MacroList → Bytes → Option Macro
macros_find l name = find (has_name name) l.macros

-- An assignment to the first macro of a name, which `macros_find` points to.
unfoldable pub update_macro : Bytes → (Macro → Macro) → List Macro → List Macro
update_macro name f [] = []
update_macro name f (mc ∷ l) = if has_name name mc then f mc ∷ l else mc ∷ update_macro name f l

abbrev pub count_def : Macro → Macro
count_def mc = record mc { defs = mc.defs + 1 }

-- A macro of that name is there already. `++mc->mc_defs` is made only where it is reached.
unfoldable pub insert_again : MacroList → Macro → Bytes → Bool → MacroError × MacroList
unfolding update_macro
insert_again l mc name sticky =
    if not mc.sticky then (err_exist, l) else if sticky then (err_exist, l) else (
      if ltb 1 (mc.defs + 1) then err_exist else err_sticky,
      record l { macros = update_macro name count_def l.macros },
    )

unfoldable pub macros_insert : MacroList → Bytes → Bytes → Bool → ℕ → MacroError × MacroList
unfolding macro_context ctx_and macros_find insert_again
macros_insert l name value sticky lno =
    if not (ctx_and (macro_context name) l.ctx) then (err_ctx, l) else elim (macros_find l name) [
      | some mc ↦ insert_again l mc name sticky
      | none ↦ (
        err_none,
        record l {
          macros =
              l.macros
              ++ record {
                name = name;
                value = value;
                refs = 0;
                defs = 0;
                lno = lno;
                sticky = sticky;
              }
                ∷ [];
        },
      )
    ]

-- `none` is errx(3): the program ends.
unfoldable pub macros_insertc : MacroList → Bytes → Bytes → Option MacroList
unfolding macros_insert
macros_insertc l name value =
    let (error, l') = macros_insert l name value false 0 in
    elim error [ err_none ↦ some l' | _ ↦ none ]

unfoldable pub macros_unused : MacroList → List Macro
macros_unused l = keep (λ mc. not (ltb 0 mc.refs)) l.macros

-- `macro_ref` on what `macros_find` points to.
unfoldable pub macro_ref : MacroList → Bytes → MacroList
unfolding update_macro
macro_ref l name = record l {
  macros = update_macro name (λ mc. record mc { refs = mc.refs + 1 }) l.macros;
}

-- The three answers of `ismacro`: 0, -1, or a length and a name.
pub data IsMacro : Type 0 where
  no_macro unterminated : IsMacro
  macro : ℕ → Bytes → IsMacro

-- The loop up to the closing brace, from index `i` with the name read so far.
unfoldable pub macro_name : ℕ → Bytes → Bytes → IsMacro
macro_name i name [] = unterminated
macro_name i name (c ∷ s) =
    if c == b'}' then macro (i + 1) name else macro_name (i + 1) (name ++ c ∷ []) s

unfoldable pub ismacro : Bytes → IsMacro
unfolding macro_name
ismacro (a ∷ b ∷ s) = if not (a == b'$') || not (b == b'{') then no_macro else macro_name 2 [] s
ismacro _ = no_macro
