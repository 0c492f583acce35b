-- ===== src/Macro/Insert.antt =====
-- Inserting a macro: what the list answers afterwards.
use mathlib.Core.Option
use mdsort.Base.{
  ℕ, Bool, true, false, ◌&&◌, Option, none, some, List, [], ◌∷◌, ◌++◌, ◌≡◌, refl, sym, ap, ◌∙◌,
  arith, Bytes, if◌then◌else◌, find, bytes_eq, bytes_eq_iff, Option-cases, Bool-cases, inl, inr,
}
use mdsort.Macro.{
  Macro, ctx_and, MacroList, has_name, count_def, macro_context, macros_find, update_macro,
  insert_again, macros_insert,
}

-- The value that a list gives to a name.
abbrev pub value_of : MacroList → Bytes → Option Bytes
value_of l name = Option.map (λ mc. mc.value) (macros_find l name)

-- The value of a name after an assignment that the list accepts only in its context and only once.
abbrev pub value_after : Option Bytes → Bool → Bytes → Option Bytes
value_after (some v) accepted value = some v
value_after none accepted value = if accepted then some value else none

values : Bytes → List Macro → Option Bytes
values name l = Option.map (λ mc. mc.value) (find (has_name name) l)

values-append :
    (name : Bytes) (l : List Macro) (mc : Macro)
    → values name (l ++ mc ∷ []) ≡ value_after (values name l) (has_name name mc) mc.value
unfolding values
values-append name [] mc = ground arith
values-append name (m ∷ l) mc = elim (Bool-cases (has_name name m)) [
  | inl e ↦ rw e refl
  | inr e ↦ rw e (values-append name l mc)
]

values-update_macro :
    (name other : Bytes) (l : List Macro)
    → values other (update_macro name count_def l) ≡ values other l
unfolding values update_macro
values-update_macro name other [] = refl
values-update_macro name other (m ∷ l) = elim (Bool-cases (has_name name m)) [
  | inl e ↦ rw e (elim (Bool-cases (has_name other m)) [ inl d ↦ rw d refl | inr d ↦ rw d refl ])
  | inr e ↦ rw e (elim (Bool-cases (has_name other m)) [
    | inl d ↦ rw d refl
    | inr d ↦ rw d (values-update_macro name other l)
  ])
]

values-insert_again :
    (l : MacroList) (mc : Macro) (name other : Bytes) (sticky : Bool)
    → value_of ((insert_again l mc name sticky).1) other ≡ value_of l other
unfolding insert_again values macros_find
values-insert_again l mc name other true = elim (Bool-cases mc.sticky) [
  | inl e ↦ rw e refl
  | inr e ↦ rw e refl
]
values-insert_again l mc name other false = elim (Bool-cases mc.sticky) [
  | inl e ↦ rw e (values-update_macro name other l.macros)
  | inr e ↦ rw e refl
]

value_after-refused : (o : Option Bytes) (value : Bytes) → value_after o false value ≡ o
value_after-refused none value = refl
value_after-refused (some v) value = refl

value_after-found :
    (o : Option Bytes) (v value : Bytes) (b : Bool) → o ≡ some v → value_after o b value ≡ o
value_after-found o v value b h = rw h refl

-- A name that is found has a value, whichever of its equals is asked for.
value_of-found :
    (l : MacroList) (name other : Bytes) (mc : Macro) (value : Bytes)
    → macros_find l name ≡ some mc
    → value_after (value_of l other) (bytes_eq name other) value ≡ value_of l other
value_of-found l name other mc value h = elim (Bool-cases (bytes_eq name other)) [
  | inl e ↦
      let same : value_of l other ≡ some mc.value =
        ap (value_of l) (sym ((bytes_eq_iff name other).0 e)) ∙ rw h refl in
      value_after-found (value_of l other) mc.value value _ same
  | inr e ↦ rw e (value_after-refused (value_of l other) value)
]

-- The first definition of a macro stays: after `macros_insert` a name has the value that it had
-- before, and one that had none has the new value just if it is the inserted name and the list is of
-- the context of that name. This holds for each outcome of the insertion, errors included.
pub value_of-macros_insert :
    (l : MacroList) (name value : Bytes) (sticky : Bool) (lno : ℕ) (other : Bytes)
    → value_of ((macros_insert l name value sticky lno).1) other
      ≡ value_after
          (value_of l other)
          (ctx_and (macro_context name) l.ctx && bytes_eq name other)
          value
unfolding macros_insert values
value_of-macros_insert l name value sticky lno other =
    elim (Bool-cases (ctx_and (macro_context name) l.ctx)) [
      | inr e ↦ rw (macros_insert, e) (sym (value_after-refused (value_of l other) value))
      | inl e ↦ elim (Option-cases (macros_find l name)) [
        | inl f ↦ rw (macros_insert, e, f) (values-append other l.macros _)
        | inr f ↦
            rw (macros_insert, e, f.1)
              (values-insert_again l f.0 name other sticky
                ∙ sym (value_of-found l name other f.0 value f.1))
      ]
    ]
