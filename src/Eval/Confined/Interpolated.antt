-- ===== src/Eval/Confined/Interpolated.antt =====
-- Interpolation leaves every match of its type, about its message, and of a message its name and body.
use mdsort.Base.{
  ℕ, zero, suc, Option, none, some, [], ◌∷◌, ◌++◌, ◌≡◌, refl, ◌∙◌, Bytes, leb, length, get_elem?,
  set, All-append, if◌then◌else◌, codes, Bool-cases, Option-cases, inl, inr,
}
use mdsort.Util.{path_max}
use mdsort.Expr.{ExprType}
use mdsort.Macro.{MacroList, macros_alloc, macros_insertc, ctx_action}
use mdsort.Match.{Match, MatchList}
use mdsort.Message.{Message}
use mdsort.Message.Search.{searchheader}
use mdsort.Message.Headers.{message_set_header}
use mdsort.Message.Body.{Store}
use mdsort.Interpolate.{
  Outcome, done, failed, crashed, ◌>>=◌, interpolate, interpolate_each, label_text, x_label,
  match_interpolate, interpolate_list, matches_interpolate,
}
use mdsort.Eval.Confined.{AllAdmitted}
use mdsort.Eval.Confined.Lists.{SameKind, SameKind-Admits}

-- A message with the name and the body of another.
abbrev pub SameMail : Message → Message → Type 0
SameMail m n = (n.name ≡ m.name) × (n.body ≡ m.body)

SameMail-trans : (a b c : Message) → SameMail a b → SameMail b c → SameMail a c
SameMail-trans a b c (n, p) (o, q) = (o ∙ n, q ∙ p)

message_set_header-SameMail :
    (m : Message) (key val : Bytes) → SameMail m (message_set_header m key val)
unfolding message_set_header
message_set_header-SameMail m key val = elim (Option-cases (searchheader m.headers key)) [
  | inl e ↦ rw (message_set_header, e) (refl, refl)
  | inr e ↦ rw (message_set_header, e.1) (refl, refl)
]

-- What holds of the value, if there is one.
abbrev pub Giving : {A : Type 0} → (A → Type 0) → Outcome A → Type 0
Giving P (done x) = P x
Giving P failed = Unit
Giving P crashed = Unit

Giving-bind :
    {A B : Type 0} (P : B → Type 0) (o : Outcome A) (f : A → Outcome B)
    → ((x : A) → Giving P (f x))
    → Giving P (o >>= f)
Giving-bind P (done x) f h = h x
Giving-bind P failed f h = tt
Giving-bind P crashed f h = tt

abbrev Alike : Match → Message → Match × Message → Type 0
Alike mh m r = SameKind mh r.0 × SameMail m r.1

pathed-Alike :
    (mh : Match) (m : Message) (path : Bytes)
    → Giving
        (Alike mh m)
        (if leb path_max (length path) then failed else done (record mh { path = path }, m))
pathed-Alike mh m path = elim (Bool-cases (leb path_max (length path))) [
  | inl e ↦ rw e tt
  | inr e ↦ rw e ((refl, refl), (refl, refl))
]

match_interpolate-Alike :
    (before : MatchList) (macros : Option MacroList) (mh : Match) (m : Message)
    → Giving (Alike mh m) (match_interpolate before macros mh m)
unfolding match_interpolate
match_interpolate-Alike before macros mh m = go mh.type
  where
    unchanged : Alike mh m (mh, m)
    unchanged = ((refl, refl), (refl, refl))

    go :
        (t : ExprType)
        → Giving
            (Alike (record mh { type = t }) m)
            (match_interpolate before macros (record mh { type = t }) m)
    go ExprType.stat =
        Giving-bind _ (interpolate before macros mh.path) _
          (pathed-Alike (record mh { type = ExprType.stat }) m)
    go ExprType.move =
        Giving-bind _ (interpolate before macros mh.path) _
          (pathed-Alike (record mh { type = ExprType.move }) m)
    go ExprType.label =
        Giving-bind _ (interpolate before macros (label_text m mh.attrs)) _
          (λ l. ((refl, refl), message_set_header-SameMail m x_label l))
    go ExprType.command =
        Giving-bind _ (interpolate_each before macros mh.attrs.strings) _
          (λ a. ((refl, refl), (refl, refl)))
    go ExprType.exec =
        Giving-bind _ (interpolate_each before macros mh.attrs.strings) _
          (λ a. ((refl, refl), (refl, refl)))
    go ExprType.add_header =
        Giving-bind _ (interpolate before macros mh.attrs.header_val) _
          (λ v. ((refl, refl), message_set_header-SameMail m mh.attrs.header_key v))
    go _ = ((refl, refl), (refl, refl))

-- The message at an address has the name and the body of another.
abbrev pub HasMail : Store → ℕ → Message → Type 0
HasMail st i m = (n : Message) × (get_elem? st i ≡ some n) × SameMail m n

set-HasMail :
    (st : Store) (i j : ℕ) (m x y : Message)
    → HasMail st i m
    → get_elem? st j ≡ some x
    → SameMail x y
    → HasMail (set st j y) i m
set-HasMail [] i j m x y h e s = cc
set-HasMail (z ∷ st) zero zero m x y (n, f, g) e s =
    let same : x ≡ n = cc in (y, refl, SameMail-trans m n y g (rw⁻¹ same s))
set-HasMail (z ∷ st) zero (suc j) m x y h e s = h
set-HasMail (z ∷ st) (suc i) zero m x y h e s = h
set-HasMail (z ∷ st) (suc i) (suc j) m x y h e s = set-HasMail st i j m x y h e s

module _ (A : ExprType → ℕ → Type 0) (i : ℕ) (m : Message) where
  abbrev pub Interpolated : MatchList × Store → Type 0
  Interpolated r = AllAdmitted A r.0 × HasMail r.1 i m

  interpolate_list-Interpolated :
      (macros : MacroList) (before ml : MatchList) (st : Store)
      → AllAdmitted A before
      → AllAdmitted A ml
      → HasMail st i m
      → Giving Interpolated (interpolate_list macros before ml st)
  unfolding interpolate_list
  interpolate_list-Interpolated macros before [] st b a h = (b, h)
  interpolate_list-Interpolated macros before (mh ∷ ml) st b a h =
      elim (Option-cases (get_elem? st mh.msg)) [
        | inl e ↦ rw (interpolate_list, e) tt
        | inr e ↦
            rw (interpolate_list, e.1)
              (go e.0 e.1
                (λ mh' y b' h'.
                  interpolate_list-Interpolated macros (before ++ mh' ∷ []) ml (set st mh.msg y) b'
                    a.1 h')
                (match_interpolate before (some macros) mh e.0)
                (match_interpolate-Alike before (some macros) mh e.0))
      ]
    where
      go :
          (x : Message)
          → get_elem? st mh.msg ≡ some x
          → ((mh' : Match) (y : Message)
              → AllAdmitted A (before ++ mh' ∷ [])
              → HasMail (set st mh.msg y) i m
              → Giving Interpolated
                  (interpolate_list macros (before ++ mh' ∷ []) ml (set st mh.msg y)))
          → (o : Outcome (Match × Message)) → Giving (Alike mh x) o
          → Giving Interpolated (elim o [
            | failed ↦ failed
            | crashed ↦ crashed
            | done (mh', msg') ↦
                interpolate_list macros (before ++ mh' ∷ []) ml (set st mh.msg msg')
          ])
      go x e next failed k = tt
      go x e next crashed k = tt
      go x e next (done (mh', y)) (s, t) =
          next mh' y
            (All-append (λ n. A n.type n.msg) before (mh' ∷ [])
              (b, (SameKind-Admits A mh mh' s a.0, tt)))
            (set-HasMail st i mh.msg m x y h e t)

  -- If the matches of a list are admitted, those that interpolation makes of them are, and the
  -- message keeps its name and body.
  pub matches_interpolate-Interpolated :
      (ml : MatchList) (st : Store)
      → AllAdmitted A ml
      → HasMail st i m
      → Giving Interpolated (matches_interpolate ml st)
  unfolding matches_interpolate
  matches_interpolate-Interpolated [] st a h = tt
  matches_interpolate-Interpolated (mh ∷ ml) st a h = elim (Option-cases (get_elem? st mh.msg)) [
    | inl e ↦ rw (matches_interpolate, e) tt
    | inr e ↦
        rw (matches_interpolate, e.1)
          (go (macros_insertc (macros_alloc ctx_action) (codes "path") e.0.path))
  ]
    where
      go :
          (o : Option MacroList)
          → Giving Interpolated
              (elim o [ none ↦ failed | some macros ↦ interpolate_list macros [] (mh ∷ ml) st ])
      go none = tt
      go (some macros) = interpolate_list-Interpolated macros [] (mh ∷ ml) st tt a h
