-- ===== src/Eval/Growth/Leaves.antt =====
-- The matchers with no matcher inside them grow the match list.
use mdsort.Base.{
  ℕ, suc, Bool, true, false, Option, none, some, List, [], ◌∷◌, ◌++◌, ◌≡◌, refl, ap, ◌∙◌, inl, inr,
  arith, Bytes, codes, Bool-cases, get_elem?, append-nil,
}
use mdsort.Base.Int.{ℤ}
use mdsort.DateTime.{time_parse}
use mdsort.Expr.{ExprType, ExprAttrs, ExprRegex, DateField, field_header}
use mdsort.Match.{Match, match_alloc, matches_remove}
use mdsort.Match.Removal.{remove_middle, update_last}
use mdsort.Message.{Message}
use mdsort.Message.Headers.{message_get_header1}
use mdsort.Message.Body.{message_get_body}
use mdsort.Interpolate.{Outcome, done, failed, crashed}
use mdsort.Eval.State.{
  RegResult, reg_ok, System, Env, EvalState, no_init, expr_regcopy, set_key_val, update_state, Stat,
  path_of,
}
use mdsort.Eval.Leaves.{
  copy_matches, regexec_matched, reg_result, regexec_with, expr_regexec, body_result,
  expr_eval_body, header_values, header_keys, expr_eval_header, expr_eval_new, expr_eval_old,
}
use mdsort.Eval.Effects.{
  interpolate_bare, run_command, command_result, command_appended, expr_eval_command, stat_appended,
  expr_eval_stat, date_fits, compare_date, parsed_date, header_date, date_of_header, formatted_date,
  file_date, date_of_file, date_in, expr_eval_date,
}
use mdsort.Eval.Growth.{
  IsFresh, GrowsTo, Grows, GrowsTo-same, GrowsTo-IsFresh, GrowsTo-trans, is_matcher, plain_append,
  append_with-matcher,
}
use mdsort.Eval.Growth.Matchers.{GrowsTo-cons, GrowsFrom, unless_nomatch-GrowsTo}

-- Members other than the address may be set on the match that was appended last.
updated-GrowsTo :
    (f : Match → Match) (type : ExprType) (attrs : ExprAttrs) (msg : ℕ) (s : EvalState)
    → IsFresh s
    → (f (match_alloc s.next type attrs msg)).id ≡ s.next
    → GrowsTo s (update_state s.next f (plain_append no_init type attrs msg s))
unfolding match_alloc
updated-GrowsTo f type attrs msg s fresh keeps =
    let m = match_alloc s.next type attrs msg in
    GrowsTo-cons s (update_state s.next f (plain_append no_init type attrs msg s)) (f m) keeps
      (update_last f s.ml m fresh) refl

set_key_val-id : (b : Bool) (k v : Bytes) (m : Match) → (set_key_val b k v m).id ≡ m.id
set_key_val-id true k v m = refl
set_key_val-id false k v m = refl

module _ {Tm : Type 0} (sys : System Tm) (env : Env) where
  reg_result-GrowsTo :
      (type : ExprType) (attrs : ExprAttrs) (re : ExprRegex) (key val : Bytes)
      → is_matcher type ≡ true
      → (msg : ℕ) (s : EvalState) (r : RegResult) → IsFresh s
      → GrowsTo s (reg_result sys env type attrs re key val msg s r).1
  unfolding reg_result regexec_matched copy_matches expr_regcopy match_alloc
  reg_result-GrowsTo type attrs re key val h msg s (reg_ok offsets) f =
      rw (append_with-matcher type attrs msg s h) (
        updated-GrowsTo (λ m. set_key_val env.dryrun key val (expr_regcopy re val offsets m)) type
          attrs msg s f
          (set_key_val-id env.dryrun key val
            (expr_regcopy re val offsets (match_alloc s.next type attrs msg))))
  reg_result-GrowsTo type attrs re key val h msg s _ f = GrowsTo-same s s refl (omega arith)

  regexec_with-GrowsTo :
      (type : ExprType) (attrs : ExprAttrs) (key val : Bytes)
      → is_matcher type ≡ true
      → (msg : ℕ) (s : EvalState) (re : Option ExprRegex) → IsFresh s
      → GrowsTo s (regexec_with sys env type attrs key val msg s re).1
  unfolding regexec_with
  regexec_with-GrowsTo type attrs key val h msg s none f = GrowsTo-same s s refl (omega arith)
  regexec_with-GrowsTo type attrs key val h msg s (some re) f =
      reg_result-GrowsTo type attrs re key val h msg s (sys.regexec re.pattern re.icase val) f

  expr_regexec-Grows :
      (type : ExprType) (attrs : ExprAttrs) (key val : Bytes)
      → is_matcher type ≡ true
      → Grows (expr_regexec sys env type attrs key val)
  unfolding expr_regexec
  expr_regexec-Grows type attrs key val h msg s =
      regexec_with-GrowsTo type attrs key val h msg s attrs.re

  body_result-GrowsTo :
      (attrs : ExprAttrs) (msg : ℕ) (s : EvalState) (b : Option Bytes) (t : EvalState)
      → IsFresh s
      → t.ml ≡ s.ml
      → t.next ≡ s.next
      → GrowsTo s (body_result sys env attrs msg (b, t)).1
  unfolding body_result is_matcher
  body_result-GrowsTo attrs msg s none t f e n = GrowsTo-same s t e (omega arith)
  body_result-GrowsTo attrs msg s (some text) t f e n =
      let g = GrowsTo-same s t e (omega arith) in
      GrowsTo-trans g (
        expr_regexec-Grows ExprType.body attrs (codes "Body") text refl msg t (GrowsTo-IsFresh f g))

  pub body-Grows : (attrs : ExprAttrs) → Grows (expr_eval_body sys env attrs)
  unfolding expr_eval_body
  body-Grows attrs msg s f =
      body_result-GrowsTo attrs msg s (message_get_body msg s.store).0
        (record s { store = (message_get_body msg s.store).1 }) f refl refl

  header_values-GrowsFrom :
      (attrs : ExprAttrs) (key : Bytes) (vs : List Bytes) (msg : ℕ)
      → GrowsFrom (header_values sys env attrs key vs msg)
  unfolding header_values is_matcher
  header_values-GrowsFrom attrs key [] msg s f = GrowsTo-same s s refl (omega arith)
  header_values-GrowsFrom attrs key (v ∷ vs) msg s f =
      unless_nomatch-GrowsTo (header_values sys env attrs key vs msg)
        (header_values-GrowsFrom attrs key vs msg) s f
        (expr_regexec sys env ExprType.header attrs key v msg s)
        (expr_regexec-Grows ExprType.header attrs key v refl msg s f)

  header_keys-GrowsFrom :
      (attrs : ExprAttrs) (ks : List Bytes) (msg : ℕ) → GrowsFrom (header_keys sys env attrs ks msg)
  unfolding header_keys
  header_keys-GrowsFrom attrs [] msg s f = GrowsTo-same s s refl (omega arith)
  header_keys-GrowsFrom attrs (k ∷ ks) msg s f =
      unless_nomatch-GrowsTo (header_keys sys env attrs ks msg) (header_keys-GrowsFrom attrs ks msg)
        s f _ (header_values-GrowsFrom attrs k _ msg s f)

  pub header-Grows : (attrs : ExprAttrs) → Grows (expr_eval_header sys env attrs)
  unfolding expr_eval_header
  header-Grows attrs msg s f = header_keys-GrowsFrom attrs attrs.strings msg s f

  -- A state whose match at address `id` is dropped again.
  dropped-GrowsTo :
      (type : ExprType) (attrs : ExprAttrs) (msg : ℕ) (s t : EvalState)
      → IsFresh s
      → t.ml ≡ s.ml ++ match_alloc s.next type attrs msg ∷ []
      → t.next ≡ suc s.next
      → GrowsTo s (record t { ml = matches_remove t.ml s.next })
  unfolding match_alloc
  dropped-GrowsTo type attrs msg s t f e n =
      GrowsTo-same s (record t { ml = matches_remove t.ml s.next })
        (ap (λ l. matches_remove l s.next) e
          ∙ remove_middle s.ml (match_alloc s.next type attrs msg) [] f tt
          ∙ append-nil s.ml)
        (omega arith)

  command_result-same :
      (id : ℕ) (s : EvalState) (o : Outcome (Match × Message))
      → ((command_result sys env id s o).1.ml ≡ s.ml)
        × ((command_result sys env id s o).1.next ≡ s.next)
  unfolding command_result run_command
  command_result-same id s (done (mh, m)) = (refl, refl)
  command_result-same id s failed = (refl, refl)
  command_result-same id s crashed = (refl, refl)

  pub command-Grows : (attrs : ExprAttrs) → Grows (expr_eval_command sys env attrs)
  unfolding expr_eval_command command_appended is_matcher
  command-Grows attrs msg s f = rw (append_with-matcher ExprType.command attrs msg s refl) (
      let t = plain_append no_init ExprType.command attrs msg s in
      let mh = match_alloc s.next ExprType.command attrs msg in
      let (ml_same, next_same) = command_result-same s.next t (interpolate_bare mh msg t) in
      dropped-GrowsTo ExprType.command attrs msg s
        (command_result sys env s.next t (interpolate_bare mh msg t)).1 f ml_same next_same)

  pub stat-Grows : (attrs : ExprAttrs) → Grows (expr_eval_stat sys env attrs)
  unfolding expr_eval_stat stat_appended is_matcher
  stat-Grows attrs msg s f = rw (append_with-matcher ExprType.stat attrs msg s refl) (
      dropped-GrowsTo ExprType.stat attrs msg s (plain_append no_init ExprType.stat attrs msg s) f
        refl refl)

  compare_date-Grows :
      (attrs : ExprAttrs) (tim : ℤ) (date : Bytes) → Grows (compare_date sys env attrs tim date)
  unfolding compare_date is_matcher
  compare_date-Grows attrs tim date msg s f =
      elim (Bool-cases (date_fits sys env attrs.date_cmp attrs.date_age tim)) [
        | inl e ↦ rw e (expr_regexec-Grows ExprType.date attrs (codes "Date") date refl msg s f)
        | inr e ↦ rw e (GrowsTo-same s s refl (omega arith))
      ]

  parsed_date-GrowsTo :
      (attrs : ExprAttrs) (date : Bytes) (msg : ℕ) (s : EvalState) (p : Option ℤ) (t : EvalState)
      → IsFresh s
      → t.ml ≡ s.ml
      → t.next ≡ s.next
      → GrowsTo s (parsed_date sys env attrs date msg (p, t)).1
  unfolding parsed_date
  parsed_date-GrowsTo attrs date msg s none t f e n = GrowsTo-same s t e (omega arith)
  parsed_date-GrowsTo attrs date msg s (some tim) t f e n =
      let g = GrowsTo-same s t e (omega arith) in
      GrowsTo-trans g (compare_date-Grows attrs tim date msg t (GrowsTo-IsFresh f g))

  header_date-Grows : (attrs : ExprAttrs) (d : Option Bytes) → Grows (header_date sys env attrs d)
  unfolding header_date
  header_date-Grows attrs none msg s f = GrowsTo-same s s refl (omega arith)
  header_date-Grows attrs (some date) msg s f =
      parsed_date-GrowsTo attrs date msg s (time_parse sys.clock date env.tz s.tz_var).0
        (record s { tz_var = (time_parse sys.clock date env.tz s.tz_var).1 }) f refl refl

  date_of_header-Grows :
      (attrs : ExprAttrs) (m : Option Message) → Grows (date_of_header sys env attrs m)
  unfolding date_of_header
  date_of_header-Grows attrs none msg s f = GrowsTo-same s s refl (omega arith)
  date_of_header-Grows attrs (some m) msg s f =
      header_date-Grows attrs (message_get_header1 m (codes "Date")) msg s f

  formatted_date-Grows :
      (attrs : ExprAttrs) (tim : ℤ) (d : Option Bytes) → Grows (formatted_date sys env attrs tim d)
  unfolding formatted_date
  formatted_date-Grows attrs tim none msg s f = GrowsTo-same s s refl (omega arith)
  formatted_date-Grows attrs tim (some date) msg s f = compare_date-Grows attrs tim date msg s f

  file_date-Grows : (attrs : ExprAttrs) (st : Option Stat) → Grows (file_date sys env attrs st)
  unfolding file_date
  file_date-Grows attrs none msg s f = GrowsTo-same s s refl (omega arith)
  file_date-Grows attrs (some st) msg s f = formatted_date-Grows attrs _ _ msg s f

  date_in-Grows : (field : DateField) (attrs : ExprAttrs) → Grows (date_in sys env field attrs)
  unfolding date_in date_of_file
  date_in-Grows field_header attrs msg s f =
      date_of_header-Grows attrs (get_elem? s.store msg) msg s f
  date_in-Grows _ attrs msg s f = file_date-Grows attrs (sys.stat s.ran (path_of msg s)) msg s f

  pub date-Grows : (attrs : ExprAttrs) → Grows (expr_eval_date sys env attrs)
  unfolding expr_eval_date
  date-Grows attrs msg s f = date_in-Grows attrs.date_field attrs msg s f

pub new-Grows : Grows expr_eval_new
unfolding expr_eval_new
new-Grows msg s f = GrowsTo-same s s refl (omega arith)

pub old-Grows : Grows expr_eval_old
unfolding expr_eval_old
old-Grows msg s f = GrowsTo-same s s refl (omega arith)
