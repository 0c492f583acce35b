-- ===== src/Eval/Confined/Matchers.antt =====
-- The matchers confine the state, if their type is admitted.
use mdsort.Base.{
  ℕ, Bool, true, false, Option, none, some, List, [], ◌∷◌, refl, Bytes, codes, get_elem?,
  Bool-cases, inl, inr,
}
use mdsort.Base.Int.{ℤ}
use mdsort.DateTime.{time_parse}
use mdsort.Expr.{ExprType, ExprAttrs, ExprRegex, DateField, field_header}
use mdsort.Match.{Match, match_alloc, matches_remove}
use mdsort.Message.{Message}
use mdsort.Message.Headers.{message_get_header1}
use mdsort.Message.Body.{message_get_body}
use mdsort.Message.BodyKeeps.{message_get_body-Keeps}
use mdsort.Interpolate.{Outcome, done, failed, crashed}
use mdsort.Eval.State.{
  RegResult, reg_ok, reg_nomatch, reg_error, System, Env, EvalState, path_of, append_with, no_init,
  expr_regcopy, set_key_val, Stat,
}
use mdsort.Eval.Leaves.{
  copy_matches, regexec_matched, reg_result, regexec_with, expr_regexec, body_result,
  expr_eval_body, header_values, header_keys, expr_eval_header, values_of,
}
use mdsort.Eval.Effects.{
  interpolate_bare, run_command, command_result, command_appended, expr_eval_command, stat_appended,
  expr_eval_stat, date_fits, compare_date, parsed_date, header_date, date_of_header, formatted_date,
  file_date, date_of_file, date_in, expr_eval_date,
}
use mdsort.Eval.Confined.{Rules, Confined, Confines}
use mdsort.Eval.Confined.Lists.{SameKind, remove-Admitted, update-Admitted}
use mdsort.Eval.Confined.Leaves.{Kept, append_with-Confined, same, stored, unless_nomatch-Kept}

set_key_val-same :
    (b : Bool) (k v : Bytes) (m n : Match) → SameKind m n → SameKind m (set_key_val b k v n)
set_key_val-same true k v m n h = h
set_key_val-same false k v m n h = h

module _ {Tm : Type 0} (sys : System Tm) (env : Env) (R : Rules) where
  copy_matches-Kept :
      (re : ExprRegex) (key val : Bytes) (offsets : List (Option (ℕ × ℕ))) (id : ℕ)
      (p : Bool × EvalState)
      → Kept R p
      → Kept R (copy_matches env.dryrun re key val offsets id p)
  unfolding copy_matches expr_regcopy
  copy_matches-Kept re key val offsets id (true, s) h = h
  copy_matches-Kept re key val offsets id (false, s) (h, r, b) =
      let f : Match → Match = λ m. set_key_val env.dryrun key val (expr_regcopy re val offsets m) in
      (
        update-Admitted R.Admits id f s.ml
            (λ m. set_key_val-same env.dryrun key val m _ (refl, refl)) h,
        r,
        b,
      )

  reg_result-Kept :
      (type : ExprType) (attrs : ExprAttrs) (re : ExprRegex) (key val : Bytes) (msg : ℕ)
      → R.Admits type msg
      → (s : EvalState) (r : RegResult) → Confined R s
      → Kept R (reg_result sys env type attrs re key val msg s r)
  unfolding reg_result regexec_matched
  reg_result-Kept type attrs re key val msg a s (reg_ok offsets) h =
      copy_matches-Kept re key val offsets s.next (append_with no_init type attrs msg s)
        (append_with-Confined R no_init type attrs msg (same R) a s h)
  reg_result-Kept type attrs re key val msg a s reg_nomatch h = h
  reg_result-Kept type attrs re key val msg a s reg_error h = h

  expr_regexec-Confines :
      (type : ExprType) (attrs : ExprAttrs) (key val : Bytes) (msg : ℕ)
      → R.Admits type msg
      → Confines R (expr_regexec sys env type attrs key val msg)
  unfolding expr_regexec
  expr_regexec-Confines type attrs key val msg a s h = go attrs.re
    where
      go : (re : Option ExprRegex) → Kept R (regexec_with sys env type attrs key val msg s re)
      go none = unfold regexec_with in h
      go (some re) =
          unfold regexec_with in
          reg_result-Kept type attrs re key val msg a s (sys.regexec re.pattern re.icase val) h

  body_result-Kept :
      (attrs : ExprAttrs) (msg : ℕ) (p : Option Bytes × EvalState)
      → R.Admits ExprType.body msg
      → Kept R p
      → Kept R (body_result sys env attrs msg p)
  unfolding body_result
  body_result-Kept attrs msg (none, s) a h = h
  body_result-Kept attrs msg (some text, s) a h =
      expr_regexec-Confines ExprType.body attrs (codes "Body") text msg a s h

  pub body-Confines :
      (attrs : ExprAttrs) (msg : ℕ)
      → R.Admits ExprType.body msg
      → Confines R (expr_eval_body sys env attrs msg)
  unfolding expr_eval_body
  body-Confines attrs msg a s h =
      body_result-Kept attrs msg
        ((message_get_body msg s.store).0, record s { store = (message_get_body msg s.store).1 }) a
        (stored R s (message_get_body msg s.store).1 (message_get_body-Keeps msg s.store) h)

  header_values-Confines :
      (attrs : ExprAttrs) (key : Bytes) (vs : List Bytes) (msg : ℕ)
      → R.Admits ExprType.header msg
      → Confines R (header_values sys env attrs key vs msg)
  unfolding header_values
  header_values-Confines attrs key [] msg a s h = h
  header_values-Confines attrs key (v ∷ vs) msg a s h =
      unless_nomatch-Kept R (header_values sys env attrs key vs msg)
        (header_values-Confines attrs key vs msg a)
        (expr_regexec sys env ExprType.header attrs key v msg s)
        (expr_regexec-Confines ExprType.header attrs key v msg a s h)

  header_keys-Confines :
      (attrs : ExprAttrs) (ks : List Bytes) (msg : ℕ)
      → R.Admits ExprType.header msg
      → Confines R (header_keys sys env attrs ks msg)
  unfolding header_keys
  header_keys-Confines attrs [] msg a s h = h
  header_keys-Confines attrs (k ∷ ks) msg a s h =
      unless_nomatch-Kept R (header_keys sys env attrs ks msg) (header_keys-Confines attrs ks msg a)
        (header_values sys env attrs k (values_of msg s k) msg s)
        (header_values-Confines attrs k (values_of msg s k) msg a s h)

  pub header-Confines :
      (attrs : ExprAttrs) (msg : ℕ)
      → R.Admits ExprType.header msg
      → Confines R (expr_eval_header sys env attrs msg)
  unfolding expr_eval_header
  header-Confines attrs msg a s h = header_keys-Confines attrs attrs.strings msg a s h

  -- The match of a command or of a directory test is dropped again.
  dropped :
      (id : ℕ) (s : EvalState)
      → Confined R s
      → Confined R (record s { ml = matches_remove s.ml id })
  dropped id s (h, r, b) = (remove-Admitted R.Admits id s.ml h, r, b)

  command_result-Kept :
      (id msg : ℕ) (s : EvalState) (o : Outcome (Match × Message))
      → R.Admits ExprType.command msg
      → Confined R s
      → Kept R (command_result sys env id s o)
  unfolding command_result run_command
  command_result-Kept id msg s (done (mh, m)) a (h, r, b) = (h, R.runs msg s.ran mh.argv a r, b)
  command_result-Kept id msg s failed a h = h
  command_result-Kept id msg s crashed a h = h

  command_appended-Kept :
      (attrs : ExprAttrs) (id msg : ℕ) (p : Bool × EvalState)
      → R.Admits ExprType.command msg
      → Kept R p
      → Kept R (command_appended sys env attrs id msg p)
  unfolding command_appended
  command_appended-Kept attrs id msg (true, s) a h = h
  command_appended-Kept attrs id msg (false, s) a h =
      let o = interpolate_bare (match_alloc id ExprType.command attrs msg) msg s in
      dropped id (command_result sys env id s o).1 (command_result-Kept id msg s o a h)

  pub command-Confines :
      (attrs : ExprAttrs) (msg : ℕ)
      → R.Admits ExprType.command msg
      → Confines R (expr_eval_command sys env attrs msg)
  unfolding expr_eval_command
  command-Confines attrs msg a s h =
      command_appended-Kept attrs s.next msg (append_with no_init ExprType.command attrs msg s) a
        (append_with-Confined R no_init ExprType.command attrs msg (same R) a s h)

  stat_appended-Kept :
      (attrs : ExprAttrs) (id msg : ℕ) (p : Bool × EvalState)
      → Kept R p
      → Kept R (stat_appended sys env attrs id msg p)
  unfolding stat_appended
  stat_appended-Kept attrs id msg (true, s) h = dropped id s h
  stat_appended-Kept attrs id msg (false, s) h = dropped id s h

  pub stat-Confines :
      (attrs : ExprAttrs) (msg : ℕ)
      → R.Admits ExprType.stat msg
      → Confines R (expr_eval_stat sys env attrs msg)
  unfolding expr_eval_stat
  stat-Confines attrs msg a s h =
      stat_appended-Kept attrs s.next msg (append_with no_init ExprType.stat attrs msg s)
        (append_with-Confined R no_init ExprType.stat attrs msg (same R) a s h)

  compare_date-Confines :
      (attrs : ExprAttrs) (tim : ℤ) (date : Bytes) (msg : ℕ)
      → R.Admits ExprType.date msg
      → Confines R (compare_date sys env attrs tim date msg)
  unfolding compare_date
  compare_date-Confines attrs tim date msg a s h =
      elim (Bool-cases (date_fits sys env attrs.date_cmp attrs.date_age tim)) [
        | inl e ↦ rw e (expr_regexec-Confines ExprType.date attrs (codes "Date") date msg a s h)
        | inr e ↦ rw e h
      ]

  parsed_date-Kept :
      (attrs : ExprAttrs) (date : Bytes) (msg : ℕ) (p : Option ℤ × EvalState)
      → R.Admits ExprType.date msg
      → Kept R p
      → Kept R (parsed_date sys env attrs date msg p)
  unfolding parsed_date
  parsed_date-Kept attrs date msg (none, s) a h = h
  parsed_date-Kept attrs date msg (some tim, s) a h = compare_date-Confines attrs tim date msg a s h

  header_date-Confines :
      (attrs : ExprAttrs) (d : Option Bytes) (msg : ℕ)
      → R.Admits ExprType.date msg
      → Confines R (header_date sys env attrs d msg)
  unfolding header_date
  header_date-Confines attrs none msg a s h = h
  header_date-Confines attrs (some date) msg a s h =
      parsed_date-Kept attrs date msg
        (
          (time_parse sys.clock date env.tz s.tz_var).0,
          record s { tz_var = (time_parse sys.clock date env.tz s.tz_var).1 },
        )
        a h

  date_of_header-Confines :
      (attrs : ExprAttrs) (m : Option Message) (msg : ℕ)
      → R.Admits ExprType.date msg
      → Confines R (date_of_header sys env attrs m msg)
  unfolding date_of_header
  date_of_header-Confines attrs none msg a s h = h
  date_of_header-Confines attrs (some m) msg a s h =
      header_date-Confines attrs (message_get_header1 m (codes "Date")) msg a s h

  formatted_date-Confines :
      (attrs : ExprAttrs) (tim : ℤ) (d : Option Bytes) (msg : ℕ)
      → R.Admits ExprType.date msg
      → Confines R (formatted_date sys env attrs tim d msg)
  unfolding formatted_date
  formatted_date-Confines attrs tim none msg a s h = h
  formatted_date-Confines attrs tim (some date) msg a s h =
      compare_date-Confines attrs tim date msg a s h

  file_date-Confines :
      (attrs : ExprAttrs) (st : Option Stat) (msg : ℕ)
      → R.Admits ExprType.date msg
      → Confines R (file_date sys env attrs st msg)
  unfolding file_date
  file_date-Confines attrs none msg a s h = h
  file_date-Confines attrs (some st) msg a s h = formatted_date-Confines attrs _ _ msg a s h

  date_in-Confines :
      (field : DateField) (attrs : ExprAttrs) (msg : ℕ)
      → R.Admits ExprType.date msg
      → Confines R (date_in sys env field attrs msg)
  unfolding date_in date_of_file
  date_in-Confines field_header attrs msg a s h =
      date_of_header-Confines attrs (get_elem? s.store msg) msg a s h
  date_in-Confines _ attrs msg a s h =
      file_date-Confines attrs (sys.stat s.ran (path_of msg s)) msg a s h

  pub date-Confines :
      (attrs : ExprAttrs) (msg : ℕ)
      → R.Admits ExprType.date msg
      → Confines R (expr_eval_date sys env attrs msg)
  unfolding expr_eval_date
  date-Confines attrs msg a s h = date_in-Confines attrs.date_field attrs msg a s h
