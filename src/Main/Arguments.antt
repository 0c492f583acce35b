-- ===== src/Main/Arguments.antt =====
-- What the arguments of the program set.
use mdsort.Base.{
  suc, ◌≤◌, Bool, true, false, ◌&&◌, ◌||◌, Option, none, some, List, [], ◌∷◌, ◌≡◌, refl, sym, ap,
  ◌∙◌, arith, Bytes, codes, strchr, before, drop, if◌then◌else◌, ltb, bytes_eq, bytes_eq_iff,
  Bool-cases, Option-cases, inl, inr, ◌⊎◌,
}
use mdsort.Environment.{Env}
use mdsort.Macro.{MacroList, MacroError, err_none, err_ctx, err_exist, err_sticky, macros_insert}
use mdsort.Main.{exit_status}
use mdsort.Main.Commands.{any}
use mdsort.Main.Options.{
  Opt, opt_macro, opt_conf, opt_dryrun, opt_syntax, opt_verbose, opt_unknown, Options, Read, goes,
  exits, macro_read, read_macro, read_rest, read_options, set_level, read_operands, read_arguments,
}

abbrev pub is_dryrun : Opt → Bool
is_dryrun opt_dryrun = true
is_dryrun _ = false

abbrev is_syntax : Opt → Bool
is_syntax opt_syntax = true
is_syntax _ = false

-- The last -f, if there is one.
abbrev pub last_conf : Option Bytes → List Opt → Option Bytes
last_conf c [] = c
last_conf c (opt_conf arg ∷ opts) = last_conf (some arg) opts
last_conf c (_ ∷ opts) = last_conf c opts

-- The settings that the arguments ask for, and nothing but a dash behind the options.
abbrev pub Asked : List Opt → List Bytes → Env → Options → Type 0
Asked opts args env st =
    (st.env.dryrun ≡ (env.dryrun || any is_dryrun opts))
    × (st.env.syntax ≡ (env.syntax || any is_syntax opts))
    × (st.env.confpath ≡ last_conf env.confpath opts)
    × (((args ≡ []) × (st.env.is_stdin ≡ false))
        ⊎ ((args ≡ codes "-" ∷ []) × (st.env.is_stdin ≡ true)))
    × (st.env.dryrun ≡ true → 1 ≤ st.log_level)

-- An argument that is refused ends the program with 1.
abbrev pub Reads : List Opt → List Bytes → Env → Read → Type 0
Reads opts args env (goes st) = Asked opts args env st
Reads opts args env (exits n) = n ≡ 1

or_false : (b : Bool) → b ≡ (b || false)
or_false true = refl
or_false false = refl

or_true : (b c : Bool) → (true || c) ≡ (b || (true || c))
or_true true c = refl
or_true false c = refl

set_level-env :
    (st : Options)
    → ((set_level st).env ≡ st.env) × (st.env.dryrun ≡ true → 1 ≤ (set_level st).log_level)
unfolding set_level
set_level-env st = go st.env.dryrun
  where
    go :
        (d : Bool)
        → ((if d && ltb st.log_level 1 then record st { log_level = 1 } else st).env ≡ st.env)
          × (d ≡ true
              → 1 ≤ (if d && ltb st.log_level 1 then record st { log_level = 1 } else st).log_level)
    go true = elim (Bool-cases (ltb st.log_level 1)) [
      | inl b ↦ rw (b) (refl, λ _. ground arith)
      | inr b ↦ rw (b) (refl, λ _. ground (arith, b))
    ]
    go false = (refl, λ e. ground (arith, e))

module _ (args : List Bytes) where
  levelled :
      (st : Options)
      → ((args ≡ []) × (st.env.is_stdin ≡ false))
        ⊎ ((args ≡ codes "-" ∷ []) × (st.env.is_stdin ≡ true))
      → Reads [] args st.env (goes (set_level st))
  levelled st h =
      let (e, l) = set_level-env st in
      rw (e) (or_false st.env.dryrun, or_false st.env.syntax, refl, h, l)

read_operands-Reads :
    (args : List Bytes) (st : Options)
    → st.env.is_stdin ≡ false
    → Reads [] args st.env (read_operands args st)
unfolding read_operands
read_operands-Reads [] st e = levelled [] st (inl (refl, e))
read_operands-Reads (arg ∷ []) st e = elim (Bool-cases (bytes_eq arg (codes "-"))) [
  | inl b ↦ rw (b) (
      levelled (arg ∷ []) (record st { env = record st.env { is_stdin = true } })
        (inr (ap (λ a. a ∷ []) ((bytes_eq_iff arg (codes "-")).0 b), refl)))
  | inr b ↦ rw (b) refl
]
read_operands-Reads (arg ∷ x ∷ args) st e = refl

-- An option in front that changes what was set before.
Reads-cons :
    (o : Opt) (opts : List Opt) (args : List Bytes) (env env' : Env) (r : Read)
    → (env'.dryrun || any is_dryrun opts) ≡ (env.dryrun || any is_dryrun (o ∷ opts))
    → (env'.syntax || any is_syntax opts) ≡ (env.syntax || any is_syntax (o ∷ opts))
    → last_conf env'.confpath opts ≡ last_conf env.confpath (o ∷ opts)
    → Reads opts args env' r
    → Reads (o ∷ opts) args env r
Reads-cons o opts args env env' (exits n) a b c h = h
Reads-cons o opts args env env' (goes st) a b c (x, y, z, u, v) = (x ∙ a, y ∙ b, z ∙ c, u, v)

read_macro-env :
    (arg : Bytes) (st : Options) (s : Options) → read_macro arg st ≡ some s → s.env ≡ st.env
unfolding read_macro macro_read
read_macro-env arg st s e = elim (Option-cases (strchr b'=' arg)) [
  | inl q ↦ let gone : read_macro arg st ≡ none = rw (read_macro, q) refl in cc
  | inr q ↦
      let there : read_macro arg st
          ≡ macro_read st (macros_insert st.macros (before b'=' arg) (drop 1 q.0) true 0) =
        rw (read_macro, q.1) refl in
      go (macros_insert st.macros (before b'=' arg) (drop 1 q.0) true 0) (sym there ∙ e)
]
  where
    go : (r : MacroError × MacroList) → macro_read st r ≡ some s → s.env ≡ st.env
    go (err_none, m) q = let same : record st { macros = m } ≡ s = cc in ap (λ v. v.env) (sym same)
    go (err_ctx, m) q = cc
    go (err_exist, m) q = cc
    go (err_sticky, m) q = cc

macro_rest-Reads :
    (done : Options → Read) (args : List Bytes) (arg : Bytes) (opts : List Opt) (st : Options)
    → st.env.is_stdin ≡ false
    → ((s : Options) → s.env.is_stdin ≡ false → Reads opts args s.env (read_options done opts s))
    → (o : Option Options) → read_macro arg st ≡ o
    → Reads (opt_macro arg ∷ opts) args st.env (read_rest (read_options done opts) st o)
unfolding read_rest exit_status
macro_rest-Reads done args arg opts st e h none q = rw (e) refl
macro_rest-Reads done args arg opts st e h (some s) q =
    let same = read_macro-env arg st s q in
    Reads-cons (opt_macro arg) opts args st.env s.env _
      (ap (λ v. v.dryrun || any is_dryrun opts) same)
      (ap (λ v. v.syntax || any is_syntax opts) same) (ap (λ v. last_conf v.confpath opts) same)
      (h s (ap (λ v. v.is_stdin) same ∙ e))

read_options-Reads :
    (done : Options → Read) (args : List Bytes)
    → ((st : Options) → st.env.is_stdin ≡ false → Reads [] args st.env (done st))
    → (opts : List Opt) (st : Options) → st.env.is_stdin ≡ false
    → Reads opts args st.env (read_options done opts st)
unfolding read_options
read_options-Reads done args h [] st e = h st e
read_options-Reads done args h (opt_dryrun ∷ opts) st e =
    Reads-cons opt_dryrun opts args st.env (record st.env { dryrun = true }) _
      (or_true st.env.dryrun (any is_dryrun opts)) refl refl
      (read_options-Reads done args h opts (record st { env = record st.env { dryrun = true } }) e)
read_options-Reads done args h (opt_syntax ∷ opts) st e =
    Reads-cons opt_syntax opts args st.env (record st.env { syntax = true }) _ refl
      (or_true st.env.syntax (any is_syntax opts)) refl
      (read_options-Reads done args h opts (record st { env = record st.env { syntax = true } }) e)
read_options-Reads done args h (opt_conf arg ∷ opts) st e =
    Reads-cons (opt_conf arg) opts args st.env (record st.env { confpath = some arg }) _ refl refl
      refl
      (read_options-Reads done args h opts
        (record st { env = record st.env { confpath = some arg } }) e)
read_options-Reads done args h (opt_verbose ∷ opts) st e =
    Reads-cons opt_verbose opts args st.env st.env _ refl refl refl
      (read_options-Reads done args h opts (record st { log_level = suc st.log_level }) e)
read_options-Reads done args h (opt_unknown ∷ opts) st e = refl
read_options-Reads done args h (opt_macro arg ∷ opts) st e =
    macro_rest-Reads done args arg opts st e (read_options-Reads done args h opts)
      (read_macro arg st) refl

-- Reading the arguments from settings without `-`. If the program goes on, a dry run and a syntax
-- check are set as the options ask, the configuration is that of the last -f, there is no operand or
-- the one operand is `-`, which is what makes the input standard, and a dry run is logged. If it does
-- not go on, the exit status is 1, whether the operands have `-` or not.
pub read_arguments-Reads :
    (opts : List Opt) (args : List Bytes) (st : Options)
    → st.env.is_stdin ≡ false
    → Reads opts args st.env (read_arguments opts args st)
unfolding read_arguments
read_arguments-Reads opts args st e =
    read_options-Reads (read_operands args) args (read_operands-Reads args) opts st e
