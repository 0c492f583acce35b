-- ===== src/Main/Options.antt =====
-- The options of `main`. getopt(3) is not modelled: the options come as it gives them.
use mdsort.Base.{
  ℕ, suc, true, false, ◌&&◌, Option, none, some, List, [], ◌∷◌, Bytes, codes, ltb, if◌then◌else◌,
  bytes_eq, drop, before, strchr,
}
use mdsort.Environment.{Env}
use mdsort.Macro.{MacroList, MacroError, err_none, macros_insert}
use mdsort.Main.{exit_status}

pub data Opt : Type 0 where
  opt_macro opt_conf : Bytes → Opt
  opt_dryrun opt_syntax opt_verbose opt_unknown : Opt

pub record Options : Type 0 where
  pub env : Env
  pub macros : MacroList
  pub log_level : ℕ

-- How the reading of the options ends: `exits` has the exit status, with the usage or without.
pub data Read : Type 0 where
  goes : Options → Read
  exits : ℕ → Read

unfoldable pub macro_read : Options → MacroError × MacroList → Option Options
macro_read st (err_none, macros) = some (record st { macros = macros })
macro_read st (error, macros) = none

-- -D: what stands behind the `=` is the value.
unfoldable pub read_macro : Bytes → Options → Option Options
unfolding macro_read macros_insert strchr before
read_macro arg st = elim (strchr b'=' arg) [
  | none ↦ none
  | some eq ↦ macro_read st (macros_insert st.macros (before b'=' arg) (drop 1 eq) true 0)
]

-- An error ends the program; the operands have not been read then.
unfoldable pub read_rest : (Options → Read) → Options → Option Options → Read
unfolding exit_status
read_rest next st none = exits (exit_status st.env true false)
read_rest next st (some st') = next st'

-- The loop over the options.
unfoldable pub read_options : (Options → Read) → List Opt → Options → Read
unfolding read_rest read_macro
read_options done [] st = done st
read_options done (opt_macro arg ∷ opts) st =
    read_rest (read_options done opts) st (read_macro arg st)
read_options done (opt_dryrun ∷ opts) st =
    read_options done opts (record st { env = record st.env { dryrun = true } })
read_options done (opt_conf arg ∷ opts) st =
    read_options done opts (record st { env = record st.env { confpath = some arg } })
read_options done (opt_syntax ∷ opts) st =
    read_options done opts (record st { env = record st.env { syntax = true } })
read_options done (opt_verbose ∷ opts) st =
    read_options done opts (record st { log_level = suc st.log_level })
read_options done (opt_unknown ∷ opts) st = exits 1

-- A dry run is told about.
unfoldable pub set_level : Options → Options
set_level st = if st.env.dryrun && ltb st.log_level 1 then record st { log_level = 1 } else st

-- The operands: none, or a dash.
unfoldable pub read_operands : List Bytes → Options → Read
unfolding set_level bytes_eq
read_operands [] st = goes (set_level st)
read_operands (arg ∷ []) st =
    if bytes_eq arg (codes "-")
    then goes (set_level (record st { env = record st.env { is_stdin = true } }))
    else exits 1
read_operands (arg ∷ args) st = exits 1

unfoldable pub read_arguments : List Opt → List Bytes → Options → Read
unfolding read_options read_operands
read_arguments opts args st = read_options (read_operands args) opts st
