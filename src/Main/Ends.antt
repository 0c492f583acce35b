-- ===== src/Main/Ends.antt =====
-- The fuel of the loops of `main`: enough of it gives a result, and more gives the same one. The walk is
-- over directories that are finite lists, and each attempt at a name is bounded as Maildir/Names says.
use mdsort.Base.{
  ℕ, zero, suc, ◌+◌, ◌≤◌, ◌<◌, leb, ap, Bool-cases, Option, some, List, [], ◌∷◌, ◌≡◌, refl, ◌∙◌,
  sym, arith, Bytes, inl, inr,
}
use mdsort.Environment.{Env}
use mdsort.Eval.State.{ExecStatus, System}
use mdsort.Maildir.{subdir_new, subdir_cur, Maildir, Os, World}
use mdsort.Maildir.Walk.{Found, found, ended, read_error, read_crash, read_exits, maildir_walk}
use mdsort.Maildir.Opened.{Opened, opened, not_opened, exits, crashes}
use mdsort.Maildir.Traversal.{entries_left, Further, Advances, maildir_walk-Advances}
use mdsort.Exec.{Input}
use mdsort.Main.{Config, maildir_skip}
use mdsort.Main.Handle.{Run, Handled, back, died, handle_message}
use mdsort.Main.Walk.{
  Handler, walk_handled, walk_found, walk_messages, path_closed, path_walked, path_opened, run_path,
  then_run, run_paths, run_configs,
}

-- With some fuel there is a result, and it is also that of more fuel.
abbrev pub Settles : {A : Type 0} → (ℕ → Option A) → Type 0
Settles {A} f = (n : ℕ) × (r : A) × ((k : ℕ) → n ≤ k → f k ≡ some r)

-- A result stays when there is more fuel.
abbrev pub Grows : {A : Type 0} → (ℕ → Option A) → Type 0
Grows {A} f = (n : ℕ) (r : A) → f n ≡ some r → f (suc n) ≡ some r

Settles-Grows :
    {A : Type 0} (f : ℕ → Option A) → Grows f → (n : ℕ) (r : A) → f n ≡ some r → Settles f
Settles-Grows f g n r e = (n, r, go)
  where
    go : (k : ℕ) → n ≤ k → f k ≡ some r
    go zero l = let zeroth : n ≡ zero = ground (arith, l) in ap f (sym zeroth) ∙ e
    go (suc k) l = elim (Bool-cases (leb n k)) [
      | inl b ↦ g k r (go k (ground (arith, b)))
      | inr b ↦ let last : n ≡ suc k = ground (arith, l, b) in ap f (sym last) ∙ e
    ]

module _ (os : Os) (h : Handler) where
  walk_found-more :
      (again again' : Maildir → Run → Option (Maildir × Handled)) (st : Run)
      (x : Found × Maildir × World)
      → ((md : Maildir) (s : Run) (r : Maildir × Handled)
          → again md s ≡ some r
          → again' md s ≡ some r)
      → (r : Maildir × Handled) → walk_found h again st x ≡ some r
      → walk_found h again' st x ≡ some r
  unfolding walk_found
  walk_found-more again again' st (found me, md, w) f r e = go (h md me (record st { world = w })) e
    where
      go :
          (d : Handled)
          → walk_handled (again md) md d ≡ some r
          → walk_handled (again' md) md d ≡ some r
      go (back s) q = f md s r q
      go (died s) q = q
  walk_found-more again again' st (ended, md, w) f r e = e
  walk_found-more again again' st (read_error, md, w) f r e = e
  walk_found-more again again' st (read_crash, md, w) f r e = e
  walk_found-more again again' st (read_exits, md, w) f r e = e

  walk_messages-more :
      (n : ℕ) (md : Maildir) (st : Run) (r : Maildir × Handled)
      → walk_messages os h n md st ≡ some r
      → walk_messages os h (suc n) md st ≡ some r
  unfolding walk_messages
  walk_messages-more zero md st r e = cc
  walk_messages-more (suc n) md st r e =
      walk_found-more (walk_messages os h n) (walk_messages os h (suc n)) st
        (maildir_walk os md st.world) (walk_messages-more n) r e

  abbrev EndsAt : Maildir → Run → Type 0
  EndsAt md st = (n : ℕ) × (r : Maildir × Handled) × (walk_messages os h n md st ≡ some r)

  found-ends :
      (md : Maildir) (st : Run) (x : Found × Maildir × World)
      → Advances md st.world x
      → ((md' : Maildir) (s : Run) → Further md md' → EndsAt md' s)
      → (n : ℕ) × (r : Maildir × Handled) × (walk_found h (walk_messages os h n) st x ≡ some r)
  unfolding walk_found
  found-ends md st (found me, md', w) (_, a) f = go (h md' me (record st { world = w }))
    where
      go :
          (d : Handled)
          → (n : ℕ) × (r : Maildir × Handled) × (walk_handled (walk_messages os h n md') md' d
              ≡ some r)
      go (back s) = f md' s a
      go (died s) = (0, (md', died s), refl)
  found-ends md st (ended, md', w) a f = (0, _, refl)
  found-ends md st (read_error, md', w) a f = (0, _, refl)
  found-ends md st (read_crash, md', w) a f = (0, _, refl)
  found-ends md st (read_exits, md', w) a f = (0, _, refl)

  -- By the entries that are left, and then by what is known of the next directory.
  walk-ends :
      (k : ℕ) (md : Maildir) (st : Run)
      → entries_left md < k
      → (md.subdir ≡ subdir_new
          → (md' : Maildir) (s : Run) → md'.subdir ≡ subdir_cur
          → EndsAt md' s)
      → EndsAt md st
  unfolding walk_messages
  walk-ends zero md st l f = ground (arith, l)
  walk-ends (suc k) md st l f =
      let (n, r, e) =
        found-ends md st _ (maildir_walk-Advances os md st.world) (go (walk-ends k)) in
      (suc n, r, e)
    where
      go :
          ((m : Maildir) (s : Run)
            → entries_left m < k
            → (m.subdir ≡ subdir_new
                → (m' : Maildir) (s : Run) → m'.subdir ≡ subdir_cur
                → EndsAt m' s)
            → EndsAt m s)
          → (md' : Maildir) (s : Run) → Further md md'
          → EndsAt md' s
      go again md' s (inl (a, b)) = again md' s (ground (arith, b, l)) (λ c. f (sym a ∙ c))
      go again md' s (inr (a, b)) = f a md' s b

  -- The loop over the messages of a maildir ends, whatever is done with each message.
  pub walk_messages-Settles : (md : Maildir) (st : Run) → Settles (λ n. walk_messages os h n md st)
  walk_messages-Settles md st =
      let (n, r, e) =
        walk-ends (suc (entries_left md)) md st (ground arith) (λ _ md' s c. cur md' s c) in
      Settles-Grows (λ x. walk_messages os h x md st) (λ x q. walk_messages-more x md st q) n r e
    where
      cur : (md' : Maildir) (s : Run) → md'.subdir ≡ subdir_cur → EndsAt md' s
      cur md' s c =
          walk-ends (suc (entries_left md')) md' s (ground arith) (λ a. ground (arith, a, c))

-- Two loops, one behind the other.
then_run-Settles :
    (f : ℕ → Option Handled) (g : ℕ → Run → Option Handled)
    → Settles f
    → ((st : Run) → Settles (λ n. g n st))
    → Settles (λ n. then_run (g n) (f n))
unfolding then_run
then_run-Settles f g (n, died s, e) h = (n, died s, λ k l. rw (e k l) refl)
then_run-Settles f g (n, back s, e) h =
    let (m, r, q) = h s in (n + m, r, λ k l. rw (e k (ground (arith, l))) (q k (ground (arith, l))))

path_opened-Settles :
    (os : Os) (h : Handler) (st : Run) (x : Opened × World) → Settles (λ n. path_opened os h n st x)
unfolding path_opened path_walked
path_opened-Settles os h st (opened md, w) =
    let (n, r, e) = walk_messages-Settles os h md (record st { world = w }) in
    (n, path_closed os r, λ k l. rw (e k l) refl)
path_opened-Settles os h st (not_opened, w) = (0, _, λ k l. refl)
path_opened-Settles os h st (exits, w) = (0, _, λ k l. refl)
path_opened-Settles os h st (crashes, w) = (0, _, λ k l. refl)

run_path-Settles :
    (os : Os) (env : Env) (h : Handler) (path : Bytes) (st : Run)
    → Settles (λ n. run_path os env h n path st)
unfolding run_path
run_path-Settles os env h path st = elim (Bool-cases (maildir_skip path env)) [
  | inl b ↦ rw (run_path, b) (0, _, λ k l. refl)
  | inr b ↦ rw (run_path, b) (path_opened-Settles os h st _)
]

run_paths-Settles :
    (os : Os) (env : Env) (h : Handler) (paths : List Bytes) (st : Run)
    → Settles (λ n. run_paths os env h n paths st)
unfolding run_paths
run_paths-Settles os env h [] st = (0, _, λ k l. refl)
run_paths-Settles os env h (path ∷ paths) st =
    then_run-Settles _ _ (run_path-Settles os env h path st) (run_paths-Settles os env h paths)

-- For the run over all configurations there are fuel and a result, which is also that of any more fuel.
pub run_configs-Settles :
    {Tm : Type 0} (sys : System Tm) (os : Os) (run : ℕ → List Bytes → Input → ExecStatus)
    (env : Env) (cl : List Config) (st : Run)
    → Settles (λ n. run_configs sys os run env n cl st)
unfolding run_configs
run_configs-Settles sys os run env [] st = (0, _, λ k l. refl)
run_configs-Settles sys os run env (conf ∷ cl) st =
    then_run-Settles _ _
      (run_paths-Settles os env (handle_message sys os run env conf.expr) conf.paths st)
      (run_configs-Settles sys os run env cl)
