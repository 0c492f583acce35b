-- ===== src/Eval/Confined/Lists.antt =====
-- Match lists of admitted matches: adding, changing and removing.
use mdsort.Base.{
  ℕ, Bool, not, ◌||◌, ◌==◌, Option, none, some, [], ◌∷◌, ◌++◌, ◌≡◌, refl, subst, ◌∙◌, ◌+◌, Bytes,
  All-append, keep, last?, if◌then◌else◌, Bool-cases, Option-cases, inl, inr,
}
use mathlib.Core.Option
use mdsort.Base.Int.{pos, negsuc}
use mdsort.Util.{pathslice, pathjoin, path_max, name_max}
use mdsort.Expr.{ExprType, type_eq, ex_flags}
use mdsort.Match.{
  Match, MatchList, is_type, matches_find, matches_remove, matches_remove_until,
  matches_remove_by_type, merge_other, matches_merge, infer_maildir, infer_subdir, join_path,
  resolve_path, matches_append, update_match, ◌>>=◌,
}
use mdsort.Eval.Confined.{AllAdmitted}

-- Two matches of the same type on the same message.
abbrev pub SameKind : Match → Match → Type 0
SameKind m n = (n.type ≡ m.type) × (n.msg ≡ m.msg)

module _ (A : ExprType → ℕ → Type 0) where
  pub SameKind-Admits : (m n : Match) → SameKind m n → A m.type m.msg → A n.type n.msg
  SameKind-Admits m n (t, e) a = rw (t, e) a

  pub keep-Admitted :
      (p : Match → Bool) (ml : MatchList) → AllAdmitted A ml → AllAdmitted A (keep p ml)
  keep-Admitted p [] h = tt
  keep-Admitted p (m ∷ ml) h = elim (Bool-cases (p m)) [
    | inl e ↦ rw (e) (h.0, keep-Admitted p ml h.1)
    | inr e ↦ rw (e) (keep-Admitted p ml h.1)
  ]

  pub remove-Admitted :
      (id : ℕ) (ml : MatchList) → AllAdmitted A ml → AllAdmitted A (matches_remove ml id)
  unfolding matches_remove
  remove-Admitted id ml h = keep-Admitted (λ m. not (m.id == id)) ml h

  pub remove_until-Admitted :
      (id : ℕ) (ml : MatchList) → AllAdmitted A ml → AllAdmitted A (matches_remove_until ml id)
  unfolding matches_remove_until
  remove_until-Admitted id [] h = tt
  remove_until-Admitted id (m ∷ ml) h =
      go (matches_remove_until ml id) (remove_until-Admitted id ml h.1)
    where
      go :
          (l : MatchList)
          → AllAdmitted A l
          → AllAdmitted A (elim l [ [] ↦ if m.id == id then m ∷ [] else [] | y ∷ ys ↦ m ∷ y ∷ ys ])
      go [] k = elim (Bool-cases (m.id == id)) [ inl e ↦ rw (e) (h.0, tt) | inr e ↦ rw (e) tt ]
      go (y ∷ ys) k = (h.0, k)

  pub remove_by_type-Admitted :
      (ml : MatchList) (t : ExprType)
      → AllAdmitted A ml
      → AllAdmitted A (matches_remove_by_type ml t).0
  unfolding matches_remove_by_type
  remove_by_type-Admitted [] t h = tt
  remove_by_type-Admitted (m ∷ ml) t h = elim (Bool-cases (is_type t m)) [
    | inl e ↦ rw (matches_remove_by_type, e) (remove_by_type-Admitted ml t h.1)
    | inr e ↦ rw (matches_remove_by_type, e) (h.0, remove_by_type-Admitted ml t h.1)
  ]

  pub update-Admitted :
      (id : ℕ) (f : Match → Match) (ml : MatchList)
      → ((m : Match) → SameKind m (f m))
      → AllAdmitted A ml
      → AllAdmitted A (update_match id f ml)
  unfolding update_match
  update-Admitted id f [] k h = tt
  update-Admitted id f (m ∷ ml) k h = elim (Bool-cases (m.id == id)) [
    | inl e ↦ rw (e) (SameKind-Admits m (f m) (k m) h.0, update-Admitted id f ml k h.1)
    | inr e ↦ rw (e) (h.0, update-Admitted id f ml k h.1)
  ]

  -- A list and a new match, of the kind of another.
  abbrev Merged : Match → MatchList × Match → Type 0
  Merged mh r = AllAdmitted A r.0 × SameKind mh r.1

  merge_other-Merged :
      (ml : MatchList) (mh : Match) → AllAdmitted A ml → Merged mh (merge_other ml mh)
  unfolding merge_other
  merge_other-Merged ml mh h =
      go (matches_find ml (if is_type ExprType.move mh then ExprType.flag else ExprType.move))
    where
      go :
          (o : Option Match)
          → Merged mh (elim o [
            | none ↦ (ml, mh)
            | some dup ↦ (
              matches_remove ml dup.id,
              if is_type ExprType.move mh
                  then record mh { subdir = dup.subdir }
                  else record mh { maildir = dup.maildir },
            )
          ])
      go none = (h, (refl, refl))
      go (some dup) = elim (Bool-cases (is_type ExprType.move mh)) [
        | inl e ↦ rw (e) (remove-Admitted dup.id ml h, (refl, refl))
        | inr e ↦ rw (e) (remove-Admitted dup.id ml h, (refl, refl))
      ]

  merge-Merged : (ml : MatchList) (mh : Match) → AllAdmitted A ml → Merged mh (matches_merge ml mh)
  unfolding matches_merge
  merge-Merged ml mh h = elim (Bool-cases (is_type ExprType.move mh || is_type ExprType.flag mh)) [
    | inr e ↦ rw (matches_merge, e) (h, (refl, refl))
    | inl e ↦ elim (Option-cases (last? ml)) [
      | inl l ↦ rw (matches_merge, e, l) (merge_other-Merged ml mh h)
      | inr l ↦ elim (Bool-cases (type_eq l.0.type mh.type)) [
        | inl t ↦ rw (matches_merge, e, l.1, t) (remove-Admitted l.0.id ml h, (refl, refl))
        | inr t ↦ rw (matches_merge, e, l.1, t) (merge_other-Merged ml mh h)
      ]
    ]
  ]

  -- A destination that was found changes no type and no message.
  abbrev Resolved : Match → Option Match → Type 0
  Resolved mh none = Unit
  Resolved mh (some n) = SameKind mh n

  join-Resolved : (mh m : Match) → SameKind mh m → Resolved mh (join_path m)
  unfolding join_path
  join-Resolved mh m k = elim (Option-cases (pathjoin path_max m.maildir m.subdir)) [
    | inl e ↦ rw (join_path, e) tt
    | inr e ↦ rw (join_path, e.1) k
  ]

  infer_maildir-Resolved :
      (path : Bytes) (mh m : Match) → SameKind mh m → Resolved mh (infer_maildir path m)
  unfolding infer_maildir
  infer_maildir-Resolved path mh m k = go m.maildir
    where
      go :
          (d : Bytes)
          → Resolved mh (elim d [
            | [] ↦
                Option.map
                  (λ p. record m { maildir = p })
                  (pathslice path path_max (pos 0) (negsuc 1))
            | c ∷ s ↦ some m
          ])
      go (c ∷ s) = k
      go [] = elim (Option-cases (pathslice path path_max (pos 0) (negsuc 1))) [
        | inl e ↦ rw (e) tt
        | inr e ↦ rw (e.1) k
      ]

  infer_subdir-Resolved :
      (path : Bytes) (mh m : Match) → SameKind mh m → Resolved mh (infer_subdir path m)
  unfolding infer_subdir
  infer_subdir-Resolved path mh m k = go m.subdir
    where
      go :
          (d : Bytes)
          → Resolved mh (elim d [
            | [] ↦
                Option.map
                  (λ p. record m { subdir = p })
                  (pathslice path (name_max + 1) (negsuc 1) (negsuc 1))
            | c ∷ s ↦ some m
          ])
      go (c ∷ s) = k
      go [] = elim (Option-cases (pathslice path (name_max + 1) (negsuc 1) (negsuc 1))) [
        | inl e ↦ rw (e) tt
        | inr e ↦ rw (e.1) k
      ]

  resolve-Resolved : (path : Bytes) (mh : Match) → Resolved mh (resolve_path path mh)
  unfolding resolve_path
  resolve-Resolved path mh =
      go (infer_maildir path mh) (infer_maildir-Resolved path mh mh (refl, refl))
    where
      subdir : (o : Option Match) → Resolved mh o → Resolved mh (do b ← o; join_path b)
      subdir none k = tt
      subdir (some b) k = join-Resolved mh b k

      go :
          (o : Option Match)
          → Resolved mh o
          → Resolved mh (do a ← o; b ← infer_subdir path a; join_path b)
      go none k = tt
      go (some a) k = subdir (infer_subdir path a) (infer_subdir-Resolved path mh a k)

  pub append-Admitted :
      (path : Bytes) (ml : MatchList) (mh : Match)
      → AllAdmitted A ml
      → A mh.type mh.msg
      → AllAdmitted A (matches_append path ml mh).1
  unfolding matches_append
  append-Admitted path ml mh h a =
      elim (Bool-cases (ex_flags (matches_merge ml mh).1.type).is_path) [
        | inr e ↦ rw (matches_append, e) (behind (matches_merge ml mh).1 merged.1)
        | inl e ↦ elim (Option-cases (resolve_path path (matches_merge ml mh).1)) [
          | inl o ↦ rw (matches_append, e, o) (behind (matches_merge ml mh).1 merged.1)
          | inr o ↦ rw (matches_append, e, o.1) (behind o.0 (found o.0 o.1))
        ]
      ]
    where
      merged : Merged mh (matches_merge ml mh)
      merged = merge-Merged ml mh h

      behind : (n : Match) → SameKind mh n → AllAdmitted A ((matches_merge ml mh).0 ++ n ∷ [])
      behind n k =
          All-append (λ m. A m.type m.msg) (matches_merge ml mh).0 (n ∷ [])
            (merged.0, (SameKind-Admits mh n k a, tt))

      found : (n : Match) → resolve_path path (matches_merge ml mh).1 ≡ some n → SameKind mh n
      found n e =
          let resolved =
            subst (Resolved (matches_merge ml mh).1) e
              (resolve-Resolved path (matches_merge ml mh).1) in
          (resolved.0 ∙ merged.1.0, resolved.1 ∙ merged.1.1)
