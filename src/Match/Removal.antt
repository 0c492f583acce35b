-- ===== src/Match/Removal.antt =====
-- Removing and updating a match whose address is fresh: the rest of the list is not touched.
use mdsort.Base.{ℕ, suc, ◌≤◌, ◌<◌, List, [], ◌∷◌, ◌++◌, ◌≡◌, refl, arith, All}
use mdsort.Match.{Match, MatchList, matches_remove, matches_remove_until, update_match}

-- All addresses lie below a bound, or from a bound on.
abbrev pub Below : ℕ → MatchList → Type 0
Below n ml = All (λ m. m.id < n) ml

abbrev pub From : ℕ → MatchList → Type 0
From n ml = All (λ m. n ≤ m.id) ml

pub remove-Below : (id : ℕ) (ml : MatchList) → Below id ml → matches_remove ml id ≡ ml
unfolding matches_remove
remove-Below id [] h = refl
remove-Below id (m ∷ ml) h = ground (arith, remove-Below id ml h.1)

pub remove-From : (id : ℕ) (ml : MatchList) → From (suc id) ml → matches_remove ml id ≡ ml
unfolding matches_remove
remove-From id [] h = refl
remove-From id (m ∷ ml) h = ground (arith, remove-From id ml h.1)

-- The match at an address goes, and what stands before it and behind it stays.
pub remove_middle :
    (ml : MatchList) (m : Match) (new : MatchList)
    → Below m.id ml
    → From (suc m.id) new
    → matches_remove (ml ++ (m ∷ new)) m.id ≡ ml ++ new
unfolding matches_remove
remove_middle [] m new h k = ground (arith, remove-From m.id new k)
remove_middle (x ∷ ml) m new h k = ground (arith, remove_middle ml m new h.1 k)

remove_until-From :
    (id : ℕ) (new : MatchList) → From (suc id) new → matches_remove_until new id ≡ []
unfolding matches_remove_until
remove_until-From id [] k = refl
remove_until-From id (x ∷ new) k = rw (remove_until-From id new k.1) (ground arith)

append_cons {ℓ} :
    {A : Type ℓ} (xs : List A) (a : A) → (x : A) × (ys : List A) × (xs ++ a ∷ [] ≡ x ∷ ys)
append_cons [] a = (a, [], refl)
append_cons (x ∷ xs) a = (x, xs ++ a ∷ [], refl)

-- What stands up to the match at an address is left.
pub remove_until_middle :
    (ml : MatchList) (m : Match) (new : MatchList)
    → From (suc m.id) new
    → matches_remove_until (ml ++ (m ∷ new)) m.id ≡ ml ++ m ∷ []
unfolding matches_remove_until
remove_until_middle [] m new k = rw (remove_until-From m.id new k) (ground arith)
remove_until_middle (x ∷ ml) m new k =
    let (y, ys, e) = append_cons ml m in ground (arith, remove_until_middle ml m new k, e)

-- An update at the address of the last match.
pub update_last :
    (f : Match → Match) (ml : MatchList) (m : Match)
    → Below m.id ml
    → update_match m.id f (ml ++ m ∷ []) ≡ ml ++ f m ∷ []
unfolding update_match
update_last f [] m h = ground arith
update_last f (x ∷ ml) m h = ground (arith, update_last f ml m h.1)
