-- ===== src/Message/Search.antt =====
-- `searchheader`: a binary search over the headers. The search looks at them only by comparing
-- them with the key, so it is over the answers of that comparison, by index.
pub mod Sorted
use mdsort.Base.{
  ℕ, zero, suc, ◌+◌, ◌-◌, ◌/◌, Bool, true, false, not, Option, none, some, List, [], ◌∷◌, Bytes,
  ltb, leb, ◌==◌, if◌then◌else◌, length, get_elem?, to_lower, compare, Ordering,
}
use mdsort.Message.{Header}

-- The sign of strcasecmp(3).
unfoldable pub casecmp : Bytes → Bytes → Ordering
unfolding to_lower
casecmp [] [] = Ordering.eq
casecmp [] (y ∷ b) = Ordering.lt
casecmp (x ∷ a) [] = Ordering.gt
casecmp (x ∷ a) (y ∷ b) = elim (compare (to_lower x) (to_lower y)) [
  | Ordering.eq ↦ casecmp a b
  | Ordering.lt ↦ Ordering.lt
  | Ordering.gt ↦ Ordering.gt
]

-- `cmpheaderkey` of a key and the header at an index.
unfoldable pub cmp_at : Bytes → List Header → ℕ → Ordering
unfolding casecmp
cmp_at key headers i = elim (get_elem? headers i) [
  | none ↦ Ordering.lt
  | some h ↦ casecmp key h.key
]

abbrev pub is_eq : Ordering → Bool
is_eq o = elim o [ Ordering.eq ↦ true | _ ↦ false ]

module _ (cmp : ℕ → Ordering) where
  -- The first of the matching headers that end at an index.
  unfoldable pub first_match : ℕ → ℕ
  first_match zero = 0
  first_match (suc beg) = let lower = first_match beg in if is_eq (cmp beg) then lower else suc beg

  -- The index behind the last matching header, with `left` indices to go.
  unfoldable pub last_match : ℕ → ℕ → ℕ
  last_match zero end = end
  last_match (suc left) end =
      let upper = last_match left (suc end) in if is_eq (cmp end) then upper else end

  -- The loop with its fuel: the index of the first match and `nfound`; `none` is -1.
  unfoldable pub search_loop : ℕ → ℕ → ℕ → ℕ → Option (ℕ × ℕ)
  unfolding first_match last_match
  search_loop zero nmemb lo hi = none
  search_loop (suc fuel) nmemb lo hi =
      let mi = lo + (hi - lo) / 2 in
      let right = search_loop fuel nmemb (mi + 1) hi in
      let left = search_loop fuel nmemb lo (mi - 1) in
      if not (leb lo hi) then none else elim (cmp mi) [
        | Ordering.eq ↦
            let beg = first_match mi in
            let end = last_match (nmemb - (mi + 1)) (mi + 1) in some (beg, end - beg)
        | Ordering.gt ↦ right
        | Ordering.lt ↦ if ltb 0 mi then left else none
      ]

unfoldable pub searchheader : List Header → Bytes → Option (ℕ × ℕ)
unfolding search_loop cmp_at
searchheader headers key =
    let nmemb = length headers in
    if nmemb == 0 then none else search_loop (cmp_at key headers) nmemb nmemb 0 (nmemb - 1)
