-- ===== src/Message/Search/Sorted.antt =====
-- The binary search on headers that are sorted around the key.
use mdsort.Base.{
  ℕ, zero, suc, ◌+◌, ◌-◌, ◌/◌, ◌≤◌, ◌<◌, Option, none, some, List, ◌≡◌, arith, Bytes, ltb, leb,
  if◌then◌else◌, length, Ordering, ◌⊎◌, Bool-cases, inl, inr,
}
use mdsort.Message.{Header}
use mdsort.Message.Search.{cmp_at, first_match, last_match, search_loop, searchheader}

-- Of `nmemb` headers the key is above those before index `a`, equal to those from `a` to `b`, and
-- below those from `b` on.
pub record Around (cmp : ℕ → Ordering) (nmemb a b : ℕ) : Type 0 where
  pub ordered : (a ≤ b) × (b ≤ nmemb)
  pub above : (i : ℕ) → i < a → cmp i ≡ Ordering.gt
  pub equal : (i : ℕ) → a ≤ i → i < b → cmp i ≡ Ordering.eq
  pub below : (i : ℕ) → b ≤ i → i < nmemb → cmp i ≡ Ordering.lt

-- The range of the equal headers, if there is one.
abbrev pub range : ℕ → ℕ → Option (ℕ × ℕ)
range a b = if ltb a b then some (a, b - a) else none

module _ (cmp : ℕ → Ordering) (nmemb a b : ℕ) (around : Around cmp nmemb a b) where
  side :
      (i : ℕ)
      → i < nmemb
      → ((i < a) × (cmp i ≡ Ordering.gt))
        ⊎ (((a ≤ i) × (i < b)) × (cmp i ≡ Ordering.eq))
        ⊎ ((b ≤ i) × (cmp i ≡ Ordering.lt))
  side i h = ground (arith, around.above i, around.equal i, around.below i)

  first_match_lem : (m : ℕ) → a ≤ m → m ≤ b → first_match cmp m ≡ a
  unfolding first_match
  first_match_lem zero h k = omega arith
  first_match_lem (suc m) h k = ground (arith, around.above m, around.equal m, first_match_lem m)

  last_match_lem :
      (left end : ℕ) → a ≤ end → end ≤ b → left + end ≡ nmemb → last_match cmp left end ≡ b
  unfolding last_match
  last_match_lem zero end h k e = let o = around.ordered in omega (arith, o)
  last_match_lem (suc left) end h k e =
      ground
        (arith, around.below end, around.equal end, around.ordered, last_match_lem left (suc end))

  search_loop_lem :
      (fuel lo hi : ℕ)
      → lo ≤ a
      → b ≤ hi + 1
      → hi < nmemb
      → hi + 1 ≤ lo + fuel
      → search_loop cmp fuel nmemb lo hi ≡ range a b
  unfolding search_loop
  search_loop_lem zero lo hi p q r f = ground (arith, around.ordered)
  search_loop_lem (suc fuel) lo hi p q r f = elim (Bool-cases (leb lo hi)) [
    | inr e ↦ ground (arith, e, around.ordered)
    | inl e ↦
        let mi = lo + (hi - lo) / 2 in
        let low : lo ≤ mi = omega arith in
        let high : mi ≤ hi = ground (arith, e) in
        elim (side mi (omega arith)) [
          | inl (before, more) ↦
              rw (search_loop, e, more)
                (search_loop_lem fuel (mi + 1) hi (omega arith) q r (omega arith))
          | inr (inl (inside, same)) ↦
              rw
                (
                  search_loop,
                  e,
                  same,
                  first_match_lem mi (omega arith) (omega arith),
                  last_match_lem (nmemb - (mi + 1)) (mi + 1) (omega arith) (omega arith)
                      (omega arith),
                )
                (ground arith)
          | inr (inr (behind, less)) ↦
              let left = search_loop_lem fuel lo (mi - 1) p in
              rw (search_loop, e, less) (ground (arith, left, behind, around.ordered))
        ]
  ]

-- If the headers are sorted around the key, `searchheader` finds exactly the range of those that are
-- equal to it, and nothing if there are none.
pub searchheader-Around :
    (headers : List Header) (key : Bytes) (a b : ℕ)
    → Around (cmp_at key headers) (length headers) a b
    → searchheader headers key ≡ range a b
unfolding searchheader
searchheader-Around headers key a b around =
    let n = length headers in
    let loop = search_loop_lem (cmp_at key headers) n a b around n 0 (n - 1) (omega arith) in
    let o = around.ordered in ground (arith, loop, o)
