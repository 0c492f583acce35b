-- ===== src/Message/Sorting.antt =====
-- Sorting headers that are sorted leaves them as they are.
use mdsort.Base.{◌≤◌, List, [], ◌∷◌, ◌≡◌, refl, arith}
use mdsort.Message.{Header}
use mdsort.Message.Headers.{cmpheaderid, insert_header, sort_headers}

abbrev pub IsSorted : List Header → Type 0
IsSorted [] = Unit
IsSorted (h ∷ []) = Unit
IsSorted (h ∷ x ∷ l) = (h.id ≤ x.id) × IsSorted (x ∷ l)

insert-head :
    (h x : Header) (l : List Header) → h.id ≤ x.id → insert_header cmpheaderid h (x ∷ l) ≡ h ∷ x ∷ l
unfolding insert_header cmpheaderid
insert-head h x l e = ground (arith, e)

insert_header-IsSorted :
    (h : Header) (l : List Header) → IsSorted l → IsSorted (insert_header cmpheaderid h l)
unfolding insert_header cmpheaderid
insert_header-IsSorted h [] s = tt
insert_header-IsSorted h (x ∷ []) s = ground arith
insert_header-IsSorted h (x ∷ y ∷ l) s = ground (arith, s, insert_header-IsSorted h (y ∷ l) s.1)

sort_headers-IsSorted : (l : List Header) → IsSorted (sort_headers cmpheaderid l)
unfolding sort_headers
sort_headers-IsSorted [] = tt
sort_headers-IsSorted (h ∷ l) =
    insert_header-IsSorted h (sort_headers cmpheaderid l) (sort_headers-IsSorted l)

sort-IsSorted : (l : List Header) → IsSorted l → sort_headers cmpheaderid l ≡ l
unfolding sort_headers insert_header
sort-IsSorted [] s = refl
sort-IsSorted (h ∷ []) s = refl
sort-IsSorted (h ∷ x ∷ l) s = rw (sort_headers, sort-IsSorted (x ∷ l) s.1) (insert-head h x l s.0)

-- Sorting twice by the order of the message is sorting once.
pub sort_headers-twice :
    (l : List Header)
    → sort_headers cmpheaderid (sort_headers cmpheaderid l) ≡ sort_headers cmpheaderid l
sort_headers-twice l = sort-IsSorted (sort_headers cmpheaderid l) (sort_headers-IsSorted l)
