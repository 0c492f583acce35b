-- ===== src/Message/BodyKeeps.antt =====
-- Asking for the body of a message changes what is cached of it, and nothing that is written.
use mdsort.Base.{
  ℕ, zero, suc, Option, none, some, List, [], ◌∷◌, ◌++◌, ◌≡◌, refl, arith, codes, get_elem?, set,
  Bool-cases, Option-cases, inl, inr,
}
use mdsort.Message.{Message}
use mdsort.Message.Headers.{message_is_content_type}
use mdsort.Message.Body.{
  Store, get_attachments, message_get_attachments, message_decode_body, favor_text, favored_body,
  favored_of, alternative_body, get_body, message_get_body,
}

-- Two messages that are written alike, in the same file.
abbrev pub Alike : Message → Message → Type 0
Alike a b = (a.name ≡ b.name) × (a.headers ≡ b.headers) × (a.body ≡ b.body)

-- The message at each address of the first store is written like that of the second.
abbrev pub Keeps : Store → Store → Type 0
Keeps [] st = Unit
Keeps (m ∷ ms) [] = ⊥
Keeps (m ∷ ms) (n ∷ ns) = Alike n m × Keeps ms ns

pub Keeps-refl : (st : Store) → Keeps st st
Keeps-refl [] = tt
Keeps-refl (m ∷ st) = ((refl, refl, refl), Keeps-refl st)

pub Keeps-trans : (a b c : Store) → Keeps a b → Keeps b c → Keeps a c
Keeps-trans [] b c p q = tt
Keeps-trans (x ∷ a) [] c p q = absurd p
Keeps-trans (x ∷ a) (y ∷ b) [] p q = absurd q
Keeps-trans (x ∷ a) (y ∷ b) (z ∷ c) p q = (ground (arith, p.0, q.0), Keeps-trans a b c p.1 q.1)

pub Keeps-set :
    (st : Store) (i : ℕ) (m n : Message)
    → get_elem? st i ≡ some m
    → Alike n m
    → Keeps st (set st i n)
Keeps-set [] i m n e a = tt
Keeps-set (x ∷ st) zero m n e a = (ground (arith, e, a), Keeps-refl st)
Keeps-set (x ∷ st) (suc i) m n e a = ((refl, refl, refl), Keeps-set st i m n e a)

Keeps-append : (st st' more : Store) → Keeps st st' → Keeps st (st' ++ more)
Keeps-append [] st' more h = tt
Keeps-append (m ∷ st) [] more h = absurd h
Keeps-append (m ∷ st) (n ∷ st') more h = (h.0, Keeps-append st st' more h.1)

pub Keeps-at :
    (st st' : Store) (i : ℕ) (m : Message)
    → Keeps st st'
    → get_elem? st i ≡ some m
    → (n : Message) × (get_elem? st' i ≡ some n) × Alike n m
Keeps-at [] st' i m h e = cc
Keeps-at (x ∷ st) [] i m h e = absurd h
Keeps-at (x ∷ st) (y ∷ st') zero m h e = (y, refl, ground (arith, e, h.0))
Keeps-at (x ∷ st) (y ∷ st') (suc i) m h e = Keeps-at st st' i m h.1 e

get_attachments-Keeps :
    (i : ℕ) (msg : Message) (st : Store)
    → get_elem? st i ≡ some msg
    → Keeps st ((get_attachments i msg st).1)
unfolding get_attachments
get_attachments-Keeps i msg st e = elim (Option-cases msg.attachments) [
  | inr a ↦ rw (get_attachments, a.1) (Keeps-refl st)
  | inl a ↦
      rw (get_attachments, a) (Keeps-append st _ _ (Keeps-set st i msg _ e (refl, refl, refl)))
]

-- So does asking for its attachments.
pub message_get_attachments-Keeps :
    (i : ℕ) (st : Store) → Keeps st ((message_get_attachments i st).1)
unfolding message_get_attachments
message_get_attachments-Keeps i st = elim (Option-cases (get_elem? st i)) [
  | inl e ↦ rw (message_get_attachments, e) (Keeps-refl st)
  | inr e ↦ rw (message_get_attachments, e.1) (get_attachments-Keeps i e.0 st e.1)
]

message_decode_body-Keeps :
    (i : ℕ) (attachment : Message) (st : Store) → Keeps st ((message_decode_body i attachment st).1)
unfolding message_decode_body
message_decode_body-Keeps i attachment st = elim (Option-cases (get_elem? st i)) [
  | inl e ↦ rw (message_decode_body, e) (Keeps-refl st)
  | inr e ↦ rw (message_decode_body, e.1) (Keeps-set st i e.0 _ e.1 (refl, refl, refl))
]

favored_body-Keeps :
    (i : ℕ) (msg : Message) (st : Store) (f : Option Message)
    → Keeps st ((favored_body i msg st f).1)
unfolding favored_body
favored_body-Keeps i msg st none = Keeps-refl st
favored_body-Keeps i msg st (some f) = message_decode_body-Keeps i f st

favored_of-Keeps :
    (i : ℕ) (msg : Message) (r : Option (List ℕ) × Store) → Keeps r.1 ((favored_of i msg r).1)
unfolding favored_of
favored_of-Keeps i msg (none, st) = Keeps-refl st
favored_of-Keeps i msg (some handles, st) = favored_body-Keeps i msg st (favor_text st none handles)

get_body-Keeps : (i : ℕ) (msg : Message) (st : Store) → Keeps st ((get_body i msg st).1)
unfolding get_body alternative_body
get_body-Keeps i msg st = elim (Option-cases msg.buf_dec) [
  | inr e ↦ rw (get_body, e.1) (Keeps-refl st)
  | inl e ↦ elim (Bool-cases (message_is_content_type msg (codes "multipart/alternative"))) [
    | inl c ↦
        rw (get_body, e, c)
          (Keeps-trans st _ _ (message_get_attachments-Keeps i st)
            (favored_of-Keeps i msg (message_get_attachments i st)))
    | inr c ↦ rw (get_body, e, c) (message_decode_body-Keeps i msg st)
  ]
]

-- Asking for the body of a message leaves every message where it is, and what is written of it.
pub message_get_body-Keeps : (i : ℕ) (st : Store) → Keeps st ((message_get_body i st).1)
unfolding message_get_body
message_get_body-Keeps i st = elim (Option-cases (get_elem? st i)) [
  | inl e ↦ rw (message_get_body, e) (Keeps-refl st)
  | inr e ↦ rw (message_get_body, e.1) (get_body-Keeps i e.0 st)
]
