-- ===== src/Exec/Reading.antt =====
-- What a command reads is made without changing a file, and without changing what is written of a
-- message.
use mdsort.Base.{
  ℕ, zero, suc, Bool, true, false, Option, none, some, [], ◌∷◌, ◌≡◌, refl, ap, ◌∙◌, arith, Bytes,
  get_elem?, set,
}
use mdsort.Message.{Message}
use mdsort.Message.File.{message_write}
use mdsort.Message.Body.{Store, message_get_body}
use mdsort.Message.BodyKeeps.{message_get_body-Keeps, Keeps-at}
use mdsort.Maildir.{Os, World}
use mdsort.Maildir.Calls.{call}
use mdsort.Maildir.Files.{if-cases}
use mdsort.Maildir.Looks.{message_write_same, message_write_again}
use mdsort.Exec.{Input, of_text, of_file, fd_seeked, fd_made, fd_of_body, fd_of_attachment, get_fd}

-- The message at an address has the same name, and is written in the same way.
abbrev pub Kept : ℕ → Message → Store → Type 0
Kept i m st =
    (n : Message) × (get_elem? st i ≡ some n)
    × (n.name ≡ m.name)
    × ((message_write n).0 ≡ (message_write m).0)

pub Kept-here : (i : ℕ) (m : Message) (st : Store) → get_elem? st i ≡ some m → Kept i m st
Kept-here i m st e = (m, e, refl, refl)

pub get_set :
    (st : Store) (i j : ℕ) (m n : Message)
    → j ≡ i
    → get_elem? st i ≡ some m
    → get_elem? (set st j n) i ≡ some n
get_set [] i j m n p e = cc
get_set (x ∷ st) zero zero m n p e = refl
get_set (x ∷ st) zero (suc j) m n p e = ground (arith, p)
get_set (x ∷ st) (suc i) zero m n p e = ground (arith, p)
get_set (x ∷ st) (suc i) (suc j) m n p e = get_set st i j m n (ground (arith, p)) e

Kept-set :
    (st : Store) (i j : ℕ) (m msg n : Message)
    → get_elem? st i ≡ some m
    → get_elem? st j ≡ some msg
    → n.name ≡ msg.name
    → (message_write n).0 ≡ (message_write msg).0
    → Kept i m (set st j n)
Kept-set [] i j m msg n e f a b = cc
Kept-set (x ∷ st) zero zero m msg n e f a b =
    let same : msg ≡ m = cc in
    (n, refl, a ∙ ap (λ x. x.name) same, b ∙ ap (λ x. (message_write x).0) same)
Kept-set (x ∷ st) zero (suc j) m msg n e f a b = Kept-here zero m (x ∷ set st j n) e
Kept-set (x ∷ st) (suc i) zero m msg n e f a b = Kept-here (suc i) m (n ∷ st) e
Kept-set (x ∷ st) (suc i) (suc j) m msg n e f a b = Kept-set st i j m msg n e f a b

Kept-body :
    (i j : ℕ) (m : Message) (st : Store)
    → get_elem? st i ≡ some m
    → Kept i m ((message_get_body j st).1)
Kept-body i j m st e =
    let (n, f, (a, h, b)) = Keeps-at st _ i m (message_get_body-Keeps j st) e in
    (n, f, a, message_write_same n m h b)

-- The message at an address is kept, and so is every file.
abbrev pub Reads : ℕ → Message → World → Option Input × Store × World → Type 0
Reads i m w (input, st, w') = Kept i m st × (w'.files ≡ w.files)

fd_made-Reads :
    (os : Os) (i : ℕ) (m : Message) (w : World) (input : Input) (st : Store) (p : Bool × World)
    → Kept i m st
    → p.1.files ≡ w.files
    → Reads i m w (fd_made os input st p)
unfolding fd_made call
fd_made-Reads os i m w input st (true, w') k e = (k, e)
fd_made-Reads os i m w input st (false, w') k e = go (call os w') e
  where
    go : (p : Bool × World) → p.1.files ≡ w.files → Reads i m w (fd_seeked input st p)
    go (true, v) f = (k, f)
    go (false, v) f = (k, f)

fd_of_body-Reads :
    (os : Os) (i : ℕ) (m : Message) (w : World) (p : Option Bytes × Store)
    → Kept i m p.1
    → Reads i m w (fd_of_body os p w)
unfolding fd_of_body call
fd_of_body-Reads os i m w (none, st) k = (k, refl)
fd_of_body-Reads os i m w (some body, st) k =
    fd_made-Reads os i m w (of_text body) st (call os w) k refl

fd_of_attachment-Reads :
    (os : Os) (i j : ℕ) (m msg : Message) (st : Store) (w : World) (p : Bool × World)
    → get_elem? st i ≡ some m
    → get_elem? st j ≡ some msg
    → p.1.files ≡ w.files
    → Reads i m w (fd_of_attachment os j msg st p)
unfolding fd_of_attachment call
fd_of_attachment-Reads os i j m msg st w (true, w') e f g = (Kept-here i m st e, g)
fd_of_attachment-Reads os i j m msg st w (false, w') e f g =
    fd_made-Reads os i m w (of_text ((message_write msg).0)) _ (call os w')
      (Kept-set st i j m msg ((message_write msg).1) e f (unfold message_write in refl)
        (message_write_again msg))
      g

pub get_fd-Reads :
    (os : Os) (skipheaders : Bool) (i j : ℕ) (m msg : Message) (st : Store) (w : World)
    → get_elem? st i ≡ some m
    → get_elem? st j ≡ some msg
    → Reads i m w (get_fd os skipheaders j msg st w)
unfolding get_fd call
get_fd-Reads os true i j m msg st w e f = fd_of_body-Reads os i m w _ (Kept-body i j m st e)
get_fd-Reads os false i j m msg st w e f =
    if-cases msg.is_attachment (Reads i m w)
      (fd_of_attachment-Reads os i j m msg st w (call os w) e f refl) (of_descriptor msg.fd)
  where
    of_descriptor :
        (fd : Option ℕ)
        → Reads i m w
            (elim fd [ none ↦ (none, st, w) | some k ↦ fd_made os (of_file k) st (call os w) ])
    of_descriptor none = (Kept-here i m st e, refl)
    of_descriptor (some k) =
        fd_made-Reads os i m w (of_file k) st (call os w) (Kept-here i m st e) refl
