-- ===== src/Maildir/Files.antt =====
-- What the calls of the system leave of a file.
use mdsort.Base.{
  ℕ, Bool, true, false, ◌&&◌, Option, none, some, [], ◌≡◌, ◌≢◌, refl, sym, arith, Bytes,
  if◌then◌else◌, bytes_eq_iff, bytes_eq_refl, Bool-cases, inl, inr, ◌⊎◌,
}
use mdsort.Message.{Message}
use mdsort.Message.File.{message_set_file}
use mdsort.Maildir.{Answer, success, cross_device, failure, Os, World}
use mdsort.Maildir.Calls.{
  same_file, put_file, store_file, created, create_as, create, unlink_as, unlink, renamed,
  rename_as, rename, write_as, write,
}

-- A file has this content.
abbrev pub Has : Bytes → Bytes → Bytes → World → Type 0
Has dir name text w = w.files dir name ≡ some text

-- Two files are different ones.
abbrev pub Apart : Bytes → Bytes → Bytes → Bytes → Type 0
Apart dir name dir' name' = same_file dir name dir' name' ≡ false

pub same_file_iff : (d n d' n' : Bytes) → same_file d n d' n' ≡ true → (d ≡ d') × (n ≡ n')
unfolding same_file
same_file_iff d n d' n' h =
    let both = split _ _ h in ((bytes_eq_iff d d').0 both.0, (bytes_eq_iff n n').0 both.1)
  where
    split : (a b : Bool) → (a && b) ≡ true → (a ≡ true) × (b ≡ true)
    split a b e = ground (arith, e)

pub same_file_refl : (d n : Bytes) → same_file d n d n ≡ true
unfolding same_file
same_file_refl d n = rw (bytes_eq_refl d, bytes_eq_refl n) refl

-- A file that is there and one that is not are different.
pub Apart-missing :
    (w : World) (d n t d' n' : Bytes) → Has d n t w → w.files d' n' ≡ none → Apart d' n' d n
Apart-missing w d n t d' n' h k = elim (Bool-cases (same_file d' n' d n)) [
  | inr e ↦ e
  | inl e ↦ let (a, b) = same_file_iff d' n' d n e in absurd (clash (w.files d' n') k (rw (a, b) h))
]
  where
    clash : (o : Option Bytes) → o ≡ none → o ≡ some t → ⊥
    clash none p q = cc
    clash (some x) p q = cc

pub Apart-sym : (d n d' n' : Bytes) → Apart d n d' n' → Apart d' n' d n
Apart-sym d n d' n' h = elim (Bool-cases (same_file d' n' d n)) [
  | inr e ↦ e
  | inl e ↦
      let (a, b) = same_file_iff d' n' d n e in
      absurd (clash (rw (sym a, sym b) at h) (same_file_refl d' n'))
]
  where
    clash : same_file d' n' d' n' ≡ false → same_file d' n' d' n' ≡ true → ⊥
    clash p q = ground (arith, p, q)

-- Storing into another file, and into this one.
pub store-other :
    (w : World) (d n t dir name : Bytes) (content : Option Bytes)
    → Apart dir name d n
    → Has d n t w
    → Has d n t (store_file dir name content w)
unfolding put_file
store-other w d n t dir name content a h = ground (arith, a, h)

pub store-same :
    (w : World) (dir name text : Bytes) → Has dir name text (store_file dir name (some text) w)
unfolding put_file
store-same w dir name text = rw (same_file_refl dir name) refl

-- What `message_set_file` leaves alone, and the name that it sets.
pub message_set_file_lem :
    (msg msg' : Message) (dir name : Bytes) (fd : Option ℕ)
    → message_set_file msg dir name fd ≡ some msg'
    → (msg'.name ≡ name) × (msg'.headers ≡ msg.headers) × (msg'.body ≡ msg.body)
unfolding message_set_file
message_set_file_lem msg msg' dir name none e = ground (arith, e)
message_set_file_lem msg msg' dir name (some k) e = ground (arith, e)

pub if-cases :
    {A : Type 0} (b : Bool) (P : A → Type 0) {x y : A} → P x → P y → P (if b then x else y)
if-cases true P p q = p
if-cases false P p q = q

-- The file that is watched.
module _ (os : Os) (d n t : Bytes) where
  -- An exclusive creation keeps every file, and makes a new one.
  pub create-Has :
      (dir name : Bytes) (w : World) → Has d n t w → Has d n t ((create os dir name w).1)
  unfolding create
  create-Has dir name w h = go (os.answer w.calls) (w.files dir name) refl
    where
      go :
          (a : Answer) (o : Option Bytes)
          → w.files dir name ≡ o
          → Has d n t ((create_as a o dir name w).1)
      go success none e =
          unfold create_as in
          store-other w d n t dir name (some []) (Apart-missing w d n t dir name h e) h
      go success (some x) e = unfold create_as in h
      go cross_device o e = unfold create_as in h
      go failure o e = unfold create_as in h

  pub create-Apart :
      (dir name : Bytes) (w : World)
      → Has d n t w
      → (create os dir name w).0 ≡ created
      → Apart dir name d n
  unfolding create
  create-Apart dir name w h c = go (os.answer w.calls) (w.files dir name) refl c
    where
      go :
          (a : Answer) (o : Option Bytes)
          → w.files dir name ≡ o
          → (create_as a o dir name w).0 ≡ created
          → Apart dir name d n
      go success none e k = Apart-missing w d n t dir name h e
      go success (some x) e k = unfold create_as in cc
      go cross_device o e k = unfold create_as in cc
      go failure o e k = unfold create_as in cc

  pub unlink-Has :
      (dir name : Bytes) (w : World)
      → Apart dir name d n
      → Has d n t w
      → Has d n t ((unlink os dir name w).1)
  unfolding unlink
  unlink-Has dir name w a h = go (os.answer w.calls) (w.files dir name)
    where
      go : (x : Answer) (o : Option Bytes) → Has d n t ((unlink_as x o dir name w).1)
      go success none = unfold unlink_as in h
      go success (some x) = unfold unlink_as in store-other w d n t dir name none a h
      go cross_device o = unfold unlink_as in h
      go failure o = unfold unlink_as in h

  pub write-Has :
      (text dir name : Bytes) (w : World)
      → Apart dir name d n
      → Has d n t w
      → Has d n t ((write os text dir name w).1)
  unfolding write
  write-Has text dir name w a h = go (os.answer w.calls) (os.damaged w.calls text)
    where
      go : (x : Answer) (y : Bytes) → Has d n t ((write_as x text y dir name w).1)
      go success y = unfold write_as in store-other w d n t dir name (some text) a h
      go cross_device y = unfold write_as in store-other w d n t dir name (some y) a h
      go failure y = unfold write_as in store-other w d n t dir name (some y) a h

  pub rename-Has :
      (dir name dir' name' : Bytes) (w : World)
      → Apart dir name d n
      → Apart dir' name' d n
      → Has d n t w
      → Has d n t ((rename os dir name dir' name' w).1)
  unfolding rename
  rename-Has dir name dir' name' w a b h = go (os.answer w.calls) (w.files dir name)
    where
      go : (x : Answer) (o : Option Bytes) → Has d n t ((rename_as x o dir name dir' name' w).1)
      go success none = unfold rename_as in h
      go success (some x) = unfold rename_as put_file in ground (arith, a, b, h)
      go cross_device o = unfold rename_as in h
      go failure o = unfold rename_as in h

-- The results of the calls on their own files.
module _ (os : Os) where
  pub unlink-failed :
      (dir name d n t : Bytes) (w : World)
      → (unlink os dir name w).0 ≡ true
      → Has d n t w
      → Has d n t ((unlink os dir name w).1)
  unfolding unlink
  unlink-failed dir name d n t w e h = go (os.answer w.calls) (w.files dir name) e
    where
      go :
          (x : Answer) (o : Option Bytes)
          → (unlink_as x o dir name w).0 ≡ true
          → Has d n t ((unlink_as x o dir name w).1)
      go success none k = unfold unlink_as in h
      go success (some x) k = unfold unlink_as in cc
      go cross_device o k = unfold unlink_as in h
      go failure o k = unfold unlink_as in h

  pub unlink-gone :
      (dir name : Bytes) (w : World)
      → (unlink os dir name w).0 ≡ false
      → (unlink os dir name w).1.files dir name ≡ none
  unfolding unlink
  unlink-gone dir name w e = go (os.answer w.calls) (w.files dir name) e
    where
      go :
          (x : Answer) (o : Option Bytes)
          → (unlink_as x o dir name w).0 ≡ false
          → (unlink_as x o dir name w).1.files dir name ≡ none
      go success none k = unfold unlink_as in cc
      go success (some x) k = unfold unlink_as put_file in rw (same_file_refl dir name) refl
      go cross_device o k = unfold unlink_as in cc
      go failure o k = unfold unlink_as in cc

  pub write-done :
      (text dir name : Bytes) (w : World)
      → (write os text dir name w).0 ≡ false
      → Has dir name text ((write os text dir name w).1)
  unfolding write
  write-done text dir name w e = go (os.answer w.calls) (os.damaged w.calls text) e
    where
      go :
          (x : Answer) (y : Bytes)
          → (write_as x text y dir name w).0 ≡ false
          → Has dir name text ((write_as x text y dir name w).1)
      go success y k = unfold write_as in store-same w dir name text
      go cross_device y k = unfold write_as in cc
      go failure y k = unfold write_as in cc

  -- A file that is renamed has its content under the new name only; otherwise nothing has changed.
  pub rename-result :
      (dir name dir' name' t : Bytes) (w : World)
      → Apart dir' name' dir name
      → Has dir name t w
      → (((rename os dir name dir' name' w).0 ≡ renamed)
          × Has dir' name' t ((rename os dir name dir' name' w).1)
          × ((rename os dir name dir' name' w).1.files dir name ≡ none))
        ⊎ (((rename os dir name dir' name' w).0 ≢ renamed)
            × Has dir name t ((rename os dir name dir' name' w).1))
  unfolding rename
  rename-result dir name dir' name' t w a h = go (os.answer w.calls) (w.files dir name) h
    where
      go :
          (x : Answer) (o : Option Bytes)
          → o ≡ some t
          → (((rename_as x o dir name dir' name' w).0 ≡ renamed)
              × Has dir' name' t ((rename_as x o dir name dir' name' w).1)
              × ((rename_as x o dir name dir' name' w).1.files dir name ≡ none))
            ⊎ (((rename_as x o dir name dir' name' w).0 ≢ renamed)
                × Has dir name t ((rename_as x o dir name dir' name' w).1))
      go success none k = cc
      go success (some y) k =
          unfold rename_as put_file in
          inl (refl, rw (same_file_refl dir' name') k, rw (a, same_file_refl dir name) refl)
      go cross_device o k = unfold rename_as in inr (λ q. cc, h)
      go failure o k = unfold rename_as in inr (λ q. cc, h)
