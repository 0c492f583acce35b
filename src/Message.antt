-- ===== src/Message.antt =====
-- message.c: messages, their headers, flags, bodies and attachments.
pub mod Flags
pub mod FlagLaws
pub mod FlagTrip
pub mod FlagUpdates
pub mod Search
pub mod Headers
pub mod Parse
pub mod Attachments
pub mod Body
pub mod File
pub mod Sorting
pub mod BodyKeeps
use mdsort.Base.{ℕ, Bool, Option, none, List, [], Bytes}

-- `struct message_flags`: one bit for each letter, in an unsigned int each.
pub record MessageFlags : Type 0 where
  pub upper : ℕ
  pub lower : ℕ

-- `struct header`; the decoded values that it caches are a function of `val`.
pub record Header : Type 0 where
  pub id : ℕ
  pub key : Bytes
  pub val : Bytes

-- `struct message`. `is_attachment` is MESSAGE_FLAG_ATTACHMENT, `attachments` holds addresses and
-- is `none` until they are parsed, and `fd` is `none` for -1.
pub record Message : Type 0 where
  pub path : Bytes
  pub name : Bytes
  pub body : Bytes
  pub buf_dec : Option Bytes
  pub fd : Option ℕ
  pub is_attachment : Bool
  pub mflags : MessageFlags
  pub headers : List Header
  pub attachments : Option (List ℕ)

abbrev pub zero_flags : MessageFlags
zero_flags = record { upper = 0; lower = 0 }
