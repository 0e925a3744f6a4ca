-- ===== src/Mail.antt =====
-- client/src/lib/mail.c: references of mails, and whom a reply goes to.
pub mod References
pub mod Send
pub mod Read
pub mod Lists
pub mod Saved
pub mod Find
use shyake.Base.{
  ℕ, Bool, true, false, not, ◌&&◌, Bytes, [], ◌∷◌, Option, none, some, ◌>>=◌, ◌>>◌, require, codes,
  length, take, equal, is_empty, ◌==◌, if◌then◌else◌,
}
use shyake.Base.Hex.{hex}
use shyake.Base.Integer.{ℤ}
use shyake.Context.{Ctx}
use shyake.Crypto.Seal.{decrypt_from_b64}
use shyake.Network.{Json}
use shyake.Client.{Libs}

-- `strchr(chars, c)`
unfoldable pub is_one_of : Bytes → ℕ → Bool
is_one_of [] c = false
is_one_of (d ∷ chars) c = let rest = is_one_of chars c in if c == d then true else rest

-- The loop of `is_ref`.
unfoldable pub all_hex : Bytes → Bool
all_hex [] = true
all_hex (c ∷ s) =
    let rest = all_hex s in if is_one_of (codes "0123456789abcdef") c then rest else false

-- `is_ref`, for a string that is there.
unfoldable pub is_ref : Bytes → Bool
is_ref s = length s == 64 && all_hex s

-- `shyake_mail_detail`; `created` is 0 but for a draft.
pub record Detail : Type 0 where
  pub mail_id : Bytes
  pub sender : Bytes
  pub recipient : Option Bytes
  pub subject : Option Bytes
  pub body : Option Bytes
  pub timestamp : ℤ
  pub created : ℤ
  pub size : ℤ
  pub mail_ref : Option Bytes
  pub reply_ref : Option Bytes

-- `shyake_reply_recipient`, for a context with a user.
unfoldable pub reply_recipient : Bytes → Detail → Option Bytes
reply_recipient username d =
    d.recipient >>= λ recipient. some (if equal d.sender username then recipient else d.sender)

module _ (L : Libs) where
  -- `sig_ref`
  unfoldable pub sig_ref : Bytes → Bytes
  sig_ref signature = hex (take 32 (L.sha256 signature))

  -- `json_ref`
  unfoldable pub json_ref : L.json.Value → Option Bytes
  json_ref json = do
    sig ← L.json.item json (codes "signature")
    signature ← L.json.string sig
    some (sig_ref signature)

  -- `open_reply_ref`
  unfoldable pub open_reply_ref : Bytes → L.json.Value → Option Bytes
  open_reply_ref sym json = do
    e ← L.json.item json (codes "enc_reply_to")
    sealed ← L.json.string e
    require (not (is_empty sealed))
    reference ← decrypt_from_b64 L.evp L.blocks sym sealed
    require (is_ref reference)
    some reference
