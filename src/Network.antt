-- ===== src/Network.antt =====
-- client/src/lib/network.c: what the client makes of the instance's answers. libcurl's transfers and
-- the vendored cJSON are parameters.
pub mod Objects
pub mod Reasons
pub mod Lookup
pub mod Requests
use shyake.Base.{
  ℕ, ◌+◌, ◌<◌, Bool, true, false, not, ◌&&◌, ◌||◌, Bytes, [], ◌∷◌, ◌++◌, List, map, Option, none,
  some, ◌>>=◌, codes, snprintf, length, drop, get_or, equal, is_empty, ltb, leb, ◌-◌, ◌==◌,
  if◌then◌else◌,
}
use shyake.Base.Decimal.{show}
use shyake.Base.Integer.{ℤ}
use shyake.Context.{
  Ctx, set_error, Err, ok, err, err_network, err_http, err_gone, err_not_found, or_empty,
}

-- A field of an object that the client prints.
pub data Field : Type 0 where
  of_text : Bytes → Field
  of_number : ℤ → Field

-- cJSON's values: an item that is missing, or not of the type asked for, is `none`. `string` is
-- `valuestring` and `elements` the items of an array. `number` is the `valueint` of a number, those
-- below 0 counted as 0; `valueint` is that field of any item, and `valuedouble` the one of a number,
-- cast to `i64`. `print` is `cJSON_PrintUnformatted` of an object with these fields in this order.
pub record Json : Type 1 where
  pub Value : Type 0
  pub parse : Bytes → Option Value
  pub item : Value → Bytes → Option Value
  pub string : Value → Option Bytes
  pub number : Value → Option ℕ
  pub valueint : Value → ℤ
  pub valuedouble : Value → Option ℤ
  pub elements : Value → Option (List Value)
  pub print : List (Bytes × Field) → Bytes

-- A transfer: no answer, with the text of `curl_easy_strerror`, or a status and a body.
pub data Reply : Type 0 where
  unreachable : Bytes → Reply
  answered : ℕ → Bytes → Reply

-- What `curl_easy_perform` gives for a URL; `none` where `curl_easy_init` fails.
abbrev pub Net : Type 0
Net = Bytes → Option Reply

-- The "error" text of a reply.
unfoldable pub error_text : (J : Json) → Bytes → Option Bytes
error_text J body = do json ← J.parse body; e ← J.item json (codes "error"); J.string e

unfoldable pub http_error_is : (J : Json) → Bytes → Bytes → Bool
http_error_is J body text = elim (error_text J body) [ none ↦ false | some e ↦ equal e text ]

-- `server_reasons`
abbrev pub server_reasons : List (Bytes × Bytes)
server_reasons =
    (codes "Timestamp out of window", codes "Your clock is off by more than 5 minutes.")
    ∷ (codes "Invalid Proof of Work", codes "The instance rejected the proof of work.")
    ∷ (codes "Invalid signature", codes "The instance rejected your signature.")
    ∷ (codes "Signature verification failed", codes "The instance rejected your signature.")
    ∷ (codes "User not found", codes "Your account does not exist on this instance.")
    ∷ (codes "User not found or destroyed", codes "Your account does not exist on this instance.")
    ∷ (codes "Sender not registered", codes "Your account does not exist on this instance.")
    ∷ (codes "Replayed request", codes "The instance already saw this request. Try again.")
    ∷ (codes "Registration is disabled", codes "This instance does not accept new accounts.")
    ∷ (codes "Username already taken", codes "The username is taken.")
    ∷ (codes "Username is reserved", codes "The username is reserved.")
    ∷ (codes "Invalid username format", codes "The username is not valid.")
    ∷ (codes "Mail not found", codes "Mail not found.")
    ∷ (codes "Payload too large", codes "The mail is too large.")
    ∷ (codes "Recipient instance unreachable", codes "Cannot reach the recipient's instance.")
    ∷ (codes "Federation disabled", codes "This instance does not federate.")
    ∷ (codes "Invalid target", codes "The block target is not valid.")
    ∷ (codes "Database error", codes "The instance had an internal error.")
    ∷ []

unfoldable pub find_reason : Bytes → List (Bytes × Bytes) → Option Bytes
find_reason msg [] = none
find_reason msg ((text, reason) ∷ rest) =
    if equal msg text then some reason else find_reason msg rest

-- `if ((u8)*p < 0x20 || *p == 0x7f) *p = '?'`
unfoldable pub printable_byte : ℕ → ℕ
printable_byte c = if ltb c 0x20 || c == 0x7f then b'?' else c

-- `msg[256]`, made printable.
unfoldable pub server_message : (J : Json) → Bytes → Bytes
server_message J body = map printable_byte (snprintf 256 (or_empty (error_text J body)))

-- `strchr(".!?", msg[strlen(msg) - 1])`
unfoldable pub ends_sentence : Bytes → Bool
ends_sentence msg =
    let last = get_or msg (length msg - 1) 0 in last == b'.' || last == b'!' || last == b'?'

-- The sentence that `set_server_error` records.
unfoldable pub server_reason : (J : Json) → ℕ → Bytes → Bytes
server_reason J code body =
    let msg = server_message J body in
    elim (find_reason msg server_reasons) [
      | some reason ↦ reason
      | none ↦
          if code == 429
          then codes "Too many requests. Try again later."
          else if not (is_empty msg)
          then msg ++ (if ends_sentence msg then [] else codes ".")
          else if leb 500 code
          then codes "The instance had an internal error."
          else codes "The instance answered with HTTP " ++ (show code ++ codes ".")
    ]

unfoldable pub set_server_error : (J : Json) → ℕ → Bytes → Ctx → Ctx
set_server_error J code body ctx = set_error (server_reason J code body) ctx

-- `strstr(s, "://")`, and the text behind it; the whole text where it is not found.
unfoldable pub behind_scheme : Bytes → Bytes → Bytes
behind_scheme whole (b ∷ c ∷ e ∷ rest) =
    let later = behind_scheme whole (c ∷ e ∷ rest) in
    if b == b':' && c == b'/' && e == b'/' then rest else later
behind_scheme whole _ = whole

unfoldable pub set_network_error : Bytes → Ctx → Ctx
unfolding behind_scheme
set_network_error problem ctx =
    let url = or_empty ctx.instance_url in
    set_error
      (codes "Cannot reach " ++ (behind_scheme url url ++ (codes " (" ++ (problem ++ codes ")."))))
      ctx
