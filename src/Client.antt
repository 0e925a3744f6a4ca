-- ===== src/Client.antt =====
-- What an operation of the library works with: the libraries it is linked with, the world outside
-- (libcurl, the clock, directories), and the state that it changes.
use shyake.Base.{ℕ, Bool, Bytes, [], List, Option, none, some, codes, snprintf, ◌++◌, if◌then◌else◌}
use shyake.Os.{Disk, Entropy}
use shyake.Context.{Ctx, Err, set_error, clear_error, or_null}
use shyake.Crypto.Interface.{Evp, Blocks, Oqs, Sig}
use shyake.KeyFile.{Kdf}
use shyake.Network.{Json, Reply, Net, set_server_error, set_network_error}

-- OpenSSL, liboqs and cJSON.
pub record Libs : Type 1 where
  pub evp : Evp
  pub blocks : Blocks
  pub oqs : Oqs
  pub sig : Sig
  pub kdf : Kdf
  pub json : Json
  pub sha256 : Bytes → Bytes
  pub sha1 : Bytes → Bytes

-- The options that a transfer is given. Without a body and a method of its own it is a GET.
pub record Request : Type 0 where
  pub method : Bytes
  pub url : Bytes
  pub headers : List Bytes
  pub body : Option Bytes

-- `curl_init`: `curl_easy_init` gives a handle. `perform`: the reply to a request. `now`: the seconds
-- of `time`, with their `date` as `%y%m%d`. `seeded`: the twelve bytes of `rand`. `coins`: the
-- randomness of the n-th call of liboqs. `stack`: what a nonce buffer holds before it is filled.
-- `readdir`: the names in a directory, in any order, where it can be opened. `has_dir`: the directory
-- is there, or `mkdir` makes it.
pub record World : Type 0 where
  pub curl_init : Bool
  pub perform : Request → Reply
  pub now : ℕ
  pub date : Bytes
  pub seeded : Bytes
  pub coins : ℕ → Bytes
  pub stack : Bytes
  pub readdir : Bytes → Option (List Bytes)
  pub has_dir : Bytes → Bool

pub record State : Type 0 where
  pub ctx : Ctx
  pub entropy : Entropy
  pub disk : Disk

-- The code that an operation returns, the request that it sent, and the state behind it.
pub record Outcome : Type 0 where
  pub code : Err
  pub sent : Option Request
  pub state : State

abbrev pub with_error : Bytes → State → State
with_error message s = record s { ctx = set_error message s.ctx }

abbrev pub without_error : State → State
without_error s = record s { ctx = clear_error s.ctx }

-- An operation that ends before it sends anything.
abbrev pub stop : Err → State → Outcome
stop code s = record { code = code; sent = none; state = s }

abbrev pub get_request : Bytes → List Bytes → Request
get_request url headers = record { method = codes "GET"; url = url; headers = headers; body = none }

-- Transfers without headers of their own.
abbrev pub net_of : World → Net
net_of W url = if W.curl_init then some (W.perform (get_request url [])) else none

-- `snprintf(url, 512, "%s%s", …)`
abbrev pub url_of : Ctx → Bytes → Bytes
url_of ctx endpoint = snprintf 512 (or_null ctx.instance_url ++ endpoint)

abbrev pub with_network_error : Bytes → State → State
with_network_error problem s = record s { ctx = set_network_error problem s.ctx }

abbrev pub with_server_error : Libs → ℕ → Bytes → State → State
with_server_error L code body s = record s { ctx = set_server_error L.json code body s.ctx }
