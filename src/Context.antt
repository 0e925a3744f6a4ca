-- ===== src/Context.antt =====
-- client/src/lib/lib_internal.h and client/src/lib/libshyake.c: the library's context, its last
-- error and its passphrases.
pub mod Paths
use shyake.Base.{ℕ, Bytes, [], ◌∷◌, ◌++◌, Option, none, some, ◌>>=◌, codes, snprintf}

-- `shyake_config`; a null pointer is `none`.
pub record Config : Type 0 where
  pub instance_url : Option Bytes
  pub config_dir : Option Bytes
  pub username : Option Bytes
  pub plain : ℕ
  pub debug : ℕ
  pub no_color : ℕ

-- `struct shyake_ctx`
pub record Ctx : Type 0 where
  pub instance_url : Option Bytes
  pub config_dir : Bytes
  pub username : Option Bytes
  pub plain : ℕ
  pub debug : ℕ
  pub no_color : ℕ
  pub passphrase : Bytes
  pub new_passphrase : Bytes
  pub last_error : Bytes

-- `set_error`, on the formatted text.
abbrev pub set_error : Bytes → Ctx → Ctx
set_error text ctx = record ctx { last_error = snprintf 512 text }

abbrev pub clear_error : Ctx → Ctx
clear_error ctx = record ctx { last_error = [] }

-- `shyake_init_ctx`
unfoldable pub init_ctx : Config → Option Ctx
init_ctx config = do
  dir ← config.config_dir
  some (record {
    instance_url = config.instance_url;
    config_dir = dir;
    username = config.username;
    plain = config.plain;
    debug = config.debug;
    no_color = config.no_color;
    passphrase = [];
    new_passphrase = [];
    last_error = [];
  })

-- `shyake_err`
pub data Err : Type 0 where
  ok err err_network err_http err_key_mismatch err_gone err_not_found err_forbidden : Err
  err_crypto err_no_instance err_blocked : Err

-- `passphrase ? passphrase : ""`
abbrev pub or_empty : Option Bytes → Bytes
or_empty none = []
or_empty (some p) = p

-- What `%s` prints for a string that may be a null pointer.
abbrev pub or_null : Option Bytes → Bytes
or_null none = codes "(null)"
or_null (some p) = p

-- `shyake_set_passphrase`
unfoldable pub set_passphrase : Option Bytes → Ctx → Ctx
set_passphrase p ctx = record ctx { passphrase = snprintf 512 (or_empty p) }

-- `shyake_set_new_passphrase`
unfoldable pub set_new_passphrase : Option Bytes → Ctx → Ctx
set_new_passphrase p ctx = record ctx { new_passphrase = snprintf 512 (or_empty p) }

-- `snprintf(path, 512, "%s/%s", dir, name)`
abbrev pub path_in : Bytes → Bytes → Bytes
path_in dir name = snprintf 512 (dir ++ (b'/' ∷ name))
