-- ===== src/Tests/Mails.antt =====
-- Mails on a small disk: sent, sent again, fetched and found.
use shyake.Os.{load_file, insert}
use shyake.KeyFile.{load_sk_decrypted, has_magic, fill_random}
use shyake.KnownHosts.{
  add_known_host, read_lines, scan_word, skip_spaces, take_word, print_entry, scan_entry,
}
use shyake.Network.Lookup.{kem_pubkey_of}
use shyake.Network.Requests.{mint}
use shyake.Pow.{mint_pow, rounds, is_match, zero_bytes}
use shyake.Crypto.Base64.{base64_encode, trimmed_length, is_trimmed, standard_digit, padding}
use shyake.Crypto.Kem.{kem_encapsulate_key}
use shyake.Crypto.Seal.{encrypt_to_b64, seal_with, read_nonce}
use shyake.Crypto.ChaCha.{chacha20_poly1305_encrypt}
use shyake.Mail.Send.{check_known_host, send_reply_code}
use shyake.Mail.Send.Fields.{seal_optional}
use shyake.Tests.Toys64.{encode64, decode64}
use shyake.Base.{
  equal, ◌≡◌, refl, false, Bytes, [], ◌∷◌, List, Option, none, some, ◌>>=◌, ℕ, zero, suc, codes,
  replicate, All, arith,
}
use shyake.Base.Hex.{hex}
use shyake.Base.Integer.{pos}
use shyake.Os.{Disk, lookup, read}
use shyake.Context.{err}
use shyake.Crypto.Base64.{standard_digit, padding, is_trimmed, trimmed_length, base64_decode}
use shyake.KnownHosts.{print_entry, get_known_host, is_space}
use shyake.KnownHosts.Lines.{IsPrintable}
use shyake.KnownHosts.Refinement.{Holds}
use shyake.Network.{Json}
use shyake.Network.Lookup.{kem_pubkey_of, fetch_recipient_pubkey}
use shyake.Client.{Libs, State, Outcome, Request, stop, without_error, net_of, get_request}
use shyake.Mail.{sig_ref}
use shyake.Mail.Send.{send_mail}
use shyake.Mail.Send.Fields.{Sealed, seal_fields}
use shyake.Mail.Send.Posted.{Sends}
use shyake.KnownHosts.Fingerprint.Given.{Gives, entry_of, print_of}
use shyake.Mail.Send.Trust.{Agrees, send_mail_trusts, send_mail_pins}
use shyake.Mail.Send.Delivery.{seal_fields-Readable}
use shyake.Mail.Read.{valueint_at, text_at, load_kem_sk}
use shyake.Mail.Read.Opening.{Carries, Delivered, fetch_json-delivers}
use shyake.Mail.Find.{FindResult, find_ref}
use shyake.Mail.Find.Found.{Found}
use shyake.Tests.Toys.{toy_evp-IsAead, toy_oqs-IsKem, toy_json, toy_ctx, toy_pk, toy_sk}
use shyake.Tests.Toys64.{decode64, toy_blocks, toy_blocks-IsBase64}
use shyake.Drafts.Saving.{save_draft, save_draft_keeps}
use shyake.Tests.Client.{toy_libs, toy_world, toy_state, toy_entropy, key_b64}

abbrev pub bob : Bytes
bob = codes "bob"

abbrev hello : Option Bytes
hello = some (codes "hello")

abbrev mail_body : Bytes
mail_body = codes "text"

abbrev outcome_of : State → Outcome
outcome_of s = elim (send_mail toy_libs toy_world bob none hello mail_body s) [
  | none ↦ stop err s
  | some o ↦ o
]

abbrev request_of : Outcome → Request
request_of o = elim o.sent [ none ↦ get_request [] [] | some r ↦ r ]

abbrev first : Outcome
first = outcome_of toy_state

first_done : send_mail toy_libs toy_world bob none hello mail_body toy_state ≡ some first
unfolding send_mail fetch_recipient_pubkey kem_pubkey_of base64_decode decode64 trimmed_length
    is_trimmed check_known_host get_known_host lookup equal load_file add_known_host insert
    load_sk_decrypted has_magic fill_random seal_fields seal_optional kem_encapsulate_key
    encrypt_to_b64 seal_with read_nonce chacha20_poly1305_encrypt mint mint_pow rounds is_match
    zero_bytes send_reply_code padding
first_done = refl

first_sent : first.sent ≡ some (request_of first)
unfolding send_mail fetch_recipient_pubkey kem_pubkey_of base64_decode decode64 trimmed_length
    is_trimmed check_known_host get_known_host lookup equal load_file add_known_host insert
    load_sk_decrypted has_magic fill_random seal_fields seal_optional kem_encapsulate_key
    encrypt_to_b64 seal_with read_nonce chacha20_poly1305_encrypt mint mint_pow rounds is_match
    zero_bytes send_reply_code padding
first_sent = refl

send_mail_trusts_example :
    (pk_b64 : Bytes) × (pk : Bytes) × (my_kpk : Bytes) × (d : Disk) × ((fetch_recipient_pubkey
        toy_json
        (net_of toy_world)
        bob
        (without_error toy_state).ctx).0
      ≡ some pk_b64)
    × (base64_decode toy_blocks pk_b64 ≡ some pk)
    × Agrees toy_libs (codes "/c") bob pk toy_state.disk
    × Sends toy_libs toy_world bob none hello mail_body pk my_kpk d first (request_of first)
send_mail_trusts_example =
    send_mail_trusts toy_libs toy_world bob none hello mail_body toy_state first (request_of first)
      first_done first_sent

abbrev again_state : State
again_state = record { ctx = toy_state.ctx; entropy = toy_entropy; disk = first.state.disk }

abbrev second : Outcome
second = outcome_of again_state

second_done : send_mail toy_libs toy_world bob none hello mail_body again_state ≡ some second
unfolding send_mail fetch_recipient_pubkey kem_pubkey_of base64_decode decode64 trimmed_length
    is_trimmed check_known_host get_known_host lookup equal load_file add_known_host insert
    load_sk_decrypted has_magic fill_random seal_fields seal_optional kem_encapsulate_key
    encrypt_to_b64 seal_with read_nonce chacha20_poly1305_encrypt mint mint_pow rounds is_match
    zero_bytes send_reply_code read_lines scan_word skip_spaces take_word is_space print_entry
    scan_entry encode64 base64_encode hex standard_digit padding
second_done = refl

second_sent : second.sent ≡ some (request_of second)
unfolding send_mail fetch_recipient_pubkey kem_pubkey_of base64_decode decode64 trimmed_length
    is_trimmed check_known_host get_known_host lookup equal load_file add_known_host insert
    load_sk_decrypted has_magic fill_random seal_fields seal_optional kem_encapsulate_key
    encrypt_to_b64 seal_with read_nonce chacha20_poly1305_encrypt mint mint_pow rounds is_match
    zero_bytes send_reply_code read_lines scan_word skip_spaces take_word is_space print_entry
    scan_entry encode64 base64_encode hex standard_digit padding
second_sent = refl

pub gives : Gives toy_libs toy_world bob toy_state key_b64 toy_pk
unfolding fetch_recipient_pubkey kem_pubkey_of base64_decode decode64 trimmed_length is_trimmed
    padding standard_digit
gives = (refl, refl)

key_again : Gives toy_libs toy_world bob again_state key_b64 toy_pk
unfolding fetch_recipient_pubkey kem_pubkey_of base64_decode decode64 trimmed_length is_trimmed
    padding standard_digit
key_again = (refl, refl)

nobody : get_known_host (codes "/c") bob toy_state.disk ≡ none
unfolding get_known_host lookup equal
nobody = refl

pub no_hosts : Holds (codes "/c") toy_state.disk []
unfolding lookup equal
no_hosts = record { content = refl; printable = tt }

pub bob-IsPrintable : IsPrintable (entry_of toy_libs bob toy_pk key_b64)
unfolding is_space hex
bob-IsPrintable = record {
  user_word = record {
    nonempty = λ e. cc;
    no_space = (refl, (refl, (refl, tt)));
    fits = omega arith;
  };
  fp_word = record { nonempty = λ e. cc; no_space = pairs 32; fits = omega arith };
  pk_word = record {
    nonempty = λ e. cc;
    no_space = (refl, (refl, (refl, (refl, (refl, (refl, (refl, (refl, tt))))))));
    fits = omega arith;
  };
  line_fits = omega arith;
}
  where
    pairs : (n : ℕ) → All (λ c. is_space c ≡ false) (hex (replicate n 171))
    pairs zero = tt
    pairs (suc n) = (refl, (refl, pairs n))

send_mail_pins_example : print_of toy_libs toy_pk ≡ print_of toy_libs toy_pk
unfolding print_entry hex
send_mail_pins_example =
    send_mail_pins toy_libs toy_world toy_world bob mail_body mail_body none hello none hello
      toy_state again_state first second (request_of first) (request_of second) key_b64 toy_pk
      key_b64 toy_pk [] gives key_again first_done first_sent nobody no_hosts bob-IsPrintable refl
      (omega arith) refl refl second_done second_sent

abbrev wanted : Bytes
wanted = sig_ref toy_libs (codes "text")

abbrev found : FindResult
found = elim (find_ref toy_libs toy_world wanted toy_state) [
  | none ↦ (none, false, toy_state)
  | some r ↦ r
]

-- JSON as a list of strings by name; an item is a list with its string under no name.
abbrev items_json : Json
items_json = record {
  Value = List (Bytes × Bytes);
  parse = λ body. none;
  item = λ v key. lookup key v >>= λ words. some (([], words) ∷ []);
  string = λ v. lookup [] v;
  number = λ v. none;
  valueint = λ v. pos 7;
  valuedouble = λ v. none;
  elements = λ v. none;
  print = λ fields. [];
}

abbrev items_libs : Libs
items_libs = record toy_libs { json = items_json }

abbrev sealed : Sealed
sealed =
    elim (seal_fields items_libs toy_world (replicate 32 4) toy_pk toy_pk hello mail_body none
      toy_entropy).0 [
        | none ↦ record {
          enc_subject = none;
          enc_body = none;
          enc_reply_to = none;
          key_recipient = [];
          key_sender = [];
        }
        | some s ↦ s
      ]

is_sealed :
    (seal_fields items_libs toy_world
      (replicate 32 4)
      toy_pk
      toy_pk
      hello
      mail_body
      none
      toy_entropy).0
    ≡ some sealed
unfolding seal_fields kem_encapsulate_key
is_sealed = refl

abbrev or_none : Option Bytes → Bytes
or_none none = []
or_none (some words) = words

abbrev mail_json : List (Bytes × Bytes)
mail_json =
    (codes "sender", codes "ann")
    ∷ (codes "recipient", bob)
    ∷ (codes "timestamp", [])
    ∷ (codes "enc_key_recipient", sealed.key_recipient)
    ∷ (codes "enc_key_sender", sealed.key_sender)
    ∷ (codes "enc_subject", or_none sealed.enc_subject)
    ∷ (codes "enc_body", or_none sealed.enc_body)
    ∷ []

carried :
    Carries items_libs toy_evp-IsAead toy_blocks-IsBase64 toy_oqs-IsKem mail_json
      (codes "ann")
      bob
      (pos 7)
      sealed
unfolding text_at lookup equal valueint_at seal_fields kem_encapsulate_key encrypt_to_b64
    seal_optional seal_with chacha20_poly1305_encrypt
carried = record {
  sender_item = refl;
  recipient_item = refl;
  time_item = refl;
  key_recipient_item = refl;
  key_sender_item = refl;
  subject_item = refl;
  body_item = refl;
}

abbrev bob_state : State
bob_state = record toy_state { ctx = record toy_ctx { username = some bob } }

bob_key : (load_kem_sk items_libs bob_state).0 ≡ some toy_sk
unfolding load_kem_sk load_sk_decrypted load_file lookup equal has_magic
bob_key = refl

fetch_json-delivers_example :
    Delivered items_libs toy_evp-IsAead toy_blocks-IsBase64 toy_oqs-IsKem
      (codes "1")
      bob_state
      mail_json
      (codes "ann")
      bob
      hello
      mail_body
      sealed
unfolding equal
fetch_json-delivers_example =
    fetch_json-delivers items_libs toy_evp-IsAead toy_blocks-IsBase64 toy_oqs-IsKem (codes "1")
      bob_state mail_json (codes "ann") bob bob (pos 7) toy_pk toy_pk toy_sk mail_body hello none
      sealed
      (seal_fields-Readable items_libs toy_evp-IsAead toy_blocks-IsBase64 toy_oqs-IsKem toy_world
        refl (replicate 32 4) toy_pk toy_pk hello mail_body none toy_entropy sealed refl is_sealed)
      carried refl ([], refl) bob_key

abbrev drafted : State
drafted =
    (save_draft toy_libs toy_world (codes "/c") none (some bob) hello none mail_body toy_state).1

m1_there : read toy_state.disk (codes "/c/saved/m1.json") ≡ some (codes "text")
unfolding lookup equal
m1_there = refl

save_draft_keeps_example : read drafted.disk (codes "/c/saved/m1.json") ≡ some (codes "text")
save_draft_keeps_example =
    save_draft_keeps toy_libs toy_world (codes "/c") (codes "/c/saved/m1.json") (codes "text")
      (some bob) hello none mail_body toy_state m1_there
