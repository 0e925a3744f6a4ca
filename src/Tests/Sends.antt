-- ===== src/Tests/Sends.antt =====
-- Drafts that are sent, a mail that was not, and the end of an account, at concrete inputs.
use shyake.Cli.Prompt.{prompt_passphrase}
use shyake.Cli.Session.{with_account}
use shyake.Config.{trim_left, trim_right}
use shyake.Os.{Disk}
use shyake.Base.{Bytes}
use shyake.Cli.{Host}
use shyake.Cli.Manage.{destroy_command}
use shyake.Cli.Manage.Ending.{DestroyExit, destroy_command-DestroyExit}
use shyake.Tests.Toys.{empty_disk}
use shyake.KnownHosts.{add_known_host}
use shyake.Crypto.Base64.{base64_decode}
use shyake.Crypto.ChaCha.{chacha20_poly1305_decrypt}
use shyake.Cli.Send.{changes_reply}
use shyake.Mail.Send.{check_known_host, send}
use shyake.Tests.Toys64.{decode64}
use shyake.Drafts.{decrypt_field}
use shyake.Crypto.Seal.{decrypt_from_b64}
use shyake.Cli.Send.{draft_parts}
use shyake.Network.Lookup.{fetch_recipient_pubkey}
use shyake.Drafts.{field}
use shyake.Tests.ToysJson.{fields_of}
use shyake.Network.Objects.{find_field}
use shyake.KnownHosts.{get_known_host}
use shyake.Pow.{is_match}
use shyake.Crypto.Base64.{is_trimmed}
use shyake.Crypto.Kem.{kem_decapsulate_key}
use shyake.Network.Lookup.{kem_pubkey_of}
use shyake.Network.Requests.{mint}
use shyake.Pow.{mint_pow}
use shyake.Drafts.{number_field}
use shyake.Drafts.{open_body}
use shyake.Drafts.{open_draft}
use shyake.Drafts.{open_reply}
use shyake.Crypto.Base64.{padding}
use shyake.Drafts.{parse_draft_json}
use shyake.Pow.{rounds}
use shyake.Mail.Send.Fields.{seal_fields}
use shyake.Cli.Send.{send_detail}
use shyake.Mail.Send.{send_mail}
use shyake.Mail.Send.{send_reply_code}
use shyake.Crypto.Base64.{standard_digit}
use shyake.Crypto.Base64.{trimmed_length}
use shyake.Tests.ToysJson.{value_of}
use shyake.Tests.ToysJson.{words}
use shyake.Pow.{zero_bytes}
use shyake.Base.{arith, equal, Bool, ◌≡◌, refl, true, false, [], ◌∷◌, none, some, codes, Option}
use shyake.Os.{insert, lookup, load_file}
use shyake.Base.Decimal.{show, digits_onto}
use shyake.Os.{insert, lookup, load_file}
use shyake.KeyFile.{sk_file_is_encrypted, fill_random, load_sk_decrypted, has_magic}
use shyake.Crypto.Kem.{kem_encapsulate_key}
use shyake.Crypto.Seal.{encrypt_to_b64, seal_with, read_nonce}
use shyake.Crypto.ChaCha.{chacha20_poly1305_encrypt}
use shyake.Crypto.Base64.{base64_encode}
use shyake.Mail.Send.Fields.{seal_optional}
use shyake.Mail.Saved.{is_json, stem}
use shyake.Update.Version.{digits_from}
use shyake.Drafts.Identifier.{allocate}
use shyake.Drafts.{max_id, numeric_draft_id, all_digits}
use shyake.Drafts.Saving.{created_of, seal_draft, field_sealed, open_file, draft_fields}
use shyake.Context.{err_http}
use shyake.Client.{World, State, Outcome}
use shyake.Network.{of_text, answered}
use shyake.Crypto.Own.{selfenc_begin, selfdec_new, selfdec_key}
use shyake.Drafts.{read_draft}
use shyake.Drafts.Saving.{save_draft}
use shyake.Cli.{Run, host_of}
use shyake.Cli.Send.{SendOptions, c_string, send_draft, sent_or_rescued}
use shyake.Cli.Send.Exits.{DraftExit, send_draft-DraftExit}
use shyake.Cli.Send.Rescue.{unsent_mail_kept}
use shyake.Drafts.RoundTrip.{ShowsDraft}
use shyake.Tests.Toys.{toy_evp-IsAead, toy_oqs-IsKem, toy_pk, toy_sk}
use shyake.Tests.Toys64.{encode64, toy_blocks-IsBase64}
use shyake.Tests.ToysJson.{shifted, value_word, print_object, object_libs, object_json-IsJson}
use shyake.Tests.Client.{toy_world, toy_state, toy_entropy, key_b64}
use shyake.Tests.Drafts.{
  dir, bob, hello, text, saved_state, draft_saved, room_left, unlocked, toy_terminal, toy_setup,
}

-- The instance gives the recipient's key, and takes a mail.
abbrev key_world : World
key_world = record toy_world {
  perform = λ request. answered 200 (print_object ((codes "kem_pubkey", of_text key_b64) ∷ []));
}

abbrev no_options : SendOptions
no_options = record { recipient = none; subject = none; draft_id = none; file = none }

abbrev full_state : State
full_state = record saved_state { entropy = toy_entropy }

abbrev is_filled : Option Run → Bool
is_filled none = false
is_filled (some r) = true

abbrev filler : Option Run → Run
filler none = record { status = false; shown = []; host = host_of full_state }
filler (some r) = r

filled : (o : Option Run) → is_filled o ≡ true → o ≡ some (filler o)
filled none h = cc h
filled (some r) h = refl

abbrev draft_run : Run
draft_run = filler (
    send_draft object_libs toy_terminal (λ n. key_world) toy_setup (codes "1") no_options
      full_state)

draft_runs :
    is_filled (
      send_draft object_libs toy_terminal
        (λ n. key_world)
        toy_setup
        (codes "1")
        no_options
        full_state)
    ≡ true
unfolding save_draft created_of selfenc_begin load_file lookup equal fill_random kem_encapsulate_key
    seal_draft encrypt_to_b64 seal_optional seal_with chacha20_poly1305_encrypt field_sealed
    open_file allocate show digits_onto base64_encode read_nonce max_id numeric_draft_id all_digits
    is_json stem digits_from base64_decode is_trimmed padding standard_digit trimmed_length
    chacha20_poly1305_decrypt kem_decapsulate_key selfdec_key selfdec_new decrypt_from_b64
    decrypt_field field number_field open_body open_draft open_reply has_magic load_sk_decrypted
    send_draft read_draft parse_draft_json insert draft_fields shifted print_object value_word
    encode64 decode64 words fields_of value_of find_field draft_parts changes_reply send_detail
    send_mail fetch_recipient_pubkey kem_pubkey_of check_known_host get_known_host add_known_host
    mint mint_pow rounds is_match zero_bytes send_reply_code seal_fields send c_string
draft_runs = refl

draft_run_done :
    send_draft object_libs toy_terminal (λ n. key_world) toy_setup (codes "1") no_options full_state
    ≡ some draft_run
draft_run_done =
    filled
      (send_draft object_libs toy_terminal (λ n. key_world) toy_setup (codes "1") no_options
        full_state)
      draft_runs

send_draft-DraftExit_example :
    DraftExit object_libs toy_terminal
      (λ n. key_world)
      toy_setup
      (codes "1")
      no_options
      full_state
      draft_run
send_draft-DraftExit_example =
    send_draft-DraftExit object_libs toy_terminal (λ n. key_world) toy_setup (codes "1") no_options
      full_state draft_run draft_run_done

abbrev unsent_mail : Outcome
unsent_mail = record { code = err_http; sent = none; state = toy_state }

abbrev rescued_run : Run
rescued_run =
    sent_or_rescued object_libs toy_terminal (λ n. toy_world) toy_setup toy_world bob hello none
      text unsent_mail

unsent_mail_kept_example :
    (rescued_run.status ≡ false)
    × (rescued_run.host ≡ host_of saved_state)
    × ShowsDraft
        (read_draft object_libs dir none (codes "1") saved_state).0
        (codes "1")
        bob
        hello
        text
        none
unfolding load_file lookup equal
unsent_mail_kept_example =
    unsent_mail_kept object_libs toy_terminal (λ n. toy_world) toy_setup object_json-IsJson
      toy_evp-IsAead toy_blocks-IsBase64 toy_oqs-IsKem toy_world bob hello text none unsent_mail
      saved_state saved_state (codes "1") [] [] toy_pk toy_sk toy_state.ctx none refl refl refl refl
      draft_saved (omega arith) room_left refl unlocked

abbrev toy_host : Host
toy_host = host_of toy_state

abbrev removing : Bytes → Disk → Disk
removing command d = empty_disk

abbrev destroy_run : Run
destroy_run = filler (
    destroy_command object_libs toy_terminal (λ n. toy_world) toy_setup removing
      (some (codes " ann\n")) toy_host)

destroy_runs :
    is_filled (
      destroy_command object_libs toy_terminal
        (λ n. toy_world)
        toy_setup
        removing
        (some (codes " ann\n"))
        toy_host)
    ≡ true
unfolding destroy_command equal trim_right trim_left with_account prompt_passphrase
    sk_file_is_encrypted lookup
destroy_runs = refl

destroy_run_done :
    destroy_command object_libs toy_terminal
      (λ n. toy_world)
      toy_setup
      removing
      (some (codes " ann\n"))
      toy_host
    ≡ some destroy_run
destroy_run_done =
    filled
      (destroy_command object_libs toy_terminal (λ n. toy_world) toy_setup removing
        (some (codes " ann\n")) toy_host)
      destroy_runs

destroy_command-DestroyExit_example :
    DestroyExit object_libs toy_terminal
      (λ n. toy_world)
      toy_setup
      removing
      toy_host
      (some (codes " ann\n"))
      destroy_run
destroy_command-DestroyExit_example =
    destroy_command-DestroyExit object_libs toy_terminal (λ n. toy_world) toy_setup removing
      toy_host (some (codes " ann\n")) destroy_run destroy_run_done
