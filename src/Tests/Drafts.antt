-- ===== src/Tests/Drafts.antt =====
-- Drafts, and the commands that keep and send them, at concrete inputs.
use shyake.Compose.{all_space}
use shyake.Base.{
  equal, ℕ, ◌<◌, ◌≡◌, refl, ap, ◌∙◌, true, false, Bytes, [], none, some, codes, length, arith,
  Option,
}
use shyake.Base.Integer.{pos}
use shyake.Os.{insert, lookup, load_file, read}
use shyake.Base.Decimal.{show, digits_onto}
use shyake.Os.{insert, lookup, load_file}
use shyake.KeyFile.{fill_random, load_sk_decrypted, has_magic}
use shyake.Crypto.Kem.{kem_encapsulate_key}
use shyake.Crypto.Seal.{encrypt_to_b64, seal_with, read_nonce}
use shyake.Crypto.ChaCha.{chacha20_poly1305_encrypt}
use shyake.Crypto.Base64.{base64_encode}
use shyake.Mail.Send.Fields.{seal_optional}
use shyake.Mail.Saved.{is_json, stem}
use shyake.Update.Version.{digits_from}
use shyake.Drafts.Identifier.{allocate}
use shyake.Drafts.{max_id, numeric_draft_id, all_digits}
use shyake.Drafts.Saving.{created_of, seal_draft, field_sealed, open_file, draft_fields}
use shyake.Context.{Err, ok}
use shyake.Client.{State}
use shyake.Config.{trim_right, trim_left, AppConfig}
use shyake.Crypto.Own.{selfenc_begin, selfdec_new}
use shyake.Drafts.{draft_path, read_draft}
use shyake.Drafts.Saving.{save_draft}
use shyake.Drafts.RoundTrip.{ShowsDraft, read-save_draft}
use shyake.Cli.{Setup}
use shyake.Cli.Reply.{save_edited_draft, skip_newlines}
use shyake.Cli.Reply.Kept.{edited_reply_kept}
use shyake.Compose.Template.{reply_template}
use shyake.Compose.Template.Reading.{IsValue}
use shyake.Cli.Prompt.{Terminal}
use shyake.Tests.Toys.{toy_evp-IsAead, toy_oqs-IsKem, toy_pk, toy_sk}
use shyake.Tests.Toys64.{encode64, toy_blocks-IsBase64}
use shyake.Tests.ToysJson.{shifted, value_word, print_object, object_libs, object_json-IsJson}
use shyake.Tests.Client.{toy_world, toy_state}

abbrev pub dir : Bytes
dir = codes "/c"

abbrev pub bob : Bytes
bob = codes "bob"

abbrev pub hello : Bytes
hello = codes "hi"

abbrev pub text : Bytes
text = codes "hey\n"

abbrev pub saved_state : State
saved_state =
    (save_draft object_libs toy_world dir none (some bob) (some hello) none text toy_state).1

saved_code :
    (save_draft object_libs toy_world dir none (some bob) (some hello) none text toy_state).0
    ≡ (ok, some (codes "1"))
unfolding save_draft created_of selfenc_begin load_file lookup equal fill_random kem_encapsulate_key
    seal_draft encrypt_to_b64 seal_optional seal_with chacha20_poly1305_encrypt field_sealed
    open_file allocate show digits_onto base64_encode read_nonce max_id numeric_draft_id all_digits
    is_json stem digits_from
saved_code = refl

saved_error :
    (save_draft object_libs toy_world dir none (some bob) (some hello) none text toy_state).2 ≡ []
unfolding save_draft created_of selfenc_begin load_file lookup equal fill_random kem_encapsulate_key
    seal_draft encrypt_to_b64 seal_optional seal_with chacha20_poly1305_encrypt field_sealed
    open_file allocate show digits_onto base64_encode read_nonce max_id numeric_draft_id all_digits
    is_json stem digits_from
saved_error = refl

pub draft_saved :
    save_draft object_libs toy_world dir none (some bob) (some hello) none text toy_state
    ≡ ((ok, some (codes "1")), saved_state, [])
draft_saved =
    ap
      (λ (c : Err × Option Bytes). (
        c,
        saved_state,
        (save_draft object_libs toy_world dir none (some bob) (some hello) none text toy_state).2,
      ))
      saved_code
    ∙ ap (λ (e : Bytes). ((ok, some (codes "1")), saved_state, e)) saved_error

abbrev size_of : Option Bytes → ℕ
size_of none = 0
size_of (some content) = length content

saved_length : size_of (read saved_state.disk (draft_path dir (codes "1"))) ≡ 281
unfolding save_draft created_of selfenc_begin load_file lookup equal fill_random kem_encapsulate_key
    seal_draft encrypt_to_b64 seal_optional seal_with chacha20_poly1305_encrypt field_sealed
    open_file allocate show digits_onto base64_encode read_nonce max_id numeric_draft_id all_digits
    is_json stem digits_from insert draft_fields shifted print_object value_word encode64
saved_length = refl

pub room_left :
    (content : Bytes)
    → read saved_state.disk (draft_path dir (codes "1")) ≡ some content
    → length content < 4096
room_left content e = omega (arith, saved_length, ap size_of e)

pub unlocked : selfdec_new object_libs saved_state ≡ (some toy_sk, toy_state.ctx)
unfolding save_draft created_of selfenc_begin load_file lookup equal fill_random kem_encapsulate_key
    seal_draft encrypt_to_b64 seal_optional seal_with chacha20_poly1305_encrypt field_sealed
    open_file allocate show digits_onto base64_encode read_nonce max_id numeric_draft_id all_digits
    is_json stem digits_from insert selfdec_new load_sk_decrypted has_magic
unlocked = refl

read-save_draft_example :
    ShowsDraft
      (read_draft object_libs dir none (codes "1") saved_state).0
      (codes "1")
      bob
      hello
      text
      none
unfolding load_file lookup equal
read-save_draft_example =
    read-save_draft object_libs toy_evp-IsAead toy_blocks-IsBase64 toy_oqs-IsKem object_json-IsJson
      toy_world dir none (some bob) (some hello) none text toy_state saved_state saved_state
      (codes "1") [] [] toy_pk toy_sk toy_state.ctx none refl refl refl draft_saved (omega arith)
      room_left refl unlocked

abbrev pub toy_terminal : Terminal
toy_terminal = record { environment = none; tty = none; interactive = false }

abbrev toy_app : AppConfig
toy_app = record {
  instance_url = some (codes "https://i.example");
  username = some (codes "ann");
  time_format = none;
  time_format_recent = none;
  check_columns = none;
  editor = none;
  no_color = pos 0;
  tz_hours = pos 0;
  default_action = pos 0;
}

abbrev pub toy_setup : Setup
toy_setup = record { plain = 0; debug = 0; no_color = 0; config_dir = dir; app = toy_app }

hello-IsValue : IsValue hello
unfolding trim_left trim_right
hello-IsValue = record { one_line = omega arith; left = refl; right = refl }

edited_reply_kept_example :
    let r =
      save_edited_draft object_libs toy_terminal
        (λ n. toy_world)
        toy_setup
        toy_world
        (reply_template hello text)
        none
        (some bob)
        none
        toy_state in
    ((r.0 ≡ true) × (r.2 ≡ saved_state) × (r.3 ≡ some (codes "1")))
    × ShowsDraft
        (read_draft object_libs dir none (codes "1") saved_state).0
        (codes "1")
        bob
        hello
        text
        none
unfolding skip_newlines all_space load_file lookup equal
edited_reply_kept_example =
    edited_reply_kept object_libs toy_terminal (λ n. toy_world) toy_setup object_json-IsJson
      toy_evp-IsAead toy_blocks-IsBase64 toy_oqs-IsKem toy_world none none bob hello text toy_state
      saved_state saved_state (codes "1") [] [] toy_pk toy_sk toy_state.ctx none hello-IsValue refl
      refl refl refl refl draft_saved (omega arith) room_left refl unlocked
