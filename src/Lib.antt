-- ===== src/Lib.antt =====
-- The verification library of the shyake client, the C program under client/src (library in
-- client/src/lib, command line in client/src/cli). The servers and the web client are other
-- programs; the client sees them as the answers of a network.
--
-- How the parts interact. A context (client/src/lib/libshyake.c, Context) holds the instance, the
-- config directory, the passphrases and the last error. Secret keys are files of the config
-- directory, plain or sealed under a passphrase (passphrase.c, KeyFile). A mail, a draft or a file
-- is sealed with a random symmetric key (crypto_ops.c and shyake_crypto.c, Crypto), which is
-- wrapped for the recipient's KEM key; that key comes from the instance (network.c, Network) and is
-- trusted on first use (known_hosts.c, KnownHosts). An account begins with two key pairs and a
-- registration (libshyake.c, Register), changes its keys and ends (account.c, Account); mails are
-- sent, listed, fetched, saved and found again by their references (mail.c, Mail). Whole files are
-- sealed by enc_dec.c (EncFile). Requests are signed (network.c, Network/Requests) and carry a
-- proof of work (libshyake.c, Pow). The command line reads the config file (main.c, Config),
-- composes subjects (main.c, Compose), cuts what it prints to the terminal (display.c, Display),
-- and updates itself (update.c, Update). A command (main.c, Cli) opens the library, asks for the
-- passphrase (prompt.c), calls one or a few of these operations, says how they ended, and keeps as
-- a draft (drafts.c, Drafts) what could not be sent.
--
-- Which file models what:
-- - Base and its children: names passed on, buffers as lists of bytes, lists, options, XOR,
--   decimals.
-- - Wire: write_u32le, read_u32le and reads from a FILE as the list of the bytes to come.
-- - Os: files by path, a device that takes a bounded number of bytes, /dev/urandom as a list of
--   answers (an empty list: it cannot be opened); save_file, load_file.
-- - Context: struct shyake_ctx, set_error, clear_error, shyake_init_ctx, the passphrase setters.
--   Context/Paths: that different names of the config directory are different files.
-- - Client: the libraries, the outside world (libcurl, the clock, directories) and the state with
--   which the operations work. An operation gives its code, the request that it sent, and the state
--   behind it.
-- - Crypto/Interface: OpenSSL's and liboqs's calls as parameters, and the laws that are documented.
--   Crypto/Base64, ChaCha, Seal and Kem: the functions of those names, each with its RoundTrip.
--   Crypto/Own: shyake_selfenc_begin and shyake_selfdec_key; Own/RoundTrip is about the two.
-- - KeyFile: save_sk_encrypted, load_sk_decrypted, sk_file_is_encrypted (prompt.c). RoundTrip,
--   Failures, Elsewhere (a save changes no other file).
-- - KnownHosts: get_known_host, add_known_host, update_known_host; Scan has fgets and sscanf, Lines
--   the printed lines, Refinement the specification as an ordered list of entries, Fingerprint
--   shyake_fingerprint; Fingerprint/Given: the key that an instance gives; Fingerprint/Updating is
--   about a comparison after an update.
-- - Network: the reasons that are shown; Lookup: fetch_recipient_pubkey and instance_protocol.
--   cJSON, a vendored copy, is the parameter Json (Network/Objects: what a printed object is parsed
--   as), libcurl the parameter Net (GET) or World (any request). Requests:
--   create_signed_headers_body and its two callers; Requests/Signing says what it leaves alone,
--   Verifying what a server finds in the headers.
-- - Register: shyake_generate_keys and shyake_register; Pair and Generation are about the former.
-- - Account: shyake_block, shyake_list_blocks, shyake_rotate, shyake_destroy; Rotation says when
--   keys are replaced, NewKeys that they are loaded later, Ending what shyake_destroy leaves.
-- - Mail: references; Send: send_mail, with Fields (what is sealed, signed and printed), Posted
--   (what a mail that was sent rests on), Trust and Delivery. Read: shyake_fetch, shyake_check_one
--   and shyake_burn; Read/Opening is about a mail that was sent. Lists: shyake_check. Saved: the
--   saved mails. Find: shyake_find_ref; Search and Found. References: what a reference looks like.
-- - Drafts: reading and removing a draft. Saving: cli_save_draft. Identifier: the 100 identifiers
--   that it tries. Listing: cli_list_drafts, with qsort as a parameter. Saving/Written: what a save
--   has written; RoundTrip: that it is read.
-- - EncFile: shyake_enc_file and shyake_dec_file; RoundTrip is about the format, Delivery about
--   files.
-- - Pow: shyake_mint_pow; Bits reads its test as a bound on a number, Search is about the loop.
-- - Update: cli_self_update and what it calls; Version: parse_ver and cli_version_cmp; Verified.
-- - Display: Utf8 (utf8_next, cp_width, utf8_display_width), Width, Truncate (utf8_truncate), Wrap
--   (cli_print_word_wrap), Timestamp (cli_format_timestamp, with the calendar and strftime as an
--   argument), Fingerprint (cli_print_fingerprint_hex, cli_render_fingerprint), Randomart
--   (cli_print_randomart), with Walking about its grid.
-- - Compose: subject_problem, reply_subject, build_version_url, resolve_editor. Scissors:
--   with_scissors, after_scissors, body_line; Cutting is about the first two. Template:
--   parse_compose_buffer and the templates that main.c prints; Reading.
-- - Config: trim_whitespace, read_config, update_config_user_and_instance; Setting; Columns:
--   parse_check_columns.
-- - Cli: what a command finds, prints and leaves, and the functions that print a failure. Prompt:
--   prompt.c. Session: how a command opens the library; Session/Opening: that it fails there or
--   runs. Send: send, rescue_draft and the sending of a draft; Exits is about how they end, Draft
--   about what of a draft is sent, Rescue about a mail that was not sent. Editor: launch_editor,
--   write_temp, edit_draft. Reply: save_edited_draft, offer_reply_send; Reply/Commands:
--   format_original, reply, compose; Kept is about a reply that was edited. Manage: burn, save,
--   block, unblock, blocklist, rotate, register, destroy; Manage/Ending is about destroy. Tools:
--   fingerprint, enc, dec, update. Init: cmd_init and mkdir_p of init.c.
-- - Tests: small stand-ins for the parameters, and the theorems at concrete inputs.
--
-- Conventions. A string is the list of its bytes before the NUL, a null pointer is none, a return
-- code of 0 or -1 is a Boolean, an enumeration is a data type. Bytes are natural numbers; where a
-- number is cast to 32 or 64 bits the wrap is written out. Memory is always there. Code that is not
-- the repository's (OpenSSL, liboqs, libcurl, cJSON, scrypt, SHA-1, SHA-256, the shell) is an
-- argument. A length that base64_decode takes below 0 wraps to 64 bits, and what is then read
-- beyond the decoded bytes is the memory behind the buffer, an argument too (behind of Blocks);
-- texts are short enough that no other int overflows (below 2^30 bytes). Two paths of the config
-- directory that are cut to 512 bytes may be the same file: update_known_host opens them in the
-- order of the source.
--
-- Bounds and fuel. The loops over text recurse on the text. utf8_display_width and the scan of
-- utf8_truncate take one round for each byte, which is enough since a round consumes at least one
-- (Display/Width). cli_print_word_wrap prints at most a line for each byte (Display/Wrap).
-- shyake_mint_pow has 2^32 - 1 rounds, the bound of its own counter. Decimal and hexadecimal digits
-- take more rounds than a number has digits.
--
-- A pointer that the code follows without a test (an item that an answer lacks, the signature
-- object of send_mail and shyake_register) is an outer none: the program ends there. The clock is
-- read once for an operation (a command of several operations has a world W n for the n-th), and
-- liboqs draws its own randomness, the n-th draw by coins n.
--
-- A command takes what getopt makes of its arguments as options, the shell, mkstemp, mkdir and the
-- terminal as arguments, and its status is true for EXIT_SUCCESS. What it prints is the list of its
-- texts in their order.
--
-- Not modelled: the tables, the mail header and detail and the pager of display.c, the commands
-- check, fetch, read and whoami, the dispatch of commands with the global flags, get_config_dir,
-- man.c, and what only frees or clears memory.
pub mod Account
pub mod Base
pub mod Wire
pub mod Os
pub mod Context
pub mod Crypto
pub mod KeyFile
pub mod Mail
pub mod Network
pub mod Drafts
pub mod EncFile
pub mod KnownHosts
pub mod Pow
pub mod Register
pub mod Update
pub mod Display
pub mod Client
pub mod Cli
pub mod Compose
pub mod Config
pub mod Tests
