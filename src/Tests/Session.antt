-- ===== src/Tests/Session.antt =====
-- Runs of src-tauri/src/ssh/auth.rs, src-tauri/src/sshcert.rs and src-tauri/src/x11_forward.rs.
use bifro_ssh.Common.{
  ◌≡◌, ◌≤◌, ◌+◌, refl, true, false, Option, none, some, List, [], ◌∷◌, ◌++◌, map, Text, Bytes,
  codes, text_eq, length, ok, arith, take, drop, leb, if◌then◌else◌,
}
use bifro_ssh.Resolve.{SshAuth, password_auth}
use bifro_ssh.SshCert.{SshKeys}
use bifro_ssh.Auth.{
  Request, start_prompts, send_answers, send_password, failure, Response, accepted, info_request,
  Peers, authenticate, keyboard_interactive,
}
use bifro_ssh.Auth.Secrecy.{Taken}
use bifro_ssh.Auth.SignIn.{authenticate-Taken}
use bifro_ssh.Auth.Bounds.{keyboard_interactive-length}
use bifro_ssh.X11.{XauthEntry, parse_entry, parse_xauthority, parse_display, find_cookie, protocol}
use bifro_ssh.X11.Authority.{
  WrittenEntry, Fits, decoded, write_entries, parse_xauthority-write_entries,
}
use bifro_ssh.X11.Setup.{Header, ready, new_setup, rewrite_setup}
use bifro_ssh.X11.Setup.Genuine.{Carries, rewrite_setup-Carries}
use bifro_ssh.X11.Setup.Written.{rewrite_setup-new_setup}
use bifro_ssh.X11.Serve.{received, X11Session, serve}
use bifro_ssh.X11.Serve.Chunks.{Passes, data_of, serve-Passes}

abbrev no_keys : SshKeys
no_keys = record {
  read_certificate = λ t. none;
  read_private_key = λ t. none;
  decode_secret_key = λ t p. none;
  fingerprint = λ k. k;
}

abbrev asks_for_code : List Request → Request → Option Response
asks_for_code sent (start_prompts user) =
    some (info_request [] [] (record { prompt = codes "Code: "; echo = false } ∷ []))
asks_for_code sent (send_answers answers) = some accepted
asks_for_code sent other = none

-- A server that wants a code after the password, and a user who has it.
abbrev with_code : Peers
with_code = record {
  result = λ sent request. some (failure true);
  response = asks_for_code;
  rsa_hash = none;
  identities = none;
  interactive = true;
  ask = λ sent name instructions prompts. some (codes "123456" ∷ []);
}

abbrev alice : Text
alice = codes "alice"

abbrev secret : SshAuth
secret = password_auth (codes "hunter2")

sign_in_runs : authenticate no_keys with_code alice secret [] ≡ (
  ok tt,
  send_password alice (codes "hunter2")
      ∷ start_prompts alice
      ∷ send_answers (codes "123456" ∷ [])
      ∷ [],
)
unfolding authenticate
sign_in_runs = refl

authenticate-Taken_example :
    Taken no_keys with_code alice secret (authenticate no_keys with_code alice secret []).1
unfolding authenticate
authenticate-Taken_example = authenticate-Taken no_keys with_code alice secret refl

keyboard_interactive-length_example :
    length (keyboard_interactive no_keys with_code alice []).1 ≤ 0 + 21
keyboard_interactive-length_example = keyboard_interactive-length no_keys with_code alice []

abbrev fake_cookie : Bytes
fake_cookie = 1 ∷ 2 ∷ 3 ∷ 4 ∷ 5 ∷ []

abbrev real_cookie : Bytes
real_cookie = 9 ∷ 8 ∷ 7 ∷ 6 ∷ []

abbrev some_header : Header
some_header = record {
  mark = b'B';
  v1 = 0;
  v2 = 0;
  v3 = 11;
  v4 = 0;
  v5 = 0;
  n0 = 0;
  n1 = 0;
  d0 = 0;
  d1 = 0;
  u0 = 0;
  u1 = 0;
}

-- What the server sends: a setup with the fake cookie, and three bytes more.
abbrev sent_setup : Bytes
sent_setup =
    b'B' ∷ 0 ∷ 0 ∷ 11 ∷ 0 ∷ 0 ∷ 0 ∷ 18 ∷ 0 ∷ 5 ∷ 0 ∷ 0 ∷ protocol
    ++ 0 ∷ 0 ∷ fake_cookie
    ++ 0 ∷ 0 ∷ 0 ∷ 50 ∷ 51 ∷ 52 ∷ []

abbrev real_setup : Bytes
real_setup = b'B' ∷ 0 ∷ 0 ∷ 11 ∷ 0 ∷ 0 ∷ 0 ∷ 18 ∷ 0 ∷ 4 ∷ 0 ∷ 0 ∷ protocol ++ 0 ∷ 0 ∷ real_cookie

setup_is_rewritten : rewrite_setup sent_setup fake_cookie (some real_cookie) ≡ ready real_setup 40
unfolding rewrite_setup text_eq
setup_is_rewritten = refl

rewrite_setup-Carries_example : Carries fake_cookie 40 sent_setup
rewrite_setup-Carries_example =
    rewrite_setup-Carries sent_setup fake_cookie (some real_cookie) real_setup 40 setup_is_rewritten

rewrite_setup-new_setup_example :
    rewrite_setup
      (new_setup true some_header (some fake_cookie) ++ 50 ∷ [])
      fake_cookie
      (some real_cookie)
    ≡ ready
        (new_setup true some_header (some real_cookie))
        (length (new_setup true some_header (some fake_cookie)))
rewrite_setup-new_setup_example =
    rewrite_setup-new_setup true some_header fake_cookie (50 ∷ []) (some real_cookie) refl
      (omega arith)

abbrev forwarding : X11Session
forwarding = record { fake = fake_cookie; real = some real_cookie }

-- The setup in two pieces.
abbrev pieces : List Bytes
pieces = take 17 sent_setup ∷ drop 17 sent_setup ∷ []

serve-Passes_example :
    Passes (data_of (map received pieces)) real_setup 40 (serve forwarding (map received pieces))
unfolding rewrite_setup text_eq
serve-Passes_example = serve-Passes forwarding pieces real_setup 40 refl (omega arith)

abbrev local_entry : XauthEntry
local_entry = record {
  family = 256;
  address = codes "host";
  number = codes "0";
  name = protocol;
  cookie = real_cookie;
}

-- ASCII, and a byte that is not has U+FFFD in its place.
abbrev ascii_lossy : Bytes → Text
ascii_lossy = map (λ b. if leb 128 b then 0xfffd else b)

abbrev written_entry : WrittenEntry
written_entry = record {
  family = 256;
  address = 0xff ∷ [];
  number = codes "0";
  name = 0xff ∷ protocol;
  cookie = real_cookie;
}

name_is_decoded : (decoded ascii_lossy written_entry).name ≡ 0xfffd ∷ protocol
name_is_decoded = refl

parse_xauthority-write_entries_example :
    parse_xauthority ascii_lossy (write_entries (written_entry ∷ written_entry ∷ []) (1 ∷ 0 ∷ []))
    ≡ map (decoded ascii_lossy) (written_entry ∷ written_entry ∷ [])
unfolding parse_entry
parse_xauthority-write_entries_example =
    let fits : Fits written_entry =
      (omega arith, omega arith, omega arith, omega arith, omega arith) in
    parse_xauthority-write_entries ascii_lossy (written_entry ∷ written_entry ∷ []) (1 ∷ 0 ∷ [])
      (fits, (fits, tt)) refl

display_is_read :
    parse_display (codes " localhost:10.1 ")
    ≡ some (record { host = some (codes "localhost"); number = 10; screen = 1 })
unfolding parse_display text_eq
display_is_read = refl

cookie_is_found :
    find_cookie
      (local_entry ∷ [])
      (record { host = none; number = 0; screen = 0 })
      (some (codes "host"))
    ≡ some real_cookie
unfolding find_cookie text_eq
cookie_is_found = refl
