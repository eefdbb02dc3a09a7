-- ===== src/SshConfig.antt =====
-- The hosts of an OpenSSH client config: src-tauri/src/sshconfig.rs. Paths are text; what the file
-- system, `std::path`, the crate `dirs` and the Unicode tables give is `World`.
pub mod Include
pub mod Hosts
pub mod Chain
use bifro_ssh.Common.{
  ℕ, zero, suc, Bool, true, false, ◌&&◌, ◌||◌, not, Option, none, some, List, [], ◌∷◌, ◌++◌,
  if◌then◌else◌, any, is_some, is_empty, ◌==◌, Text, codes, text_eq, contains, starts_with,
  strip_prefix, is_whitespace, trim, trim_by, trim_start_by, lines, split, split_once,
  split_once_by, split_whitespace, rsplit_once, length, map, parse_u16, leb, ◌+◌,
}

-- An entry of a directory: its name where that is UTF-8, and its type where it can be read.
pub record DirEntry : Type 0 where
  pub name : Option Text
  pub is_dir : Option Bool
  pub path : Text

-- `home` is `dirs::home_dir`. `read_dir` is `none` where the directory does not open, and an entry
-- is `none` where it cannot be read. `path_leb` is the order of paths.
pub record World : Type 0 where
  pub to_lowercase : Text → Text
  pub home : Option Text
  pub join : Text → Text → Text
  pub is_absolute : Text → Bool
  pub file_name : Text → Option Text
  pub parent : Text → Option Text
  pub read_dir : Text → Option (List (Option DirEntry))
  pub read_file : Text → Option Text
  pub path_leb : Text → Text → Bool

pub record SshConfigHost : Type 0 where
  pub alias : Text
  pub hostname : Text
  pub user : Option Text
  pub port : Option ℕ
  pub identity_file : Option Text
  pub certificate_file : Option Text
  pub proxy_jump : Option Text
  pub proxy_command : Option Text

pub record SshConfigScan : Type 0 where
  pub hosts : List SshConfigHost
  pub included_files : List Text
  pub unreadable_includes : List Text

abbrev pub or_default : {A : Type 0} → Option A → A → A
or_default none d = d
or_default (some a) d = a

unfoldable pub is_pattern : Text → Bool
unfolding contains strip_prefix
is_pattern alias = contains b'*' alias || contains b'?' alias || starts_with (codes "!") alias

-- `strip_prefix("~/").or_else(|| strip_prefix("~\\"))`
abbrev under_home : Text → Option Text
under_home value = elim (strip_prefix (codes "~/") value) [
  | some rest ↦ some rest
  | none ↦ strip_prefix (codes "~\\") value
]

abbrev in_home : World → Text → Text → Text
in_home world value rest = elim world.home [ none ↦ value | some home ↦ world.join home rest ]

unfoldable pub expand_home : World → Text → Text
unfolding strip_prefix
expand_home world value = elim (under_home value) [
  | none ↦ value
  | some rest ↦ in_home world value rest
]

-- The two halves of a directive: at a `=` that no white space comes before, else at white space.
unfoldable pub halves : Text → Option (Text × Text)
unfolding split_once trim is_whitespace
halves line =
    let at_space = split_once_by is_whitespace line in
    elim (split_once b'=' line) [
      | none ↦ at_space
      | some (k, v) ↦ if any is_whitespace (trim k) then at_space else some (k, v)
    ]

-- A proxy command keeps its quotes.
abbrev unquoted : Text → Text → Text
unquoted key value =
    if text_eq key (codes "proxycommand") then trim value else trim_by (λ c. c == b'"') (trim value)

abbrev non_empty : Text → Text → Option (Text × Text)
non_empty key value = if is_empty value then none else some (key, value)

unfoldable pub split_directive : World → Text → Option (Text × Text)
unfolding halves trim trim_by text_eq
split_directive world raw =
    let line = trim raw in
    if is_empty line || starts_with (codes "#") line then none else elim (halves line) [
      | none ↦ none
      | some (k, v) ↦ let key = world.to_lowercase (trim k) in non_empty key (unquoted key v)
    ]

-- The list of hosts so far, and the places in it of those that take the directives to come.
pub record Parse : Type 0 where
  pub hosts : List SshConfigHost
  pub current : List ℕ

abbrev pub new_host : Text → SshConfigHost
new_host alias = record {
  alias = alias;
  hostname = alias;
  user = none;
  port = none;
  identity_file = none;
  certificate_file = none;
  proxy_jump = none;
  proxy_command = none;
}

-- `hosts[i]`; out of range the source would panic, which it never does.
unfoldable pub update_at :
    ℕ → (SshConfigHost → SshConfigHost) → List SshConfigHost → List SshConfigHost
update_at i f [] = []
update_at zero f (h ∷ hs) = f h ∷ hs
update_at (suc i) f (h ∷ hs) = h ∷ update_at i f hs

-- `Some(value)` where nothing stands yet.
abbrev first_given : Option Text → Text → Option Text
first_given none value = some value
first_given (some v) value = some v

-- One directive, on one host.
unfoldable pub set_directive : World → Text → Text → SshConfigHost → SshConfigHost
unfolding text_eq expand_home
set_directive world key value host =
    if text_eq key (codes "hostname")
    then record host { hostname = value }
    else if text_eq key (codes "user")
    then record host { user = some value }
    else if text_eq key (codes "port")
    then record host { port = parse_u16 value }
    else if text_eq key (codes "identityfile")
    then record host { identity_file = first_given host.identity_file (expand_home world value) }
    else if text_eq key (codes "certificatefile")
    then record host {
      certificate_file = first_given host.certificate_file (expand_home world value);
    }
    else if text_eq key (codes "proxyjump")
    then record host { proxy_jump = some value }
    else if text_eq key (codes "proxycommand")
    then record host { proxy_command = first_given host.proxy_command value }
    else host

-- The names on a `Host` line.
unfoldable pub add_aliases : List Text → Parse → Parse
unfolding is_pattern
add_aliases [] s = s
add_aliases (alias ∷ rest) s =
    let added : Parse = record {
      hosts = s.hosts ++ new_host alias ∷ [];
      current = s.current ++ length s.hosts ∷ [];
    } in
    add_aliases rest (if is_pattern alias then s else added)

unfoldable pub update_all :
    (SshConfigHost → SshConfigHost) → List ℕ → List SshConfigHost → List SshConfigHost
unfolding update_at
update_all f [] hosts = hosts
update_all f (i ∷ is) hosts = update_all f is (update_at i f hosts)

-- The `match` on the keyword.
unfoldable pub apply_directive : World → Text → Text → Parse → Parse
unfolding add_aliases update_all set_directive split_whitespace
apply_directive world key value s =
    if text_eq key (codes "include")
    then s
    else if text_eq key (codes "host")
    then add_aliases (split_whitespace value) (record s { current = [] })
    else if text_eq key (codes "match")
    then record s { current = [] }
    else record s { hosts = update_all (set_directive world key value) s.current s.hosts }

unfoldable pub parse_onto : World → List Text → Parse → Parse
unfolding apply_directive split_directive
parse_onto world [] s = s
parse_onto world (line ∷ rest) s = elim (split_directive world line) [
  | none ↦ parse_onto world rest s
  | some (key, value) ↦ parse_onto world rest (apply_directive world key value s)
]

unfoldable pub parse : World → Text → SshConfigScan
unfolding parse_onto lines
parse world content = record {
  hosts = (parse_onto world (lines content) (record { hosts = []; current = [] })).hosts;
  included_files = [];
  unreadable_includes = [];
}

abbrev ascii_lower : ℕ → ℕ
ascii_lower c = if leb 65 c && leb c 90 then c + 32 else c

abbrev first_piece : List Text → Text
first_piece [] = []
first_piece (s ∷ _) = s

-- Past the last `@`, where there is one.
abbrev after_user : Text → Text
after_user hop = elim (rsplit_once b'@' hop) [ none ↦ hop | some (_, rest) ↦ rest ]

-- A bracketed address keeps its colons; else a port is dropped at the last one.
abbrev without_port : Text → Text
without_port s =
    if starts_with (codes "[") s
    then trim_start_by (λ c. c == b'[') (first_piece (split b']' s))
    else elim (rsplit_once b':' s) [ none ↦ s | some (host, _) ↦ host ]

unfoldable pub hop_host : Text → Option Text
unfolding trim rsplit_once split trim_start_by text_eq strip_prefix
hop_host raw =
    let hop = trim raw in
    let host = without_port (after_user hop) in
    if is_empty hop || text_eq (map ascii_lower hop) (codes "none")
    then none
    else if is_empty host
    then none
    else some host

-- All of them, or none.
unfoldable pub hop_hosts : List Text → Option (List Text)
unfolding hop_host
hop_hosts [] = some []
hop_hosts (hop ∷ hops) = elim (hop_host hop) [
  | none ↦ none
  | some host ↦ elim (hop_hosts hops) [ none ↦ none | some hosts ↦ some (host ∷ hosts) ]
]

unfoldable pub jump_aliases : Text → List Text
unfolding hop_hosts split
jump_aliases proxy_jump = or_default (hop_hosts (split b',' proxy_jump)) []
