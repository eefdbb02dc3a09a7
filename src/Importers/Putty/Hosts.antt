-- ===== src/Importers/Putty/Hosts.antt =====
-- From the settings of PuTTY's sessions to hosts: src-tauri/src/importers/putty.rs.
use bifro_ssh.Common.{
  ℕ, true, false, Option, none, some, List, [], ◌∷◌, ◌++◌, if◌then◌else◌, ◌==◌, Text, Bytes, codes,
  trim, trim_by, trim_end_by, lines, split_once, Result, ok, err,
}
use bifro_ssh.Importers.{
  putty, ForeignHost, ForeignScan, port_or_default, non_empty, eq_ignore_ascii_case,
}
use bifro_ssh.Importers.Putty.{
  sessions, split_at, has_sessions, second_piece, decode_utf16_or_else, unescape_name, Settings,
  no_settings, take_setting,
}

abbrev or : {A : Type 0} → Option A → A → A
or none b = b
or (some a) b = a

abbrev port_of : Option Text → ℕ
port_of none = 22
port_of (some p) = port_or_default p

abbrev named : Option Text → Text → Text
named name what = or name (codes "A session") ++ codes " " ++ what

abbrev other_protocol : Option Text → Option Text
other_protocol none = none
other_protocol (some p) = if eq_ignore_ascii_case p (codes "ssh") then none else some p

-- By the protocol that is not ssh, and the address.
unfoldable pub host_by :
    Settings → Option Text → Option Text → Option Text → Result Text ForeignHost
unfolding port_or_default
host_by s name (some protocol) address =
    err (named name (codes "is " ++ protocol ++ codes ", not ssh"))
host_by s name none none = err (named name (codes "has no address"))
host_by s name none (some host) = ok (record {
  name = or name host;
  host = host;
  port = port_of s.port;
  username = s.username;
  password = none;
  group = none;
  tags = [];
  notes = none;
})

unfoldable pub into_host : Settings → Option Text → Result Text ForeignHost
unfolding host_by
into_host s name = host_by s name (other_protocol s.protocol) s.host

abbrev take_pair : Settings → Option (Text × Text) → Settings
take_pair s none = s
take_pair s (some (key, value)) = take_setting s (trim key) (trim value)

unfoldable pub read_settings : Settings → List Text → Settings
unfolding split_once take_setting trim
read_settings s [] = s
read_settings s (line ∷ more) = read_settings (take_pair s (split_once b'=' line)) more

-- The name of a session's file, and nothing where reading it panics.
abbrev file_name : Option Text → Option (Option Text)
file_name none = some none
file_name (some name) = elim (unescape_name name) [ none ↦ none | some n ↦ some (some n) ]

unfoldable pub parse_session : Text → Option Text → Option (Result Text ForeignHost)
unfolding lines read_settings into_host unescape_name
parse_session text name = elim (file_name name) [
  | none ↦ none
  | some n ↦ some (into_host (read_settings no_settings (lines text)) n)
]

abbrev pub Found : Type 0
Found = List ForeignHost × List Text

abbrev pub add : Found → Result Text ForeignHost → Found
add (hosts, skipped) (ok host) = (hosts ++ host ∷ [], skipped)
add (hosts, skipped) (err why) = (hosts, skipped ++ why ∷ [])

-- The session that the loop is in, and what it found before.
abbrev finish : Option (Text × Settings) → Found → Found
finish none f = f
finish (some (name, s)) f = add f (into_host s (some name))

abbrev section_name : Text → Option Text
section_name rest = elim (second_piece sessions (trim_end_by (λ c. c == b']') rest)) [
  | none ↦ none
  | some name ↦ non_empty name
]

-- The session that a section begins, if it is one.
unfoldable pub begin_section : Text → Option (Option (Text × Settings))
unfolding split_at unescape_name
begin_section rest = elim (section_name rest) [
  | none ↦ some none
  | some name ↦ elim (unescape_name name) [ none ↦ none | some n ↦ some (some (n, no_settings)) ]
]

abbrev in_session : Option (Text × Settings) → Text → Option (Text × Settings)
in_session none line = none
in_session (some (name, s)) line = elim (split_once b'=' line) [
  | none ↦ some (name, s)
  | some (key, value) ↦ some (name, take_setting s (trim_by (λ c. c == 34) (trim key)) (trim value))
]

unfoldable pub reg_lines : Option (Text × Settings) → Found → List Text → Option Found
unfolding trim trim_by into_host begin_section split_once take_setting
reg_lines current f [] = some (finish current f)
reg_lines current f (raw ∷ more) = elim (trim raw) [
  | [] ↦ reg_lines current f more
  | c ∷ rest ↦ elim (c == b'[') [
    | true ↦ elim (begin_section rest) [
      | none ↦ none
      | some next ↦ reg_lines next (finish current f) more
    ]
    | false ↦ reg_lines (in_session current (c ∷ rest)) f more
  ]
]

unfoldable pub parse_reg : Text → Option Found
unfolding lines reg_lines
parse_reg text = reg_lines none ([], []) (lines text)

-- No hosts, and nothing to say of them, is an error.
abbrev scanned : Found → Option ForeignScan
scanned ([], []) = none
scanned (hosts, skipped) = some (record { source = putty; hosts = hosts; skipped = skipped })

abbrev lone : Option (Result Text ForeignHost) → Option Found
lone none = none
lone (some r) = some (add ([], []) r)

unfoldable pub parse : Bytes → Option (Option ForeignScan)
unfolding decode_utf16_or_else split_at parse_reg parse_session
parse bytes =
    let text = decode_utf16_or_else bytes in
    elim (if has_sessions text then parse_reg text else lone (parse_session text none)) [
      | none ↦ none
      | some found ↦ some (scanned found)
    ]
