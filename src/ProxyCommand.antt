-- ===== src/ProxyCommand.antt =====
-- ProxyCommand: `expand`, `plain_word` and `command_line` of src-tauri/src/proxycmd.rs.
pub mod Expand
use bifro_ssh.Common.{
  ℕ, Bool, true, false, ◌&&◌, ◌||◌, Option, none, some, List, [], ◌∷◌, ◌++◌, if◌then◌else◌, ◌==◌,
  leb, any, find, Text, codes, is_whitespace, starts_with, contains, show, Result, ok, err, ◌>>=◌,
}

pub record ProxyCommand : Type 0 where
  pub command : Text
  pub host : Text
  pub port : ℕ
  pub user : Text

-- The value that a token stands for, in a message.
pub data Word : Type 0 where
  host_word user_word : Word

pub data ExpandError : Type 0 where
  leading_dash : Word → ExpandError
  unsafe_char : Word → ℕ → ExpandError
  unknown_token : ℕ → ExpandError
  lone_percent : ExpandError

abbrev pub shell_special : Text
shell_special = codes "'\"`$\\;&|<>(){}[]*?!~#^%"

-- `char::is_control`, the category Cc.
abbrev pub is_control : ℕ → Bool
is_control c = leb c 31 || (leb 127 c && leb c 159)

unfoldable pub is_unsafe : ℕ → Bool
unfolding is_whitespace contains
is_unsafe c = is_whitespace c || is_control c || contains c shell_special

unfoldable pub plain_word : Word → Text → Result ExpandError Text
plain_word what value =
    if starts_with (codes "-") value
    then err (leading_dash what)
    else elim (find is_unsafe value) [ some c ↦ err (unsafe_char what c) | none ↦ ok value ]

module _ (host : Text) (port : ℕ) (user : Text) where
  -- What a token stands for.
  unfoldable pub token : ℕ → Result ExpandError Text
  unfolding plain_word
  token t =
      if t == b'h' || t == b'n'
      then plain_word host_word host
      else if t == b'p'
      then ok (show port)
      else if t == b'r'
      then plain_word user_word user
      else if t == b'%'
      then ok (b'%' ∷ [])
      else err (unknown_token t)

  -- The loop, over the characters that are left.
  unfoldable pub expand_onto : Text → Text → Result ExpandError Text
  expand_onto out [] = ok out
  expand_onto out (c ∷ []) = if c == b'%' then err lone_percent else ok (out ++ c ∷ [])
  expand_onto out (c ∷ t ∷ s) =
      let copied = expand_onto (out ++ c ∷ []) (t ∷ s) in
      let replaced = token t >>= λ w. expand_onto (out ++ w) s in
      if c == b'%' then replaced else copied

unfoldable pub expand : Text → Text → ℕ → Text → Result ExpandError Text
unfolding expand_onto
expand command host port user = expand_onto host port user [] command

unfoldable pub expanded : ProxyCommand → Result ExpandError Text
unfolding expand
expanded p = expand p.command p.host p.port p.user

pub data Platform : Type 0 where
  unix flatpak windows : Platform

abbrev shell : Text → Text → List Text
shell program command = program ∷ codes "-c" ∷ (codes "exec " ++ command) ∷ []

unfoldable pub command_line : Platform → Text → Text × List Text
command_line unix command = (codes "sh", codes "-c" ∷ (codes "exec " ++ command) ∷ [])
command_line flatpak command =
    (codes "flatpak-spawn", codes "--host" ∷ codes "--watch-bus" ∷ shell (codes "sh") command)
command_line windows command = (codes "cmd", codes "/C" ∷ command ∷ [])
