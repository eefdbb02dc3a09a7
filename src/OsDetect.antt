-- ===== src/OsDetect.antt =====
-- Which system a host runs, by what its shell printed: src-tauri/src/osdetect.rs. The parameter is
-- `str::to_lowercase`.
pub mod Icons
use bifro_ssh.Common.{
  Bool, true, false, ◌||◌, not, Option, none, some, List, [], ◌∷◌, if◌then◌else◌, any, is_empty,
  ◌==◌, Text, codes, text_eq, starts_with, strip_prefix, trim, trim_by, lines,
}
use mathlib.Core.List.{reverse}

-- The icon of a distribution.
unfoldable pub map_distro_id : Text → Text
map_distro_id id =
    if text_eq id (codes "ubuntu")
    then codes "ubuntu"
    else if text_eq id (codes "debian")
    then codes "debian"
    else if text_eq id (codes "fedora")
    then codes "fedora"
    else if text_eq id (codes "arch")
        || text_eq id (codes "manjaro")
        || text_eq id (codes "endeavouros")
        || text_eq id (codes "garuda")
    then codes "arch"
    else if text_eq id (codes "raspbian") || text_eq id (codes "raspios")
    then codes "raspberrypi"
    else if text_eq id (codes "freebsd")
    then codes "freebsd"
    else codes "linux"

-- `str::contains` on a string.
unfoldable pub has_part : Text → Text → Bool
unfolding strip_prefix
has_part part [] = starts_with part []
has_part part (c ∷ s) = starts_with part (c ∷ s) || has_part part s

-- The last values of the three fields, or empty.
pub record Release : Type 0 where
  pub id : Text
  pub name : Text
  pub pretty_name : Text

module _ (to_lowercase : Text → Text) where
  unfoldable pub is_windows_shell : Text → Bool
  unfolding has_part
  is_windows_shell output =
      let lower = to_lowercase output in
      has_part (codes "microsoft windows") lower
      || has_part (codes "is not recognized as an internal or external command") lower
      || has_part (codes "is not recognized as the name of a cmdlet") lower

  -- What follows the field's name, unquoted; else the value before.
  abbrev field : Text → Text → Text → Text
  field label line before = elim (strip_prefix label line) [
    | none ↦ before
    | some v ↦ to_lowercase (trim_by (λ c. c == b'"') v)
  ]

  unfoldable pub read_release : List Text → Release → Release
  unfolding trim trim_by strip_prefix
  read_release [] r = r
  read_release (raw ∷ raws) r =
      let line = trim raw in
      read_release raws (record {
        id = field (codes "ID=") line r.id;
        name = field (codes "NAME=") line r.name;
        pretty_name = field (codes "PRETTY_NAME=") line r.pretty_name;
      })

  -- `uname -s`, from the last line up.
  unfoldable pub from_uname : List Text → Text
  unfolding trim text_eq
  from_uname [] = codes "linux"
  from_uname (raw ∷ raws) =
      let word = to_lowercase (trim raw) in
      let rest = from_uname raws in
      if text_eq word (codes "darwin")
      then codes "macos"
      else if text_eq word (codes "freebsd")
      then codes "freebsd"
      else rest

  unfoldable pub parse_os_release : Text → Text
  unfolding read_release from_uname is_windows_shell map_distro_id lines
  parse_os_release output =
      let r = read_release (lines output) (record { id = []; name = []; pretty_name = [] }) in
      if any (λ raw. has_part (codes "raspberry pi") (to_lowercase (trim raw))) (lines output)
      then codes "raspberrypi"
      else if not (is_empty r.id)
      then map_distro_id r.id
      else if has_part (codes "raspberry") r.name || has_part (codes "raspberry") r.pretty_name
      then codes "raspberrypi"
      else if is_windows_shell output
      then codes "windows"
      else from_uname (reverse (lines output))
