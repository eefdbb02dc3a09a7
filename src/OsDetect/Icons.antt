-- ===== src/OsDetect/Icons.antt =====
-- The answers that there are.
use bifro_ssh.Common.{
  Bool, true, false, if◌then◌else◌, List, [], ◌∷◌, any, is_empty, ◌||◌, not, Text, codes, text_eq,
  trim, lines,
}
use mathlib.Core.List.{reverse}
use bifro_ssh.OsDetect.{
  map_distro_id, has_part, is_windows_shell, read_release, from_uname, parse_os_release,
}

-- The names that there is an icon for.
pub data IsIcon : Text → Type 0 where
  ubuntu : IsIcon (codes "ubuntu")
  debian : IsIcon (codes "debian")
  fedora : IsIcon (codes "fedora")
  arch : IsIcon (codes "arch")
  raspberrypi : IsIcon (codes "raspberrypi")
  freebsd : IsIcon (codes "freebsd")
  linux : IsIcon (codes "linux")
  windows : IsIcon (codes "windows")
  macos : IsIcon (codes "macos")

if-IsIcon : (b : Bool) (s t : Text) → IsIcon s → IsIcon t → IsIcon (if b then s else t)
if-IsIcon true s t h k = h
if-IsIcon false s t h k = k

map_distro_id-IsIcon : (id : Text) → IsIcon (map_distro_id id)
unfolding map_distro_id
map_distro_id-IsIcon id = if-IsIcon (text_eq id (codes "ubuntu")) _ _ ubuntu (
    if-IsIcon (text_eq id (codes "debian")) _ _ debian (
      if-IsIcon (text_eq id (codes "fedora")) _ _ fedora (
        if-IsIcon
          (text_eq id (codes "arch")
            || text_eq id (codes "manjaro")
            || text_eq id (codes "endeavouros")
            || text_eq id (codes "garuda"))
          _ _ arch
          (if-IsIcon (text_eq id (codes "raspbian") || text_eq id (codes "raspios")) _ _ raspberrypi
            (if-IsIcon (text_eq id (codes "freebsd")) _ _ freebsd linux)))))

module _ (to_lowercase : Text → Text) where
  from_uname-IsIcon : (raws : List Text) → IsIcon (from_uname to_lowercase raws)
  unfolding from_uname
  from_uname-IsIcon [] = linux
  from_uname-IsIcon (raw ∷ raws) =
      let word = to_lowercase (trim raw) in
      if-IsIcon (text_eq word (codes "darwin")) _ _ macos
        (if-IsIcon (text_eq word (codes "freebsd")) _ _ freebsd (from_uname-IsIcon raws))

  -- Whatever a host prints, the answer is a name that there is an icon for.
  pub parse_os_release-IsIcon : (output : Text) → IsIcon (parse_os_release to_lowercase output)
  unfolding parse_os_release
  parse_os_release-IsIcon output =
      let r =
        read_release to_lowercase (lines output)
          (record { id = []; name = []; pretty_name = [] }) in
      if-IsIcon
        (any (λ raw. has_part (codes "raspberry pi") (to_lowercase (trim raw))) (lines output)) _ _
        raspberrypi
        (if-IsIcon (not (is_empty r.id)) _ _ (map_distro_id-IsIcon r.id) (
          if-IsIcon
            (has_part (codes "raspberry") r.name || has_part (codes "raspberry") r.pretty_name) _ _
            raspberrypi
            (if-IsIcon (is_windows_shell to_lowercase output) _ _ windows
              (from_uname-IsIcon (reverse (lines output))))))
