-- ===== src/Tests/Config.antt =====
-- Runs of src-tauri/src/sshconfig.rs and osdetect.rs.
use bifro_ssh.Common.{
  ◌≡◌, ◌≢◌, length, arith, refl, Bool, none, some, List, [], ◌∷◌, map, Text, codes, text_eq,
  text_eq_iff,
}
use bifro_ssh.SshConfig.{World, Parse, parse_onto}
use bifro_ssh.SshConfig.Include.{Expansion, include_fuel, expand_includes}
use bifro_ssh.SshConfig.Include.Flat.{expansion, expand_includes-expansion}
use bifro_ssh.SshConfig.Hosts.{IsParse, parse_onto-IsParse}
use bifro_ssh.SshConfig.Chain.{chain_links}
use bifro_ssh.SshConfig.Chain.Linked.{Distinct, IsChain, chain_links-IsChain, chain_links_total}

-- No files; a letter is its own lower case.
abbrev no_files : World
no_files = record {
  to_lowercase = λ t. t;
  home = none;
  join = λ a b. b;
  is_absolute = λ p. Bool.true;
  file_name = λ p. some p;
  parent = λ p. none;
  read_dir = λ p. none;
  read_file = λ p. none;
  path_leb = λ a b. Bool.true;
}

abbrev config : List Text
config = codes "host a *" ∷ codes "port 22" ∷ []

abbrev nothing_parsed : Parse
nothing_parsed = record { hosts = []; current = [] }

parse_onto-IsParse_example : IsParse (parse_onto no_files config nothing_parsed)
parse_onto-IsParse_example = parse_onto-IsParse no_files config nothing_parsed (tt, tt)

-- `ProxyJump a,b`, where each alias is its own server's id.
abbrev two_links : List (Text × Text)
two_links = (codes "t", codes "b") ∷ (codes "b", codes "a") ∷ []

linked : chain_links (codes "t") (codes "a" ∷ codes "b" ∷ []) (λ a. some a) ≡ some two_links
unfolding chain_links text_eq
linked = refl

chain_links-IsChain_example :
    (ids : List Text) × (map (λ a. some a) (codes "a" ∷ codes "b" ∷ []) ≡ map some ids)
    × Distinct (codes "t" ∷ ids)
    × IsChain (codes "t") ids two_links
chain_links-IsChain_example =
    chain_links-IsChain (codes "t") (codes "a" ∷ codes "b" ∷ []) (λ a. some a) two_links linked

another : codes "a" ≢ codes "t"
unfolding text_eq
another = λ e. let same = (text_eq_iff (codes "a") (codes "t")).1 e in cc

chain_links_total_example :
    (links : List (Text × Text)) × (chain_links (codes "t") (codes "a" ∷ []) (λ a. some a)
      ≡ some links)
chain_links_total_example =
    chain_links_total (codes "t") (codes "a" ∷ []) (codes "a" ∷ []) (λ a. some a) (λ e. cc) refl
      ((another, tt), (tt, tt))

abbrev nothing_read : Expansion
nothing_read = record { out = []; included = []; unreadable = [] }

-- A config, and every file there is, that includes itself.
abbrev including_itself : World
including_itself = record no_files { read_file = λ p. some (codes "include f") }

-- It is read sixteen times, and the seventeenth is reported.
abbrev expanded : Expansion
expanded = expand_includes including_itself include_fuel 0 (codes "include f") [] nothing_read

reads_sixteen : (length expanded.included ≡ 16) × (length expanded.unreadable ≡ 1)
unfolding expand_includes
reads_sixteen = (refl, refl)

expand_includes-expansion_example :
    expand_includes including_itself 30 0 (codes "include f") [] nothing_read
    ≡ expansion including_itself 16 (codes "include f") [] nothing_read
expand_includes-expansion_example =
    expand_includes-expansion including_itself 30 (codes "include f") [] nothing_read (omega arith)
