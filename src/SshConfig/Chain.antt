-- ===== src/SshConfig/Chain.antt =====
-- `chain_links` of src-tauri/src/sshconfig.rs: the links that a jump chain is saved as. The map from
-- aliases to saved servers is a function.
pub mod Linked
use bifro_ssh.Common.{
  Bool, true, false, Option, none, some, List, [], ◌∷◌, ◌++◌, if◌then◌else◌, Text, text_eq, any,
}
use mathlib.Core.List.{reverse}

abbrev pub has_id : Text → List Text → Bool
has_id id = any (λ s. text_eq s id)

-- `collect` into an option.
unfoldable pub hop_ids : (Text → Option Text) → List Text → Option (List Text)
hop_ids by_alias [] = some []
hop_ids by_alias (h ∷ hs) = elim (by_alias h) [
  | none ↦ none
  | some id ↦ elim (hop_ids by_alias hs) [ none ↦ none | some ids ↦ some (id ∷ ids) ]
]

-- The loop that refuses a server met before.
unfoldable pub none_twice : List Text → List Text → Bool
none_twice seen [] = true
none_twice seen (id ∷ ids) =
    let rest = none_twice (seen ++ id ∷ []) ids in if has_id id seen then false else rest

-- The loop over the hops from the last.
unfoldable pub links_from : Text → List Text → List (Text × Text)
links_from reached [] = []
links_from reached (through ∷ rest) = (reached, through) ∷ links_from through rest

unfoldable pub chain_links : Text → List Text → (Text → Option Text) → Option (List (Text × Text))
unfolding hop_ids none_twice links_from
chain_links server_id [] by_alias = none
chain_links server_id (h ∷ hs) by_alias = elim (hop_ids by_alias (h ∷ hs)) [
  | none ↦ none
  | some ids ↦
      if none_twice (server_id ∷ []) ids then some (links_from server_id (reverse ids)) else none
]
