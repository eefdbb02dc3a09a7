-- ===== src/Jump.antt =====
-- Reaching a server through jump hosts: src-tauri/src/jump.rs. What the network does is `Net`; the
-- connections made are the list of events.
pub mod Route
use bifro_ssh.Common.{
  ℕ, suc, ◌+◌, Bool, true, false, Option, none, some, List, [], ◌∷◌, ◌++◌, if◌then◌else◌, ltb,
  length, get_elem?, Text, Result, ok, err,
}
use bifro_ssh.ProxyCommand.{ProxyCommand, ExpandError, expanded}
use bifro_ssh.Resolve.{SshAuth, JumpHop}

abbrev pub max_hops : ℕ
max_hops = 8

pub data JumpError : Type 0 where
  too_long : ℕ → JumpError
  bad_proxy : ExpandError → JumpError
  not_dialled not_verified not_authenticated not_opened : JumpError

unfoldable pub check_chain : List JumpHop → Result JumpError (Unit {0})
check_chain hops = if ltb max_hops (length hops) then err (too_long (length hops)) else ok tt

-- Where the hop at `index` has to connect to.
unfoldable pub dial_target : List JumpHop → ℕ → Text → ℕ → Text × ℕ
dial_target hops index target_host target_port = elim (get_elem? hops (index + 1)) [
  | some next ↦ (next.host, next.port)
  | none ↦ (target_host, target_port)
]

-- What is done to the network, in order.
pub data Event : Type 0 where
  tcp : Text → ℕ → Event
  run_proxy : Text → Event
  verify_hop : Text → ℕ → Event
  sign_in : Text → Text → SshAuth → Event
  open_channel : Text → ℕ → Text → ℕ → Event

-- Which of them succeed, by what was done before.
abbrev pub Net : Type 0
Net = List Event → Event → Bool

abbrev pub Trace : Type 0 → Type 0
Trace A = Result JumpError A × List Event

-- One event, and the rest where it succeeds.
unfoldable pub attempt :
    Net → List Event → Event → JumpError → (List Event → Trace (Unit {0})) → Trace (Unit {0})
attempt net done e why next =
    let rest = next (done ++ e ∷ []) in if net done e then rest else (err why, done ++ e ∷ [])

-- `dial`: the proxy command, or TCP.
unfoldable pub dial :
    Net → Text → ℕ → Option ProxyCommand → (List Event → Trace (Unit {0})) → Trace (Unit {0})
dial net host port none next = attempt net [] (tcp host port) not_dialled next
dial net host port (some proxy) next = elim (expanded proxy) [
  | err e ↦ (err (bad_proxy e), [])
  | ok command ↦ attempt net [] (run_proxy command) not_dialled next
]

module _ (net : Net) (hops : List JumpHop) (target_host : Text) (target_port : ℕ) where
  -- The loop over the hops from `index` on: each is verified and signed in to, and opens a channel
  -- to the next.
  unfoldable pub through : ℕ → List JumpHop → List Event → Trace (Unit {0})
  through index [] done = (ok tt, done)
  through index (hop ∷ rest) done =
      let (next_host, next_port) = dial_target hops index target_host target_port in
      attempt net done (verify_hop hop.host hop.port) not_verified λ d1.
        attempt net d1 (sign_in hop.host hop.username hop.auth) not_authenticated λ d2.
          attempt net d2 (open_channel hop.host hop.port next_host next_port) not_opened
            (through (index + 1) rest)

  unfoldable pub dial_through : List JumpHop → Option ProxyCommand → Trace (Unit {0})
  dial_through [] proxy = dial net target_host target_port proxy (λ done. (ok tt, done))
  dial_through (first ∷ rest) proxy =
      dial net first.host first.port proxy (through 0 (first ∷ rest))

unfoldable pub open_transport :
    Net → List JumpHop → Text → ℕ → Option ProxyCommand → Trace (Unit {0})
unfolding check_chain dial_through
open_transport net hops target_host target_port proxy = elim (check_chain hops) [
  | err e ↦ (err e, [])
  | ok _ ↦ dial_through net hops target_host target_port hops proxy
]
