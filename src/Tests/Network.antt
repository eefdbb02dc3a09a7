-- ===== src/Tests/Network.antt =====
-- Runs of src-tauri/src/socks5.rs, proxycmd.rs, jump.rs and commands/resolve.rs.
use bifro_ssh.Common.{
  ◌≡◌, ◌↔◌, ◌≤◌, refl, true, none, some, List, [], ◌∷◌, Text, Bytes, codes, ok, All, any, ◌==◌,
  from_utf8, text_eq, join, show,
}
use bifro_ssh.Socks5.{Credentials, Done, handshake, ipv4_text}
use bifro_ssh.Socks5.Login.{login_bytes, handshake-login}
use bifro_ssh.Socks5.Connect.{at, login, Address, address_bytes, handshake-client}
use bifro_ssh.ProxyCommand.{expand}
use bifro_ssh.ProxyCommand.Expand.{Spells, IsSafe, pieces_text, Piece, expand_iff}
use bifro_ssh.Models.Saved.{Server, AppData, empty_data}
use bifro_ssh.Tests.Records.{blank_server}
use bifro_ssh.Resolve.{
  server_password, password_auth, agent_auth, Secrets, JumpHop, find_server, resolve_auth,
  server_target, ServerTarget,
}
use bifro_ssh.Resolve.Secrecy.{IsStoredOn, server_target-password}
use bifro_ssh.Jump.{Net, Event, max_hops, open_transport, dial, attempt, through, dial_target}
use bifro_ssh.Jump.Route.{FirstEvent, hop_events, open_transport-route}

abbrev plain : Bytes → Text
plain b = b

abbrev creds : Credentials
creds = record { username = codes "u"; password = codes "p" }

-- What the client sends: its greeting, its login, and where it wants to go.
abbrev sent : Bytes
sent = 5 ∷ 1 ∷ 2 ∷ login (some creds) (5 ∷ 1 ∷ 0 ∷ address_bytes (Address.ipv4 10 0 0 1) 0 80 [])

handshake-client_example :
    handshake plain (some creds) (at sent [])
    ≡ Done.ok (codes "10.0.0.1", 80) (at [] (5 ∷ 2 ∷ 1 ∷ 0 ∷ []))
unfolding ipv4_text join show
handshake-client_example =
    handshake-client plain (some creds) (2 ∷ []) (Address.ipv4 10 0 0 1) 0 80 0 [] [] refl

let_in :
    handshake plain (some creds) (at sent [])
    ≡ Done.ok (codes "10.0.0.1", 80) (at [] (5 ∷ 2 ∷ 1 ∷ 0 ∷ []))
unfolding ipv4_text join show
let_in = handshake-client plain (some creds) (2 ∷ []) (Address.ipv4 10 0 0 1) 0 80 0 [] [] refl

handshake-login_example :
    (methods rest : Bytes) × (any (λ m. m == 2) methods ≡ true)
    × (sent ≡ login_bytes methods creds rest)
handshake-login_example =
    handshake-login creds plain (at sent []) (at [] (5 ∷ 2 ∷ 1 ∷ 0 ∷ [])) (codes "10.0.0.1", 80)
      let_in

expand_iff_example :
    (expand (codes "nc %h %p") (codes "h") 22 (codes "u") ≡ ok (codes "nc h 22")) ↔ (
      (ps : List Piece) × Spells (codes "nc %h %p") ps
      × All (IsSafe (codes "h") 22 (codes "u")) ps
      × (codes "nc h 22" ≡ pieces_text (codes "h") 22 (codes "u") ps))
expand_iff_example = expand_iff (codes "h") 22 (codes "u") (codes "nc %h %p") (codes "nc h 22")

-- One jump host, and a network that lets everything through.
abbrev bastion : JumpHop
bastion = record { host = codes "b"; port = 22; username = codes "u"; auth = agent_auth none }

abbrev open_net : Net
open_net done e = true

opened :
    open_transport open_net (bastion ∷ []) (codes "h") 22 none
    ≡ (ok tt, Event.tcp (codes "b") 22 ∷ hop_events (codes "h") 22 (bastion ∷ []))
unfolding open_transport dial attempt through dial_target
opened = refl

open_transport-route_example :
    (1 ≤ max_hops)
    × ((first : Event) × FirstEvent (codes "b") 22 none first
        × (Event.tcp (codes "b") 22 ∷ hop_events (codes "h") 22 (bastion ∷ [])
            ≡ first ∷ hop_events (codes "h") 22 (bastion ∷ [])))
open_transport-route_example =
    open_transport-route open_net (bastion ∷ []) (codes "h") 22 none
      (Event.tcp (codes "b") 22 ∷ hop_events (codes "h") 22 (bastion ∷ [])) opened

-- One server, whose password is stored as it is.
abbrev server : Server
server = record blank_server { id = codes "s"; encrypted_password = some (codes "pw") }

abbrev app : AppData
app = record empty_data { servers = server ∷ [] }

abbrev secrets : Secrets
secrets = record { decrypt = λ t. some t; read_file = λ p. none; beside = λ p. none }

resolved :
    resolve_auth secrets app server_password (codes "s") (some (codes "s"))
    ≡ ok (password_auth (codes "pw"))
unfolding resolve_auth text_eq from_utf8
resolved = refl

abbrev goal : ServerTarget
goal = record {
  host = codes "h";
  port = 22;
  auth = password_auth (codes "pw");
  jumps = [];
  proxy = none;
}

targeted :
    server_target secrets app (codes "s") (codes "u") server_password (codes "s") [] ≡ ok goal
unfolding server_target text_eq from_utf8
targeted = refl

server_target-password_example :
    (found : Server) × (find_server app.servers (codes "s") ≡ some found)
    × (codes "h" ≡ found.host)
    × (22 ≡ found.port)
    × IsStoredOn secrets found (password_auth (codes "pw"))
server_target-password_example =
    server_target-password secrets app (codes "s") (codes "u") (codes "s") [] goal targeted
