-- ===== src/Resolve/Secrecy.antt =====
-- Which stored secrets a connection is given.
use bifro_ssh.Common.{
  ◌≡◌, sym, ap, ◌∙◌, inl, inr, true, Option, none, some, List, arith, Bool-cases, Text, text_eq_iff,
  ok, >>=-eq-ok, ok_or,
}
use bifro_ssh.Models.Saved.{Server, AppData}
use bifro_ssh.Resolve.{
  server_password, SshAuth, password_auth, Secrets, JumpHopRequest, find_server, is_same_id,
  decrypted, saved_password, resolve_auth, resolve_jumps, ServerTarget, server_target,
  server_not_found, no_password,
}

-- The password that is stored on this server, decrypted.
abbrev pub IsStoredOn : Secrets → Server → SshAuth → Type 0
IsStoredOn secrets server auth =
    (enc : Text) × (p : Text) × (server.encrypted_password ≡ some enc)
    × (decrypted secrets enc ≡ ok p)
    × (auth ≡ password_auth p)

some_inj : {A : Type 0} {a b : A} → some a ≡ some b → a ≡ b
some_inj h = cc

ok_or-ok : {E A : Type 0} (o : Option A) (e : E) (a : A) → ok_or o e ≡ ok a → o ≡ some a
ok_or-ok none e a h = cc
ok_or-ok (some b) e a h = cc

module _ (secrets : Secrets) (app : AppData) where
  saved_password-ok :
      (server : Server) (auth : SshAuth)
      → saved_password secrets server.encrypted_password ≡ ok auth
      → IsStoredOn secrets server auth
  unfolding saved_password
  saved_password-ok server auth h =
      let (enc, e1, h1) = >>=-eq-ok (ok_or server.encrypted_password no_password) _ h in
      let (p, e2, h2) = >>=-eq-ok (decrypted secrets enc) _ h1 in
      (enc, p, ok_or-ok server.encrypted_password no_password enc e1, e2, ground arith)

  is_same_id-eq : (a : Option Text) (b : Text) → is_same_id a b ≡ true → a ≡ some b
  is_same_id-eq none b h = cc
  is_same_id-eq (some a) b h = ap some ((text_eq_iff a b).0 h)

  -- A host's saved password is only ever resolved for that host, and is the one stored on it.
  pub resolve_auth-server_password :
      (value : Text) (for_server : Option Text) (auth : SshAuth)
      → resolve_auth secrets app server_password value for_server ≡ ok auth
      → (for_server ≡ some value)
        × ((server : Server) × (find_server app.servers value ≡ some server)
            × IsStoredOn secrets server auth)
  unfolding resolve_auth
  resolve_auth-server_password value for_server auth h =
      elim (Bool-cases (is_same_id for_server value)) [
        | inl e ↦
            let (server, e1, h1) =
              >>=-eq-ok (ok_or (find_server app.servers value) server_not_found)
                (λ s. saved_password secrets s.encrypted_password) (rw e at h) in
            (
              is_same_id-eq for_server value e,
              (
                server,
                ok_or-ok (find_server app.servers value) server_not_found server e1,
                saved_password-ok server auth h1,
              ),
            )
        | inr e ↦ absurd (cc (rw e at h))
      ]

  same_server :
      (id value : Text) (server stored : Server)
      → find_server app.servers id ≡ some server
      → some id ≡ some value
      → find_server app.servers value ≡ some stored
      → stored ≡ server
  same_server id value server stored f e g =
      some_inj (sym g ∙ ap (find_server app.servers) (sym (some_inj e)) ∙ f)

  same_stored :
      (server stored : Server) (a auth : SshAuth)
      → stored ≡ server
      → a ≡ auth
      → IsStoredOn secrets stored auth
      → IsStoredOn secrets server a
  same_stored server stored a auth e q (enc, p, h, k, l) =
      (enc, p, sym (ap (λ (s : Server). s.encrypted_password) e) ∙ h, k, q ∙ l)

  -- A connection by a host's saved password is given the one that is stored on the very server whose
  -- host and port it goes to.
  pub server_target-password :
      (server_id username value : Text) (jumps : List JumpHopRequest) (t : ServerTarget)
      → server_target secrets app server_id username server_password value jumps ≡ ok t
      → (server : Server) × (find_server app.servers server_id ≡ some server)
        × (t.host ≡ server.host)
        × (t.port ≡ server.port)
        × IsStoredOn secrets server t.auth
  unfolding server_target
  server_target-password server_id username value jumps t h =
      let (server, e1, h1) =
        >>=-eq-ok (ok_or (find_server app.servers server_id) server_not_found) _ h in
      let (auth, e2, h2) =
        >>=-eq-ok (resolve_auth secrets app server_password value (some server_id)) _ h1 in
      let (hops, e3, h3) = >>=-eq-ok (resolve_jumps secrets app jumps) _ h2 in
      let found = ok_or-ok (find_server app.servers server_id) server_not_found server e1 in
      let (own, (stored, e4, s)) = resolve_auth-server_password value (some server_id) auth e2 in
      let same = same_server server_id value server stored found own e4 in
      (
        server,
        found,
        ground arith,
        ground arith,
        same_stored server stored t.auth auth same (ground arith) s,
      )
