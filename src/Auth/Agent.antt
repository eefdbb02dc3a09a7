-- ===== src/Auth/Agent.antt =====
-- The keys of an agent: nothing is sent but what may be.
use bifro_ssh.Common.{
  text_eq_iff, ℕ, zero, suc, ◌≡◌, inl, refl, ap, Bool, true, false, Option, none, some, List, [],
  ◌∷◌, Text, arith, append_assoc, sym, ◌++◌, ◌∙◌,
}
use bifro_ssh.Resolve.{SshAuth, agent_auth}
use bifro_ssh.SshCert.{SshKeys}
use bifro_ssh.Auth.{
  Session, after_key, finished, AgentIdentity, agent_key, agent_certificate, Request, AuthResult,
  success, failure, Peers, ◌>>=◌, exchange, pure, fail, try_agent, try_identities, agent_request,
  is_skipped, identity_key, no_agent, no_agent_keys,
}
use bifro_ssh.Auth.Triple.{Meets, >>=-Meets}
use bifro_ssh.Auth.Secrecy.{Chosen, IsFromAgent, Allowed, Sent, Sent-append}
use bifro_ssh.Auth.Prompts.{Good, Yes, In}

module _ (keys : SshKeys) (peers : Peers) (username : Text) (auth : SshAuth) where
  abbrev Ok : List Request → Type 0
  Ok = Sent keys peers username auth

  abbrev TakenWhen : Type 0 → List Request → Type 0
  TakenWhen = Good keys peers username auth

  abbrev Won : Bool → List Request → Type 0
  Won = Yes keys peers username auth

  abbrev Done : (Unit {0}) → List Request → Type 0
  Done = In keys peers username auth

  is_skipped-Chosen :
      (want : Option Text) (identity : AgentIdentity)
      → is_skipped keys peers username want identity ≡ false
      → Chosen keys want (identity_key identity)
  is_skipped-Chosen none identity e = tt
  is_skipped-Chosen (some want) identity e =
      (text_eq_iff (keys.fingerprint (identity_key identity)) want).0 (ground (arith, e))

  agent_request-Allowed :
      (identity : AgentIdentity)
      → IsFromAgent keys peers username auth (agent_request keys peers username identity)
      → (before : List Request)
      → Allowed keys peers username auth before (agent_request keys peers username identity)
  agent_request-Allowed (agent_key key) own before = own
  agent_request-Allowed (agent_certificate cert) own before = own

  -- The last failure is not a success.
  abbrev Failed : Option AuthResult → Type 0
  Failed last = last ≡ some success → ⊥

  -- A run that gives a success only after a yes.
  abbrev Tries : Session AuthResult → Type 0
  Tries m = Meets Ok Ok (λ r. TakenWhen (r ≡ success)) m

  after_key-Meets :
      (tried : ℕ) (last : Option AuthResult) (next : ℕ → Option AuthResult → Session AuthResult)
      → Failed last
      → ((n : ℕ) (l : Option AuthResult) → Failed l → Tries (next n l))
      → (answer : Option AuthResult)
      → Meets Ok
          (TakenWhen (answer ≡ some success))
          (λ r. TakenWhen (r ≡ success))
          (after_key keys peers username tried last next answer)
  unfolding after_key pure
  after_key-Meets tried last next f again (some success) done h = (h.0, λ _. h.1 refl)
  after_key-Meets tried last next f again (some (failure offers)) done h =
      again (suc tried) (some (failure offers)) (λ e. ground (arith, e)) done h.0
  after_key-Meets tried last next f again none done h = again (suc tried) last f done h.0

  finished-Meets :
      (tried : ℕ) (last : Option AuthResult)
      → Failed last
      → Tries (finished keys peers username tried last)
  unfolding finished pure fail
  finished-Meets zero last f done h = h
  finished-Meets (suc tried) none f done h = (h, λ e. absurd (ground (arith, e)))
  finished-Meets (suc tried) (some result) f done h = (h, λ e. absurd (f (ap some e)))

  answered-Meets :
      (request : Request)
      → ((before : List Request) → Allowed keys peers username auth before request)
      → Meets Ok Ok (λ answer. TakenWhen (answer ≡ some success)) (exchange peers.result request)
  unfolding exchange
  answered-Meets request may done h = (
    Sent-append keys peers username auth done request h (may done),
    λ e. (done, request, refl, inl e),
  )

  try_identities-Meets :
      (want : Option Text) (front identities : List AgentIdentity) (tried : ℕ)
      (last : Option AuthResult)
      → auth ≡ agent_auth want
      → peers.identities ≡ some (front ++ identities)
      → Failed last
      → Tries (try_identities keys peers username want identities tried last)
  unfolding try_identities
  try_identities-Meets want front [] tried last own held f = finished-Meets tried last f
  try_identities-Meets want front (identity ∷ rest) tried last own held f =
      by_skip (is_skipped keys peers username want identity) refl (λ n l.
        try_identities-Meets want (front ++ identity ∷ []) rest n l own
          (held ∙ ap some (sym (append_assoc front (identity ∷ []) rest))))
    where
      by_skip :
          (b : Bool)
          → is_skipped keys peers username want identity ≡ b
          → ((n : ℕ) (l : Option AuthResult)
              → Failed l
              → Tries (try_identities keys peers username want rest n l))
          → Tries (elim b [
            | true ↦ try_identities keys peers username want rest tried last
            | false ↦
                exchange peers.result (agent_request keys peers username identity)
                >>= after_key keys peers username tried last
                    (try_identities keys peers username want rest)
          ])
      by_skip true e again = again tried last f
      by_skip false e again =
          >>=-Meets Ok Ok (λ answer. TakenWhen (answer ≡ some success))
            (λ r. TakenWhen (r ≡ success))
            (exchange peers.result (agent_request keys peers username identity))
            (after_key keys peers username tried last
              (try_identities keys peers username want rest))
            (answered-Meets (agent_request keys peers username identity) (
              agent_request-Allowed identity
                (want, front, identity, rest, own, held, is_skipped-Chosen want identity e, refl)))
            (after_key-Meets tried last (try_identities keys peers username want rest) f again)

  pub try_agent-Meets :
      (want : Option Text)
      → auth ≡ agent_auth want
      → Meets Ok Ok (λ r. TakenWhen (r ≡ success)) (try_agent keys peers username want)
  unfolding try_agent fail
  try_agent-Meets want own = by_identities peers.identities refl
    where
      by_identities :
          (found : Option (List AgentIdentity))
          → peers.identities ≡ found
          → Meets Ok Ok
              (λ r. TakenWhen (r ≡ success))
              (elim found [
                | none ↦ fail no_agent
                | some [] ↦ fail no_agent_keys
                | some (identity ∷ rest) ↦
                    try_identities keys peers username want (identity ∷ rest) 0 none
              ])
      by_identities none e done h = h
      by_identities (some []) e done h = h
      by_identities (some (identity ∷ rest)) e done h =
          try_identities-Meets want [] (identity ∷ rest) 0 none own e (λ k. ground (arith, k)) done
            h
