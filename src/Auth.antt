-- ===== src/Auth.antt =====
-- Signing in to a server: src-tauri/src/ssh/auth.rs. What the server, the agent and the user answer are
-- functions of the requests that were sent before; the requests are the list that a `Session` adds to.
-- What is written to the connection's log is left out.
pub mod Triple
pub mod Secrecy
pub mod Prompts
pub mod Keys
pub mod Agent
pub mod Bounds
pub mod SignIn
use bifro_ssh.Common.{
  ℕ, zero, suc, Bool, true, false, ◌&&◌, not, Option, none, some, List, [], ◌∷◌, ◌++◌,
  if◌then◌else◌, Text, Bytes, text_eq, Result, ok, err,
}
use bifro_ssh.Resolve.{SshAuth, password_auth, key_data, interactive_auth, agent_auth}
use bifro_ssh.SshCert.{
  Certificate, PrivateKey, SshKeys, KeyAlgorithm, algorithm_is_rsa, parse, is_security_key,
}

pub record Prompt : Type 0 where
  pub prompt : Text
  pub echo : Bool

-- `AgentIdentity`: a key, or a certificate.
pub data AgentIdentity : Type 0 where
  agent_key : PrivateKey → AgentIdentity
  agent_certificate : Certificate → AgentIdentity

-- What is sent. The texts are the user name, and the algorithm of an RSA signature.
pub data Request : Type 0 where
  send_password : Text → Text → Request
  send_key : Text → Bytes → Option Text → Request
  send_certificate : Text → Bytes → Certificate → Request
  send_agent_key : Text → Bytes → Option Text → Request
  send_agent_certificate : Text → Certificate → Option Text → Request
  start_prompts : Text → Request
  send_answers : List Text → Request

-- `AuthResult`; a failure says whether prompts are among the methods that remain.
pub data AuthResult : Type 0 where
  success : AuthResult
  failure : Bool → AuthResult

pub data Response : Type 0 where
  accepted rejected : Response
  info_request : Text → Text → List Prompt → Response

pub data AuthError : Type 0 where
  connection_lost security_key_refused key_unreadable no_agent no_agent_keys key_not_in_agent :
      AuthError
  too_many_prompts authentication_failed : AuthError

-- The other sides: the server, the agent (that answers nothing when it is not there) and the user, who may
-- not answer; `interactive` is whether there is a user to ask.
pub record Peers : Type 0 where
  pub result : List Request → Request → Option AuthResult
  pub response : List Request → Request → Option Response
  pub rsa_hash : Option (Option (Option Text))
  pub identities : Option (List AgentIdentity)
  pub interactive : Bool
  pub ask : List Request → Text → Text → List Prompt → Option (List Text)

abbrev pub Session : Type 0 → Type 0
Session A = List Request → Result AuthError A × List Request

abbrev pub follow :
    {A B : Type 0}
    → (A → Session B)
    → Result AuthError A
    → List Request
    → Result AuthError B × List Request
follow next (err why) sent = (err why, sent)
follow next (ok a) sent = next a sent

infixl 5 ◌>>=◌
unfoldable pub ◌>>=◌ : {A B : Type 0} (m : Session A) (next : A → Session B) → Session B
◌>>=◌ m next done = follow next (m done).0 (m done).1

unfoldable pub pure : {A : Type 0} → A → Session A
pure a done = (ok a, done)

unfoldable pub fail : {A : Type 0} → AuthError → Session A
fail why done = (err why, done)

unfoldable pub ok_or : {A : Type 0} → Option A → AuthError → Session A
ok_or none why done = (err why, done)
ok_or (some a) why done = (ok a, done)

-- A request, and what comes back; nothing does when the connection is lost.
unfoldable pub exchange :
    {A : Type 0} → (List Request → Request → Option A) → Request → Session (Option A)
exchange peer request done = (ok (peer done request), done ++ request ∷ [])

abbrev flatten : Option (Option (Option Text)) → Option Text
flatten (some (some o)) = o
flatten _ = none

abbrev pub identity_key : AgentIdentity → Bytes
identity_key (agent_key key) = key.public_key
identity_key (agent_certificate cert) = cert.certified

abbrev pub identity_algorithm : AgentIdentity → KeyAlgorithm
identity_algorithm (agent_key key) = key.algorithm
identity_algorithm (agent_certificate cert) = cert.algorithm

module _ (keys : SshKeys) (peers : Peers) (username : Text) where
  unfoldable pub rsa_hash_for : KeyAlgorithm → Option Text
  rsa_hash_for algorithm = if algorithm_is_rsa algorithm then flatten peers.rsa_hash else none

  -- `authenticate_…(…).await?`.
  unfoldable pub submit : Request → Session AuthResult
  unfolding ◌>>=◌ exchange ok_or
  submit request = exchange peers.result request >>= λ answer. ok_or answer connection_lost

  unfoldable pub prompted : Request → Session Response
  unfolding ◌>>=◌ exchange ok_or
  prompted request = exchange peers.response request >>= λ answer. ok_or answer connection_lost

  -- What to answer a round with: nothing to no questions, and otherwise what the user says.
  unfoldable pub answers_to : Text → Text → List Prompt → Session (Option (List Text))
  answers_to name instructions [] done = (ok (some []), done)
  answers_to name instructions (p ∷ ps) done =
      (ok (if peers.interactive then peers.ask done name instructions (p ∷ ps) else none), done)

  -- The rounds that are left, after the server has said `response`.
  unfoldable pub rounds : ℕ → Response → Session Bool
  unfolding ◌>>=◌ pure fail prompted answers_to
  rounds zero response = fail too_many_prompts
  rounds (suc n) accepted = pure true
  rounds (suc n) rejected = pure false
  rounds (suc n) (info_request name instructions prompts) =
      answers_to name instructions prompts >>= λ given. elim given [
        | none ↦ pure false
        | some answers ↦ prompted (send_answers answers) >>= λ response. rounds n response
      ]

  unfoldable pub keyboard_interactive : Session Bool
  unfolding ◌>>=◌ prompted rounds
  keyboard_interactive = prompted (start_prompts username) >>= λ response. rounds 20 response

  unfoldable pub is_success : AuthResult → Session Bool
  unfolding pure
  is_success success = pure true
  is_success (failure _) = pure false

  -- Whether the server takes the key with the certificate.
  unfoldable pub certificate_auth : Bytes → Text → Session Bool
  unfolding ◌>>=◌ pure submit parse is_success
  certificate_auth key text = elim (parse keys text) [
    | err why ↦ pure false
    | ok cert ↦ submit (send_certificate username key cert) >>= is_success
  ]

  abbrev pub agent_request : AgentIdentity → Request
  agent_request (agent_key key) =
      send_agent_key username key.public_key (rsa_hash_for key.algorithm)
  agent_request (agent_certificate cert) =
      send_agent_certificate username cert (rsa_hash_for cert.algorithm)

  -- Whether `want` is another key than this.
  abbrev pub is_skipped : Option Text → AgentIdentity → Bool
  is_skipped none identity = false
  is_skipped (some want) identity = not (text_eq (keys.fingerprint (identity_key identity)) want)

  -- What becomes of the loop once a key was answered: the server takes it, or the others are tried.
  unfoldable pub after_key :
      ℕ
      → Option AuthResult
      → (ℕ → Option AuthResult → Session AuthResult)
      → Option AuthResult
      → Session AuthResult
  unfolding pure
  after_key tried last next (some success) = pure success
  after_key tried last next (some (failure offers)) = next (suc tried) (some (failure offers))
  after_key tried last next none = next (suc tried) last

  unfoldable pub finished : ℕ → Option AuthResult → Session AuthResult
  unfolding pure fail
  finished zero last = fail key_not_in_agent
  finished (suc tried) none = pure (failure false)
  finished (suc tried) (some result) = pure result

  -- The loop over the agent's keys, with how many were tried and the last failure.
  unfoldable pub try_identities :
      Option Text → List AgentIdentity → ℕ → Option AuthResult → Session AuthResult
  unfolding ◌>>=◌ exchange after_key finished
  try_identities want [] tried last = finished tried last
  try_identities want (identity ∷ rest) tried last = elim (is_skipped want identity) [
    | true ↦ try_identities want rest tried last
    | false ↦
        exchange peers.result (agent_request identity)
        >>= after_key tried last (try_identities want rest)
  ]

  unfoldable pub try_agent : Option Text → Session AuthResult
  unfolding fail try_identities
  try_agent want = elim peers.identities [
    | none ↦ fail no_agent
    | some [] ↦ fail no_agent_keys
    | some (identity ∷ rest) ↦ try_identities want (identity ∷ rest) 0 none
  ]

  unfoldable pub signed_in : Bool → Session (Unit {0})
  unfolding pure fail
  signed_in true = pure tt
  signed_in false = fail authentication_failed

  unfoldable pub retry : Bool → Session (Unit {0})
  unfolding ◌>>=◌ fail keyboard_interactive signed_in
  retry true = keyboard_interactive >>= signed_in
  retry false = fail authentication_failed

  -- What is left to do when the server has not taken the first method.
  unfoldable pub fall_back : AuthResult → Session (Unit {0})
  unfolding pure retry
  fall_back success = pure tt
  fall_back (failure offers) = retry (peers.interactive && offers)

  -- The key on its own, by its algorithm.
  unfoldable pub try_key : PrivateKey → Session (Unit {0})
  unfolding ◌>>=◌ submit fall_back
  try_key key = submit (send_key username key.public_key (rsa_hash_for key.algorithm)) >>= fall_back

  -- After the certificate: the key, unless the server has taken it already.
  unfoldable pub key_unless : PrivateKey → Bool → Session (Unit {0})
  unfolding pure try_key
  key_unless key true = pure tt
  key_unless key false = try_key key

  unfoldable pub try_key_data : PrivateKey → Option Text → Session (Unit {0})
  unfolding ◌>>=◌ certificate_auth key_unless
  try_key_data key none = try_key key
  try_key_data key (some text) = certificate_auth key.public_key text >>= key_unless key

  unfoldable pub authenticate : SshAuth → Session (Unit {0})
  unfolding ◌>>=◌ fail ok_or submit keyboard_interactive signed_in try_agent fall_back try_key_data
      is_security_key
  authenticate (password_auth password) = submit (send_password username password) >>= fall_back
  authenticate (key_data key_pem passphrase cert) = elim (is_security_key keys key_pem) [
    | true ↦ fail security_key_refused
    | false ↦ ok_or (keys.decode_secret_key key_pem passphrase) key_unreadable >>= λ key.
        try_key_data key cert
  ]
  authenticate interactive_auth = keyboard_interactive >>= signed_in
  authenticate (agent_auth fingerprint) = try_agent fingerprint >>= fall_back
