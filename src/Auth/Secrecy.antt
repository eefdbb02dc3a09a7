-- ===== src/Auth/Secrecy.antt =====
-- What may be sent to a server, and that only the server's word signs in.
use bifro_ssh.Common.{
  ◌≡◌, ◌⊎◌, inl, inr, refl, ap, true, Option, none, some, List, [], ◌∷◌, ◌++◌, Text, Bytes, ok,
  append-nil, append_assoc, sym,
}
use bifro_ssh.Resolve.{SshAuth, password_auth, key_data, interactive_auth, agent_auth}
use bifro_ssh.SshCert.{PrivateKey, SshKeys, parse}
use bifro_ssh.Auth.{
  AgentIdentity, identity_key, agent_request, Response, info_request, ◌>>=◌, Prompt, Request,
  send_password, send_key, send_certificate, send_agent_key, send_agent_certificate, start_prompts,
  send_answers, success, accepted, connection_lost, Peers, ok_or, exchange, submit, prompted,
}
use bifro_ssh.Auth.Triple.{Post, Meets, >>=-Meets}
use mathlib.Core.Path.{subst}

-- The key that the user has chosen, or any.
abbrev pub Chosen : SshKeys → Option Text → Bytes → Type 0
Chosen keys none key = Unit
Chosen keys (some want) key = keys.fingerprint key ≡ want

module _ (keys : SshKeys) (peers : Peers) (username : Text) (auth : SshAuth) where
  -- A public key of the method's own, with the text of its certificate.
  abbrev pub IsKey : Option Text → Bytes → Type 0
  IsKey cert k =
      (key_pem : Text) × (passphrase : Option Text) × (key : PrivateKey) × (auth
        ≡ key_data key_pem passphrase cert)
      × (keys.decode_secret_key key_pem passphrase ≡ some key)
      × (key.public_key ≡ k)

  -- What is sent for one of the identities that the agent lists, which is the chosen one or any.
  abbrev pub IsFromAgent : Request → Type 0
  IsFromAgent request =
      (want : Option Text) × (front : List AgentIdentity) × (identity : AgentIdentity)
      × (rest : List AgentIdentity) × (auth ≡ agent_auth want)
      × (peers.identities ≡ some (front ++ identity ∷ rest))
      × Chosen keys want (identity_key identity)
      × (request ≡ agent_request keys peers username identity)

  -- The server has answered the last request with `r`.
  abbrev pub Answered : Response → List Request → Type 0
  Answered r sent =
      (before : List Request) × (request : Request) × (sent ≡ before ++ request ∷ [])
      × (peers.response before request ≡ some r)

  -- What may be sent under `auth` after these requests. Answers are to the questions that the server has
  -- just asked: none to none, or what the user gave to them. Questions are only asked for when the user
  -- chose them or can be asked.
  abbrev pub Allowed : List Request → Request → Type 0
  Allowed before (send_password user password) = (user ≡ username) × (auth ≡ password_auth password)
  Allowed before (send_key user k hash) = (user ≡ username) × (cert : Option Text) × IsKey cert k
  Allowed before (send_certificate user k cert) =
      (user ≡ username) × (text : Text) × IsKey (some text) k × (parse keys text ≡ ok cert)
  Allowed before (send_agent_key user k hash) = IsFromAgent (send_agent_key user k hash)
  Allowed before (send_agent_certificate user cert hash) =
      IsFromAgent (send_agent_certificate user cert hash)
  Allowed before (start_prompts user) =
      (user ≡ username) × ((auth ≡ interactive_auth) ⊎ (peers.interactive ≡ true))
  Allowed before (send_answers answers) =
      (name : Text) × (instructions : Text) × (prompts : List Prompt) × Answered
        (info_request name instructions prompts) before
      × (((prompts ≡ []) × (answers ≡ []))
          ⊎ ((peers.interactive ≡ true)
              × (peers.ask before name instructions prompts ≡ some answers)))

  -- Each request may be sent after those before it.
  abbrev SentAfter : List Request → List Request → Type 0
  SentAfter before [] = Unit
  SentAfter before (request ∷ rest) =
      Allowed before request × SentAfter (before ++ request ∷ []) rest

  abbrev pub Sent : List Request → Type 0
  Sent = SentAfter []

  SentAfter-append :
      (before done : List Request) (request : Request)
      → SentAfter before done
      → Allowed (before ++ done) request
      → SentAfter before (done ++ request ∷ [])
  SentAfter-append before [] request h may =
      (subst (λ sent. Allowed sent request) (append-nil before) may, tt)
  SentAfter-append before (first ∷ done) request (a, h) may = (
    a,
    SentAfter-append (before ++ first ∷ []) done request h
        (subst (λ sent. Allowed sent request) (sym (append_assoc before (first ∷ []) done)) may),
  )

  pub Sent-append :
      (done : List Request) (request : Request)
      → Sent done
      → Allowed done request
      → Sent (done ++ request ∷ [])
  Sent-append = SentAfter-append []

  -- The server has said yes to the last request.
  abbrev pub Taken : List Request → Type 0
  Taken sent =
      (before : List Request) × (request : Request) × (sent ≡ before ++ request ∷ [])
      × ((peers.result before request ≡ some success)
          ⊎ (peers.response before request ≡ some accepted))

  abbrev pub Gives : Type 0 → List Request → Type 0
  Gives C sent = Sent sent × (C → Taken sent)

  ok_or-Meets :
      {A : Type 0} (wanted : A) (answer : Option A)
      → Meets Sent
          (Gives (answer ≡ some wanted))
          (λ a. Gives (a ≡ wanted))
          (ok_or answer connection_lost)
  unfolding ok_or
  ok_or-Meets wanted none done h = h.0
  ok_or-Meets wanted (some a) done h = (h.0, λ e. h.1 (ap some e))

  pub submit-Meets :
      (request : Request)
      → ((before : List Request) → Allowed before request)
      → Meets Sent Sent (λ r. Gives (r ≡ success)) (submit keys peers username request)
  unfolding submit exchange
  submit-Meets request may =
      >>=-Meets Sent Sent (λ answer. Gives (answer ≡ some success)) (λ r. Gives (r ≡ success))
        (exchange peers.result request) (λ answer. ok_or answer connection_lost)
        (λ done h. (Sent-append done request h (may done), λ e. (done, request, refl, inl e)))
        (ok_or-Meets success)

  -- After a reply to the last request.
  abbrev pub Replied : Response → List Request → Type 0
  Replied r sent = Sent sent × Answered r sent

  pub prompted-Meets :
      (I : List Request → Type 0) (request : Request)
      → ((done : List Request) → I done → Sent done × Allowed done request)
      → Meets Sent I Replied (prompted keys peers username request)
  unfolding prompted exchange ◌>>=◌ ok_or
  prompted-Meets I request may done i = by_answer (peers.response done request) refl
    where
      sent : Sent (done ++ request ∷ [])
      sent = let (h, a) = may done i in Sent-append done request h a

      by_answer :
          (answer : Option Response)
          → peers.response done request ≡ answer
          → Post Sent Replied (ok_or answer connection_lost (done ++ request ∷ []))
      by_answer none e = sent
      by_answer (some r) e = (sent, (done, request, refl, e))

  pub accepted-Taken : (sent : List Request) → Answered accepted sent → Taken sent
  accepted-Taken sent (before, request, e, h) = (before, request, e, inr h)
