-- ===== src/Auth/Prompts.antt =====
-- The prompts of a server send nothing but what may be sent.
use bifro_ssh.Common.{
  if◌then◌else◌, ℕ, zero, suc, ◌≡◌, ◌⊎◌, inl, inr, refl, Bool, true, false, ◌&&◌, Option, none,
  some, List, [], ◌∷◌, Text, arith,
}
use bifro_ssh.Resolve.{SshAuth, interactive_auth}
use bifro_ssh.SshCert.{SshKeys}
use bifro_ssh.Auth.{
  Prompt, Request, start_prompts, send_answers, AuthResult, success, failure, Response, accepted,
  rejected, info_request, Peers, ◌>>=◌, pure, fail, prompted, answers_to, rounds,
  keyboard_interactive, fall_back, retry, signed_in,
}
use bifro_ssh.Auth.Triple.{Meets, >>=-Meets}
use bifro_ssh.Auth.Secrecy.{Allowed, Sent, Gives, Replied, prompted-Meets, accepted-Taken}

module _ (keys : SshKeys) (peers : Peers) (username : Text) (auth : SshAuth) where
  abbrev pub Ok : List Request → Type 0
  Ok = Sent keys peers username auth

  abbrev pub Good : Type 0 → List Request → Type 0
  Good = Gives keys peers username auth

  abbrev May : Request → List Request → Type 0
  May request sent = Ok sent × Allowed keys peers username auth sent request

  abbrev AfterReply : Response → List Request → Type 0
  AfterReply = Replied keys peers username auth

  abbrev Given : Option (List Text) → List Request → Type 0
  Given none = Ok
  Given (some answers) = May (send_answers answers)

  if_asked-Given :
      (b : Bool) (done : List Request) (name instructions : Text) (prompts : List Prompt)
      (given : Option (List Text))
      → peers.interactive ≡ b
      → peers.ask done name instructions prompts ≡ given
      → AfterReply (info_request name instructions prompts) done
      → Given (if b then given else none) done
  if_asked-Given false done name instructions prompts given i e h = h.0
  if_asked-Given true done name instructions prompts none i e h = h.0
  if_asked-Given true done name instructions prompts (some answers) i e (h, asked) =
      (h, (name, instructions, prompts, asked, inr (i, e)))

  answers_to-Meets :
      (name instructions : Text) (prompts : List Prompt)
      → Meets Ok
          (AfterReply (info_request name instructions prompts))
          Given
          (answers_to keys peers username name instructions prompts)
  unfolding answers_to
  answers_to-Meets name instructions [] done (h, asked) =
      (h, (name, instructions, [], asked, inl (refl, refl)))
  answers_to-Meets name instructions (p ∷ ps) done h =
      if_asked-Given peers.interactive done name instructions (p ∷ ps)
        (peers.ask done name instructions (p ∷ ps)) refl refl h

  -- `true` is given only after a yes.
  abbrev pub Yes : Bool → List Request → Type 0
  Yes b = Good (b ≡ true)

  pub no-Yes : (done : List Request) → Ok done → Yes false done
  no-Yes done h = (h, λ e. absurd (ground (arith, e)))

  reply-Meets :
      (n : ℕ)
      → ((r : Response) → Meets Ok (AfterReply r) Yes (rounds keys peers username n r))
      → (given : Option (List Text))
      → Meets Ok (Given given) Yes (elim given [
        | none ↦ pure false
        | some answers ↦ prompted keys peers username (send_answers answers) >>= λ r.
            rounds keys peers username n r
      ])
  unfolding pure
  reply-Meets n again none done h = no-Yes done h
  reply-Meets n again (some answers) done h =
      >>=-Meets Ok (May (send_answers answers)) AfterReply Yes
        (prompted keys peers username (send_answers answers)) (λ r. rounds keys peers username n r)
        (prompted-Meets keys peers username auth (May (send_answers answers)) (send_answers answers)
          (λ sent k. k))
        again done h

  rounds-Meets :
      (n : ℕ) (response : Response)
      → Meets Ok (AfterReply response) Yes (rounds keys peers username n response)
  unfolding rounds pure fail
  rounds-Meets zero response done h = h.0
  rounds-Meets (suc n) accepted done h =
      (h.0, λ e. accepted-Taken keys peers username auth done h.1)
  rounds-Meets (suc n) rejected done h = no-Yes done h.0
  rounds-Meets (suc n) (info_request name instructions prompts) done h =
      >>=-Meets Ok (AfterReply (info_request name instructions prompts)) Given Yes
        (answers_to keys peers username name instructions prompts)
        (λ given. elim given [
          | none ↦ pure false
          | some answers ↦ prompted keys peers username (send_answers answers) >>= λ r.
              rounds keys peers username n r
        ])
        (answers_to-Meets name instructions prompts) (reply-Meets n (rounds-Meets n)) done h

  pub keyboard_interactive-Meets :
      (auth ≡ interactive_auth) ⊎ (peers.interactive ≡ true)
      → Meets Ok Ok Yes (keyboard_interactive keys peers username)
  unfolding keyboard_interactive
  keyboard_interactive-Meets may =
      >>=-Meets Ok Ok AfterReply Yes (prompted keys peers username (start_prompts username))
        (λ r. rounds keys peers username 20 r)
        (prompted-Meets keys peers username auth Ok (start_prompts username)
          (λ done h. (h, (refl, may))))
        (rounds-Meets 20)

  -- What signing in ends with.
  abbrev pub In : (Unit {0}) → List Request → Type 0
  In done = Good (Unit {0})

  pub signed_in-Meets : (b : Bool) → Meets Ok (Yes b) In (signed_in keys peers username b)
  unfolding signed_in pure fail
  signed_in-Meets true done h = (h.0, λ _. h.1 refl)
  signed_in-Meets false done h = h.0

  pub retry-Meets :
      (b : Bool)
      → ((b ≡ true) → peers.interactive ≡ true)
      → Meets Ok Ok In (retry keys peers username b)
  unfolding retry fail
  retry-Meets false may done h = h
  retry-Meets true may done h =
      >>=-Meets Ok Ok Yes In (keyboard_interactive keys peers username)
        (signed_in keys peers username) (keyboard_interactive-Meets (inr (may refl)))
        signed_in-Meets done h

  pub fall_back-Meets :
      (r : AuthResult) → Meets Ok (Good (r ≡ success)) In (fall_back keys peers username r)
  unfolding fall_back pure
  fall_back-Meets success done h = (h.0, λ _. h.1 refl)
  fall_back-Meets (failure offers) done h =
      retry-Meets (peers.interactive && offers) (λ e. ground (arith, e)) done h.0
