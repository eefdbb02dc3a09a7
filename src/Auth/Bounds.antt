-- ===== src/Auth/Bounds.antt =====
-- How many requests the prompts of a server can lead to.
use bifro_ssh.Common.{
  ℕ, zero, suc, ◌+◌, ◌≤◌, ◌<◌, false, Option, none, some, List, [], ◌∷◌, Text, Result, ok, err,
  length, length-append, arith,
}
use bifro_ssh.SshCert.{SshKeys}
use bifro_ssh.Auth.{
  AuthError, Prompt, Request, start_prompts, send_answers, Response, accepted, rejected,
  info_request, Peers, ◌>>=◌, pure, fail, ok_or, exchange, connection_lost, prompted, answers_to,
  rounds, keyboard_interactive,
}
use bifro_ssh.Auth.Triple.{Post, Meets, >>=-Meets}

-- At most `n` requests were sent.
abbrev pub AtMost : ℕ → List Request → Type 0
AtMost n sent = length sent ≤ n

module _ (keys : SshKeys) (peers : Peers) (username : Text) where
  ok_or-AtMost :
      {A : Type 0} (k n : ℕ) (answer : Option A)
      → k ≤ n
      → Meets (AtMost n) (AtMost k) (λ r. AtMost k) (ok_or answer connection_lost)
  unfolding ok_or
  ok_or-AtMost k n none l done h = omega arith
  ok_or-AtMost k n (some r) l done h = h

  prompted-AtMost :
      (k n : ℕ) (request : Request)
      → k < n
      → Meets (AtMost n) (AtMost k) (λ r. AtMost (suc k)) (prompted keys peers username request)
  unfolding prompted exchange
  prompted-AtMost k n request l =
      >>=-Meets (AtMost n) (AtMost k) (λ r. AtMost (suc k)) (λ r. AtMost (suc k))
        (exchange peers.response request) (λ answer. ok_or answer connection_lost)
        (λ done h. omega (arith, length-append done (request ∷ [])))
        (λ answer. ok_or-AtMost (suc k) n answer l)

  answers_to-AtMost :
      (k n : ℕ) (name instructions : Text) (prompts : List Prompt)
      → Meets
          (AtMost n)
          (AtMost k)
          (λ given. AtMost k)
          (answers_to keys peers username name instructions prompts)
  unfolding answers_to
  answers_to-AtMost k n name instructions [] done h = h
  answers_to-AtMost k n name instructions (p ∷ ps) done h = h

  reply-AtMost :
      (m k n : ℕ)
      → suc k + m ≤ n
      → ((r : Response)
          → Meets (AtMost n) (AtMost (suc k)) (λ b. AtMost n) (rounds keys peers username m r))
      → (given : Option (List Text))
      → Meets
          (AtMost n)
          (AtMost k)
          (λ b. AtMost n)
          (elim given [
            | none ↦ pure false
            | some answers ↦ prompted keys peers username (send_answers answers) >>= λ r.
                rounds keys peers username m r
          ])
  unfolding pure
  reply-AtMost m k n l again none done h = omega arith
  reply-AtMost m k n l again (some answers) done h =
      >>=-Meets (AtMost n) (AtMost k) (λ r. AtMost (suc k)) (λ b. AtMost n)
        (prompted keys peers username (send_answers answers)) (λ r. rounds keys peers username m r)
        (prompted-AtMost k n (send_answers answers) (omega arith)) again done h

  rounds-AtMost :
      (m k n : ℕ) (response : Response)
      → k + m ≤ n
      → Meets (AtMost n) (AtMost k) (λ b. AtMost n) (rounds keys peers username m response)
  unfolding rounds pure fail
  rounds-AtMost zero k n response l done h = omega arith
  rounds-AtMost (suc m) k n accepted l done h = omega arith
  rounds-AtMost (suc m) k n rejected l done h = omega arith
  rounds-AtMost (suc m) k n (info_request name instructions prompts) l done h =
      >>=-Meets (AtMost n) (AtMost k) (λ given. AtMost k) (λ b. AtMost n)
        (answers_to keys peers username name instructions prompts)
        (λ given. elim given [
          | none ↦ pure false
          | some answers ↦ prompted keys peers username (send_answers answers) >>= λ r.
              rounds keys peers username m r
        ])
        (answers_to-AtMost k n name instructions prompts)
        (reply-AtMost m k n (omega arith) (λ r. rounds-AtMost m (suc k) n r (omega arith))) done h

  keyboard_interactive-Meets :
      (k : ℕ)
      → Meets
          (AtMost (k + 21))
          (AtMost k)
          (λ b. AtMost (k + 21))
          (keyboard_interactive keys peers username)
  unfolding keyboard_interactive
  keyboard_interactive-Meets k =
      >>=-Meets (AtMost (k + 21)) (AtMost k) (λ r. AtMost (suc k)) (λ b. AtMost (k + 21))
        (prompted keys peers username (start_prompts username))
        (λ r. rounds keys peers username 20 r)
        (prompted-AtMost k (k + 21) (start_prompts username) (omega arith))
        (λ r. rounds-AtMost 20 (suc k) (k + 21) r (omega arith))

Post-AtMost :
    {A : Type 0} (n : ℕ) (run : Result AuthError A × List Request)
    → Post (AtMost n) (λ a. AtMost n) run
    → length run.1 ≤ n
Post-AtMost n (err why, sent) h = h
Post-AtMost n (ok a, sent) h = h

-- However often the server asks, one start and twenty rounds of answers are all that is sent: the prompts
-- end with an answer or an error.
pub keyboard_interactive-length :
    (keys : SshKeys) (peers : Peers) (username : Text) (done : List Request)
    → length (keyboard_interactive keys peers username done).1 ≤ length done + 21
keyboard_interactive-length keys peers username done =
    Post-AtMost (length done + 21) (keyboard_interactive keys peers username done)
      (keyboard_interactive-Meets keys peers username (length done) done (omega arith))
