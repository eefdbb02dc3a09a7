-- ===== src/Auth/Triple.antt =====
-- What a session's run keeps and what it gives, by the runs of its parts.
use bifro_ssh.Common.{List, Result, ok, err}
use bifro_ssh.Auth.{Request, AuthError, Session, follow, ◌>>=◌, pure, fail}

abbrev pub Post :
    {A : Type 0}
    → (List Request → Type 0)
    → (A → List Request → Type 0)
    → Result AuthError A × List Request
    → Type 0
Post E Q (err why, sent) = E sent
Post E Q (ok a, sent) = Q a sent

-- Started where `I` holds, it ends where `E` holds with an error and where `Q` holds with a value.
abbrev pub Meets :
    {A : Type 0}
    → (E I : List Request → Type 0) (Q : A → List Request → Type 0) → Session A
    → Type 0
Meets E I Q m = (done : List Request) → I done → Post E Q (m done)

module _ {A : Type 0} (E I : List Request → Type 0) (Q : A → List Request → Type 0) where
  pub pure-Meets : (a : A) → ((done : List Request) → I done → Q a done) → Meets E I Q (pure a)
  unfolding pure
  pure-Meets a h = h

  pub fail-Meets :
      (why : AuthError) → ((done : List Request) → I done → E done) → Meets E I Q (fail why)
  unfolding fail
  fail-Meets why h = h

module _ {A B : Type 0} (E I : List Request → Type 0) (R : A → List Request → Type 0) where
  follow-Post :
      (Q : B → List Request → Type 0) (next : A → Session B) (outcome : Result AuthError A)
      (sent : List Request)
      → Post E R (outcome, sent)
      → ((a : A) → Meets E (R a) Q (next a))
      → Post E Q (follow next outcome sent)
  follow-Post Q next (err why) sent h k = h
  follow-Post Q next (ok a) sent h k = k a sent h

  pub >>=-Meets :
      (Q : B → List Request → Type 0) (m : Session A) (next : A → Session B)
      → Meets E I R m
      → ((a : A) → Meets E (R a) Q (next a))
      → Meets E I Q (m >>= next)
  unfolding ◌>>=◌
  >>=-Meets Q m next h k done i = follow-Post Q next (m done).0 (m done).1 (h done i) k
