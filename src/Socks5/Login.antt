-- ===== src/Socks5/Login.antt =====
-- What a successful handshake has read, and who gets through where the rule sets a login.
use mathlib.Core.Path.{subst}
use bifro_ssh.Common.{
  ℕ, zero, suc, ◌≤◌, ◌≡◌, ◌⊎◌, inl, inr, refl, sym, ap, ◌∙◌, true, not, ◌&&◌, some, [], ◌∷◌, ◌++◌,
  arith, if◌then◌else◌, Bool-cases, ==_iff, ◌==◌, leb, length, take, drop, any, Text, Bytes,
}
use bifro_ssh.Socks5.{
  SocksError, Stream, Done, ok, err, Socks, ◌>>=◌, ◌>>◌, read_exact, write_all, write_anyway, fail,
  not_socks5, Credentials, same, byte_at, refuse, wrong_login, unknown_auth_version, no_method,
  check_login, read_login, authenticate, agree, read_request, handshake,
}
use bifro_ssh.Socks5.Same.{same_iff}

Done-cases :
    {A : Type 0} (d : Done A)
    → ((a : A) × (u : Stream) × (d ≡ ok a u)) ⊎ ((e : SocksError) × (u : Stream) × (d ≡ err e u))
Done-cases (ok a u) = inl (a, u, refl)
Done-cases (err e u) = inr (e, u, refl)

pub >>=-eq-ok :
    {A B : Type 0} (m : Socks A) (f : A → Socks B) (s : Stream) {b : B} {t : Stream}
    → (m >>= f) s ≡ ok b t
    → (a : A) × (u : Stream) × (m s ≡ ok a u) × (f a u ≡ ok b t)
>>=-eq-ok m f s h = elim (Done-cases (m s)) [
  | inl (a, u, e) ↦ (a, u, e, ground arith)
  | inr (x, u, e) ↦ absurd (ground arith)
]

take-append-drop : (n : ℕ) (xs : Bytes) → take n xs ++ drop n xs ≡ xs
take-append-drop zero xs = refl
take-append-drop (suc n) [] = refl
take-append-drop (suc n) (x ∷ xs) = ap (◌∷◌ x) (take-append-drop n xs)

length-take : (n : ℕ) (xs : Bytes) → n ≤ length xs → length (take n xs) ≡ n
length-take zero xs h = refl
length-take (suc n) [] h = absurd (omega arith)
length-take (suc n) (x ∷ xs) h = ap suc (length-take n xs (omega arith))

pub read_exact-ok :
    (n : ℕ) (s : Stream) (b : Bytes) (t : Stream)
    → read_exact n s ≡ ok b t
    → (s.input ≡ b ++ t.input) × (length b ≡ n)
unfolding read_exact
read_exact-ok n s b t h = elim (Bool-cases (leb n (length s.input))) [
  | inl e ↦ (ground (arith, take-append-drop n s.input), ground (arith, length-take n s.input))
  | inr e ↦ absurd (ground arith)
]

refuse-ne-ok :
    {A : Type 0} (bytes : Bytes) (e : SocksError) (s t : Stream) (a : A)
    → refuse bytes e s ≡ ok a t
    → ⊥
unfolding write_anyway
refuse-ne-ok bytes e s t a h = elim (Bool-cases s.open_end) [
  | inl o ↦ cc (rw o at h)
  | inr o ↦ cc (rw o at h)
]

one_byte : (b : Bytes) → length b ≡ 1 → b ≡ byte_at 0 b ∷ []
one_byte (x ∷ []) h = refl
one_byte [] h = absurd (omega arith)
one_byte (x ∷ y ∷ b) h = absurd (omega arith)

two_bytes : (b : Bytes) → length b ≡ 2 → b ≡ byte_at 0 b ∷ byte_at 1 b ∷ []
two_bytes (x ∷ y ∷ []) h = refl
two_bytes [] h = absurd (omega arith)
two_bytes (x ∷ []) h = absurd (omega arith)
two_bytes (x ∷ y ∷ z ∷ b) h = absurd (omega arith)

write_all-ok : (bytes : Bytes) (s t : Stream) → write_all bytes s ≡ ok tt t → t.input ≡ s.input
unfolding write_all
write_all-ok bytes s t h = ground arith

-- A string with its length in front.
abbrev pub counted : Bytes → Bytes
counted b = length b ∷ b

check_login-ok :
    (creds : Credentials) (user pass : Bytes) (s t : Stream)
    → check_login creds user pass s ≡ ok tt t
    → (user ≡ creds.username) × (pass ≡ creds.password) × (t.input ≡ s.input)
unfolding check_login
check_login-ok creds user pass s t h =
    elim (Bool-cases (same user creds.username && same pass creds.password)) [
      | inl e ↦ (
        (same_iff user creds.username).0 (ground arith),
        (same_iff pass creds.password).0 (ground arith),
        write_all-ok (1 ∷ 0 ∷ []) s t (rw e at h),
      )
      | inr e ↦ absurd (refuse-ne-ok (1 ∷ 1 ∷ []) wrong_login s t tt (rw e at h))
    ]

login_input :
    (a b c d : Bytes) (user len pass : Bytes)
    → a ≡ user ++ b
    → b ≡ len ++ c
    → length len ≡ 1
    → c ≡ pass ++ d
    → length pass ≡ byte_at 0 len
    → a ≡ user ++ (counted pass ++ d)
login_input a b c d user len pass i1 i2 n2 i3 n3 = rw (i1, i2, one_byte len n2, i3, n3)

read_login-ok :
    (creds : Credentials) (n : ℕ) (s t : Stream)
    → read_login creds n s ≡ ok tt t
    → (n ≡ length creds.username)
      × (s.input ≡ creds.username ++ (counted creds.password ++ t.input))
unfolding read_login
read_login-ok creds n s t h =
    let (user, s1, e1, h1) = >>=-eq-ok (read_exact n) _ s h in
    let (len, s2, e2, h2) = >>=-eq-ok (read_exact 1) _ s1 h1 in
    let (pass, s3, e3, h3) = >>=-eq-ok (read_exact (byte_at 0 len)) _ s2 h2 in
    let (i1, n1) = read_exact-ok n s user s1 e1 in
    let (i2, n2) = read_exact-ok 1 s1 len s2 e2 in
    let (i3, n3) = read_exact-ok (byte_at 0 len) s2 pass s3 e3 in
    let (u, p, i4) = check_login-ok creds user pass s3 t h3 in
    let all = login_input s.input s1.input s2.input s3.input user len pass i1 i2 n2 i3 n3 in
    (
      sym n1 ∙ ap length u,
      subst (λ x. s.input ≡ x ++ (counted creds.password ++ t.input)) u
          (subst (λ x. s.input ≡ user ++ (counted x ++ t.input)) p
            (subst (λ x. s.input ≡ user ++ (counted pass ++ x)) (sym i4) all)),
    )

authenticate-ok :
    (creds : Credentials) (s t : Stream)
    → authenticate creds s ≡ ok tt t
    → s.input ≡ 1 ∷ (counted creds.username ++ (counted creds.password ++ t.input))
unfolding authenticate
authenticate-ok creds s t h =
    let (head, s1, e1, h1) = >>=-eq-ok (read_exact 2) _ s h in
    let (i1, n1) = read_exact-ok 2 s head s1 e1 in authenticated head s1 i1 n1 h1
  where
    authenticated :
        (head : Bytes) (s1 : Stream)
        → s.input ≡ head ++ s1.input
        → length head ≡ 2
        → (if not (byte_at 0 head == 1)
              then refuse (1 ∷ 1 ∷ []) (unknown_auth_version (byte_at 0 head))
              else read_login creds (byte_at 1 head))
            s1
          ≡ ok tt t
        → s.input ≡ 1 ∷ (counted creds.username ++ (counted creds.password ++ t.input))
    authenticated head s1 i1 n1 h1 = elim (Bool-cases (byte_at 0 head == 1)) [
      | inl e ↦
          let (n, i2) = read_login-ok creds (byte_at 1 head) s1 t (rw e at h1) in
          i1
          ∙ ap (λ x. x ++ s1.input) (two_bytes head n1)
          ∙ cc ((==_iff (byte_at 0 head) 1).0 e, n, i2)
      | inr e ↦
          absurd
            (refuse-ne-ok (1 ∷ 1 ∷ []) (unknown_auth_version (byte_at 0 head)) s1 t tt (rw e at h1))
    ]

-- What a client sends that is let through: its methods, the login among them, then the login itself.
abbrev pub login_bytes : Bytes → Credentials → Bytes → Bytes
login_bytes methods creds rest =
    5 ∷ (counted methods ++ (1 ∷ (counted creds.username ++ (counted creds.password ++ rest))))

module _ (creds : Credentials) where
  agree-ok :
      (methods : Bytes) (s t : Stream)
      → agree (some creds) methods s ≡ ok tt t
      → (any (λ m. m == 2) methods ≡ true)
        × (s.input ≡ 1 ∷ (counted creds.username ++ (counted creds.password ++ t.input)))
  unfolding agree
  agree-ok methods s t h = elim (Bool-cases (any (λ m. m == 2) methods)) [
    | inl e ↦
        let (_, s1, e1, h1) =
          >>=-eq-ok (write_all (5 ∷ 2 ∷ [])) (λ _. authenticate creds) s (rw e at h) in
        (e, sym (write_all-ok (5 ∷ 2 ∷ []) s s1 e1) ∙ authenticate-ok creds s1 t h1)
    | inr e ↦ absurd (refuse-ne-ok (5 ∷ 0xff ∷ []) no_method s t tt (rw e at h))
  ]

  greeting_input :
      (a b c : Bytes) (hello methods rest : Bytes)
      → a ≡ hello ++ b
      → length hello ≡ 2
      → (byte_at 0 hello == 5) ≡ true
      → b ≡ methods ++ c
      → length methods ≡ byte_at 1 hello
      → c ≡ 1 ∷ (counted creds.username ++ (counted creds.password ++ rest))
      → a ≡ login_bytes methods creds rest
  greeting_input a b c hello methods rest i1 n1 v i2 n2 i3 =
      rw (i1, two_bytes hello n1, (==_iff (byte_at 0 hello) 5).0 v, ← n2, i2, i3)

  module _ (lossy : Bytes → Text) where
    greeted :
        (s s1 t : Stream) (hello : Bytes) (r : Text × ℕ)
        → s.input ≡ hello ++ s1.input
        → length hello ≡ 2
        → (if not (byte_at 0 hello == 5)
              then fail not_socks5
              else (read_exact (byte_at 1 hello) >>= λ methods.
                  agree (some creds) methods >> read_request lossy))
            s1
          ≡ ok r t
        → (methods rest : Bytes) × (any (λ m. m == 2) methods ≡ true)
          × (s.input ≡ login_bytes methods creds rest)
    greeted s s1 t hello r i1 n1 h = elim (Bool-cases (byte_at 0 hello == 5)) [
      | inr e ↦ absurd (refused (rw e at h))
      | inl e ↦
          let (methods, s2, e2, h2) =
            >>=-eq-ok (read_exact (byte_at 1 hello))
              (λ methods. agree (some creds) methods >> read_request lossy) s1 (rw e at h) in
          let (_, s3, e3, _) =
            >>=-eq-ok (agree (some creds) methods) (λ _. read_request lossy) s2 h2 in
          let (i2, n2) = read_exact-ok (byte_at 1 hello) s1 methods s2 e2 in
          let (offered, i3) = agree-ok methods s2 s3 e3 in
          (
            methods,
            s3.input,
            offered,
            greeting_input s.input s1.input s2.input hello methods s3.input i1 n1 e i2 n2 i3,
          )
    ]
      where
        refused : fail {A = Text × ℕ} not_socks5 s1 ≡ ok r t → ⊥
        refused x = cc

    -- Where the rule sets a login, a handshake that succeeds has read exactly that username and
    -- password from the client, which had offered to give them, before any request.
    pub handshake-login :
        (s t : Stream) (r : Text × ℕ)
        → handshake lossy (some creds) s ≡ ok r t
        → (methods rest : Bytes) × (any (λ m. m == 2) methods ≡ true)
          × (s.input ≡ login_bytes methods creds rest)
    unfolding handshake
    handshake-login s t r h =
        let (hello, s1, e1, h1) = >>=-eq-ok (read_exact 2) _ s h in
        let (i1, n1) = read_exact-ok 2 s hello s1 e1 in greeted s s1 t hello r i1 n1 h1
