-- ===== src/Socks5/Connect.antt =====
-- A client that follows the protocol gets the address that it named, with the bytes it sends behind
-- its request left for the tunnel.
use native.Mathlib.Numerals.{add-one}
use bifro_ssh.Common.{
  ℕ, suc, ◌+◌, ◌≡◌, refl, sym, ap, ◌∙◌, true, Option, none, some, [], ◌∷◌, ◌++◌, append_assoc,
  arith, ◌==◌, length, length-append, take, take-append, drop-append, any, Text, Bytes,
}
use bifro_ssh.Socks5.{
  Stream, ok, Socks, ◌>>=◌, pure, read_exact, write_all, Credentials, byte_at, check_login,
  read_login, authenticate, agree, ipv4_text, ipv6_text, u16_be, read_ipv4, read_ipv6, read_name,
  read_address, read_request, handshake,
}
use bifro_ssh.Socks5.Same.{same_iff}
use bifro_ssh.Socks5.Login.{counted}

-- The stream of a client that still has `input` to send, and can be written to.
abbrev pub at : Bytes → Bytes → Stream
at input output = record { input = input; output = output; open_end = true }

read_exact-append :
    (b rest out : Bytes) (n : ℕ)
    → length b ≡ n
    → read_exact n (at (b ++ rest) out) ≡ ok b (at rest out)
unfolding read_exact
read_exact-append b rest out n e =
    rw (← e) (ground (arith, length-append {0} b rest, take-append b rest, drop-append b rest))

write_all-at : (b input out : Bytes) → write_all b (at input out) ≡ ok tt (at input (out ++ b))
unfolding write_all
write_all-at b input out = refl

step :
    {A B : Type 0} (m : Socks A) (f : A → Socks B) (s t : Stream) (a : A)
    → m s ≡ ok a t
    → (m >>= f) s ≡ f a t
step m f s t a e = rw (e, ◌>>=◌)

check_login-at :
    (creds : Credentials) (rest out : Bytes)
    → check_login creds creds.username creds.password (at rest out)
      ≡ ok tt (at rest (out ++ 1 ∷ 0 ∷ []))
unfolding check_login
check_login-at creds rest out =
    rw
      (
        (same_iff creds.username creds.username).1 refl,
        (same_iff creds.password creds.password).1 refl,
      )
      (write_all-at (1 ∷ 0 ∷ []) rest out)

read_login-at :
    (creds : Credentials) (rest out : Bytes)
    → read_login creds
        (length creds.username)
        (at (creds.username ++ (counted creds.password ++ rest)) out)
      ≡ ok tt (at rest (out ++ 1 ∷ 0 ∷ []))
unfolding read_login
read_login-at creds rest out =
    step (read_exact (length creds.username)) _
      (at (creds.username ++ (counted creds.password ++ rest)) out)
      (at (counted creds.password ++ rest) out) creds.username
      (read_exact-append creds.username (counted creds.password ++ rest) out (length creds.username)
        refl)
    ∙ step (read_exact 1) _ (at (counted creds.password ++ rest) out)
        (at (creds.password ++ rest) out) (length creds.password ∷ [])
        (read_exact-append (length creds.password ∷ []) (creds.password ++ rest) out 1 refl)
    ∙ step (read_exact (length creds.password)) _ (at (creds.password ++ rest) out) (at rest out)
        creds.password (read_exact-append creds.password rest out (length creds.password) refl)
    ∙ check_login-at creds rest out

authenticate-at :
    (creds : Credentials) (rest out : Bytes)
    → authenticate creds (at (1 ∷ (counted creds.username ++ (counted creds.password ++ rest))) out)
      ≡ ok tt (at rest (out ++ 1 ∷ 0 ∷ []))
unfolding authenticate
authenticate-at creds rest out =
    let tail = creds.username ++ (counted creds.password ++ rest) in
    step (read_exact 2) _ (at (1 ∷ length creds.username ∷ tail) out) (at tail out)
      (1 ∷ length creds.username ∷ [])
      (read_exact-append (1 ∷ length creds.username ∷ []) tail out 2 refl)
    ∙ read_login-at creds rest out

-- The client's login, if the rule sets one, and the server's answers up to there.
abbrev pub login : Option Credentials → Bytes → Bytes
login none rest = rest
login (some creds) rest = 1 ∷ (counted creds.username ++ (counted creds.password ++ rest))

abbrev pub agreed : Option Credentials → Bytes
agreed none = 5 ∷ 0 ∷ []
agreed (some _) = 5 ∷ 2 ∷ 1 ∷ 0 ∷ []

abbrev pub Offers : Option Credentials → Bytes → Type 0
Offers none methods = Unit
Offers (some _) methods = any (λ m. m == 2) methods ≡ true

agree-at :
    (auth : Option Credentials) (methods rest out : Bytes)
    → Offers auth methods
    → agree auth methods (at (login auth rest) out) ≡ ok tt (at rest (out ++ agreed auth))
unfolding agree
agree-at none methods rest out h = write_all-at (5 ∷ 0 ∷ []) rest out
agree-at (some creds) methods rest out h = rw h (
    step (write_all (5 ∷ 2 ∷ [])) (λ _. authenticate creds) (at (login (some creds) rest) out)
      (at (login (some creds) rest) (out ++ 5 ∷ 2 ∷ [])) tt
      (write_all-at (5 ∷ 2 ∷ []) (login (some creds) rest) out)
    ∙ authenticate-at creds rest (out ++ 5 ∷ 2 ∷ [])
    ∙ ap (λ o. ok tt (at rest o)) (append_assoc out (5 ∷ 2 ∷ []) (1 ∷ 0 ∷ [])))

-- Where a client wants to go. A name is at most 255 bytes long, which its length byte can say.
pub data Address : Type 0 where
  ipv4 : ℕ → ℕ → ℕ → ℕ → Address
  name : Bytes → Address
  ipv6 : (b : Bytes) → length b ≡ 16 → Address

abbrev pub address_bytes : Address → ℕ → ℕ → Bytes → Bytes
address_bytes (ipv4 a b c d) hi lo rest = 1 ∷ a ∷ b ∷ c ∷ d ∷ hi ∷ lo ∷ rest
address_bytes (name n) hi lo rest = 3 ∷ (counted n ++ (hi ∷ lo ∷ rest))
address_bytes (ipv6 b _) hi lo rest = 4 ∷ (b ++ (hi ∷ lo ∷ rest))

module _ (lossy : Bytes → Text) where
  abbrev pub address_text : Address → Text
  address_text (ipv4 a b c d) = ipv4_text (a ∷ b ∷ c ∷ d ∷ [])
  address_text (name n) = lossy n
  address_text (ipv6 b _) = ipv6_text b

  byte_at-host :
      (b : Bytes) (hi lo : ℕ)
      → (byte_at (length b) (b ++ hi ∷ lo ∷ []) ≡ hi)
        × (byte_at (suc (length b)) (b ++ hi ∷ lo ∷ []) ≡ lo)
  byte_at-host [] hi lo = (refl, refl)
  byte_at-host (x ∷ b) hi lo = byte_at-host b hi lo

  read_name-at :
      (n rest out : Bytes) (hi lo : ℕ)
      → read_name lossy (at (counted n ++ (hi ∷ lo ∷ rest)) out)
        ≡ ok (lossy n, u16_be hi lo) (at rest out)
  unfolding read_name
  read_name-at n rest out hi lo =
      let addr = n ++ hi ∷ lo ∷ [] in
      let (h, l) = byte_at-host n hi lo in
      step (read_exact 1) _ (at (counted n ++ (hi ∷ lo ∷ rest)) out)
        (at (n ++ (hi ∷ lo ∷ rest)) out) (length n ∷ [])
        (read_exact-append (length n ∷ []) (n ++ (hi ∷ lo ∷ rest)) out 1 refl)
      ∙ step (read_exact (length n + 2)) _ (at (n ++ (hi ∷ lo ∷ rest)) out) (at rest out) addr (
          ap (λ x. read_exact (length n + 2) (at x out)) (sym (append_assoc n (hi ∷ lo ∷ []) rest))
          ∙ read_exact-append addr rest out (length n + 2)
              (omega (arith, length-append {0} n (hi ∷ lo ∷ []))))
      ∙ rw (add-one, take-append n (hi ∷ lo ∷ []), h, l)

  read_ipv6-at :
      (b rest out : Bytes) (hi lo : ℕ)
      → length b ≡ 16
      → read_ipv6 (at (b ++ (hi ∷ lo ∷ rest)) out) ≡ ok (ipv6_text b, u16_be hi lo) (at rest out)
  read_ipv6-at b rest out hi lo e =
      let addr = b ++ hi ∷ lo ∷ [] in
      let (h, l) = byte_at-host b hi lo in
      let long : length addr ≡ 18 = omega (arith, length-append {0} b (hi ∷ lo ∷ [])) in
      unfold read_ipv6 in
      step (read_exact 18) _ (at (b ++ (hi ∷ lo ∷ rest)) out) (at rest out) addr (
        ap (λ x. read_exact 18 (at x out)) (sym (append_assoc b (hi ∷ lo ∷ []) rest))
        ∙ read_exact-append addr rest out 18 long)
      ∙ last addr (ap (λ n. byte_at n addr) (sym e) ∙ h)
          (ap (λ n. byte_at (suc n) addr) (sym e) ∙ l)
          (ap (λ n. take n addr) (sym e) ∙ take-append b (hi ∷ lo ∷ []))
    where
      last :
          (addr : Bytes)
          → byte_at 16 addr ≡ hi
          → byte_at 17 addr ≡ lo
          → take 16 addr ≡ b
          → pure {A = Text × ℕ}
              (ipv6_text (take 16 addr), u16_be (byte_at 16 addr) (byte_at 17 addr))
              (at rest out)
            ≡ ok (ipv6_text b, u16_be hi lo) (at rest out)
      last addr p q r = rw (p, q, r)

  read_ipv4-at :
      (a b c d hi lo : ℕ) (rest out : Bytes)
      → read_ipv4 (at (a ∷ b ∷ c ∷ d ∷ hi ∷ lo ∷ rest) out)
        ≡ ok (ipv4_text (a ∷ b ∷ c ∷ d ∷ []), u16_be hi lo) (at rest out)
  unfolding read_ipv4 ipv4_text
  read_ipv4-at a b c d hi lo rest out =
      step (read_exact 6) _ (at (a ∷ b ∷ c ∷ d ∷ hi ∷ lo ∷ rest) out) (at rest out)
        (a ∷ b ∷ c ∷ d ∷ hi ∷ lo ∷ [])
        (read_exact-append (a ∷ b ∷ c ∷ d ∷ hi ∷ lo ∷ []) rest out 6 refl)

  abbrev kind_of : Address → ℕ
  kind_of (ipv4 _ _ _ _) = 1
  kind_of (name _) = 3
  kind_of (ipv6 _ _) = 4

  abbrev address_tail : Address → ℕ → ℕ → Bytes → Bytes
  address_tail (ipv4 a b c d) hi lo rest = a ∷ b ∷ c ∷ d ∷ hi ∷ lo ∷ rest
  address_tail (name n) hi lo rest = counted n ++ (hi ∷ lo ∷ rest)
  address_tail (ipv6 b _) hi lo rest = b ++ (hi ∷ lo ∷ rest)

  address_bytes-kind :
      (a : Address) (hi lo : ℕ) (rest : Bytes)
      → address_bytes a hi lo rest ≡ kind_of a ∷ address_tail a hi lo rest
  address_bytes-kind (ipv4 a b c d) hi lo rest = refl
  address_bytes-kind (name n) hi lo rest = refl
  address_bytes-kind (ipv6 b e) hi lo rest = refl

  read_address-at :
      (a : Address) (hi lo : ℕ) (rest out : Bytes)
      → read_address lossy (kind_of a) (at (address_tail a hi lo rest) out)
        ≡ ok (address_text a, u16_be hi lo) (at rest out)
  read_address-at (ipv4 a b c d) hi lo rest out =
      unfold read_address in (read_ipv4-at a b c d hi lo rest out)
  read_address-at (name n) hi lo rest out = unfold read_address in (read_name-at n rest out hi lo)
  read_address-at (ipv6 b e) hi lo rest out =
      unfold read_address in (read_ipv6-at b rest out hi lo e)

  read_request-at :
      (a : Address) (hi lo reserved : ℕ) (rest out : Bytes)
      → read_request lossy (at (5 ∷ 1 ∷ reserved ∷ address_bytes a hi lo rest) out)
        ≡ ok (address_text a, u16_be hi lo) (at rest out)
  read_request-at a hi lo reserved rest out =
      let kind = kind_of a in
      let tail = address_tail a hi lo rest in
      ap (λ x. read_request lossy (at (5 ∷ 1 ∷ reserved ∷ x) out)) (address_bytes-kind a hi lo rest)
      ∙ unfold read_request in
        step (read_exact 4) _ (at (5 ∷ 1 ∷ reserved ∷ kind ∷ tail) out) (at tail out)
          (5 ∷ 1 ∷ reserved ∷ kind ∷ [])
          (read_exact-append (5 ∷ 1 ∷ reserved ∷ kind ∷ []) tail out 4 refl)
        ∙ read_address-at a hi lo rest out

  -- A client that offers the method wanted, gives the right login where there is one, and asks to
  -- be connected, is understood: the result is its address and port, all it sent is read and no
  -- more, and what is written is the answer to its greeting and its login.
  pub handshake-client :
      (auth : Option Credentials) (methods : Bytes) (a : Address) (hi lo reserved : ℕ)
      (rest out : Bytes)
      → Offers auth methods
      → handshake lossy auth (
          at
            (5 ∷ (counted methods ++ login auth (5 ∷ 1 ∷ reserved ∷ address_bytes a hi lo rest)))
            out)
        ≡ ok (address_text a, u16_be hi lo) (at rest (out ++ agreed auth))
  unfolding handshake
  handshake-client auth methods a hi lo reserved rest out h =
      let request = 5 ∷ 1 ∷ reserved ∷ address_bytes a hi lo rest in
      let tail = methods ++ login auth request in
      step (read_exact 2) _ (at (5 ∷ length methods ∷ tail) out) (at tail out)
        (5 ∷ length methods ∷ []) (read_exact-append (5 ∷ length methods ∷ []) tail out 2 refl)
      ∙ step (read_exact (length methods)) _ (at tail out) (at (login auth request) out) methods
          (read_exact-append methods (login auth request) out (length methods) refl)
      ∙ step (agree auth methods) _ (at (login auth request) out) (at request (out ++ agreed auth))
          tt (agree-at auth methods request out h)
      ∙ read_request-at a hi lo reserved rest (out ++ agreed auth)
