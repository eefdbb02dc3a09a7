-- ===== src/Socks5.antt =====
-- The SOCKS5 server of a dynamic port forward: `handshake`, `authenticate`, `same` and `reply` of
-- src-tauri/src/socks5.rs. The stream is the bytes that the client sends, up to where it stops
-- sending, and the bytes written to it; `open` is false where writing fails.
pub mod Same
pub mod Login
pub mod Connect
use Prim.Native.Nat.{bit_or, bit_xor}
use bifro_ssh.Common.{
  ℕ, zero, suc, ◌+◌, ◌*◌, ◌/◌, ◌%◌, Bool, true, false, ◌&&◌, ◌||◌, not, Option, none, some, List,
  [], ◌∷◌, ◌++◌, if◌then◌else◌, ◌==◌, length, take, drop, any, leb, Text, Bytes, codes, show, join,
}

pub data SocksError : Type 0 where
  unexpected_eof broken_pipe not_socks5 no_method only_connect wrong_login : SocksError
  unknown_auth_version unknown_addr_type : ℕ → SocksError

pub record Stream : Type 0 where
  pub input : Bytes
  pub output : Bytes
  pub open_end : Bool

pub data Done (A : Type 0) : Type 0 where
  ok : A → Stream → Done A
  err : SocksError → Stream → Done A

abbrev pub Socks : Type 0 → Type 0
Socks A = Stream → Done A

infixl 5 ◌>>=◌ ◌>>◌
abbrev pub ◌>>=◌ : {A B : Type 0} → Socks A → (A → Socks B) → Socks B
◌>>=◌ m f s = elim (m s) [ ok a s' ↦ f a s' | err e s' ↦ err e s' ]

abbrev pub ◌>>◌ : {B : Type 0} → Socks (Unit {0}) → Socks B → Socks B
m >> k = m >>= λ _. k

abbrev pub pure : {A : Type 0} → A → Socks A
pure a s = ok a s

abbrev pub fail : {A : Type 0} → SocksError → Socks A
fail e s = err e s

-- `read_exact`. Where too little comes, what came is used up.
unfoldable pub read_exact : ℕ → Socks Bytes
read_exact n s =
    if leb n (length s.input)
    then ok (take n s.input) (record s { input = drop n s.input })
    else err unexpected_eof (record s { input = [] })

unfoldable pub write_all : Bytes → Socks (Unit {0})
write_all bytes s =
    if s.open_end then ok tt (record s { output = s.output ++ bytes }) else err broken_pipe s

-- `let _ = stream.write_all(..).await`.
unfoldable pub write_anyway : Bytes → Socks (Unit {0})
write_anyway bytes s =
    if s.open_end then ok tt (record s { output = s.output ++ bytes }) else ok tt s

pub record Credentials : Type 0 where
  pub username : Bytes
  pub password : Bytes

-- The fold over the pairs: `acc | (x ^ y)`.
unfoldable pub differences : ℕ → Bytes → Bytes → ℕ
differences acc (x ∷ a) (y ∷ b) = differences (bit_or acc (bit_xor x y)) a b
differences acc _ _ = acc

unfoldable pub same : Bytes → Bytes → Bool
unfolding differences
same a b = length a == length b && differences 0 a b == 0

abbrev pub byte_at : ℕ → Bytes → ℕ
byte_at i [] = 0
byte_at zero (b ∷ bs) = b
byte_at (suc i) (b ∷ bs) = byte_at i bs

abbrev refuse : {A : Type 0} → Bytes → SocksError → Socks A
refuse bytes e = write_anyway bytes >> fail e

-- Both are compared, whatever the first says.
unfoldable pub check_login : Credentials → Bytes → Bytes → Socks (Unit {0})
unfolding same
check_login creds username password =
    let user_ok = same username creds.username in
    let pass_ok = same password creds.password in
    if not (user_ok && pass_ok) then refuse (1 ∷ 1 ∷ []) wrong_login else write_all (1 ∷ 0 ∷ [])

-- The two length-prefixed strings.
unfoldable pub read_login : Credentials → ℕ → Socks (Unit {0})
unfolding check_login
read_login creds name_len = do
  username ← read_exact name_len
  len ← read_exact 1
  password ← read_exact (byte_at 0 len)
  check_login creds username password

unfoldable pub authenticate : Credentials → Socks (Unit {0})
authenticate creds = do
  head ← read_exact 2
  if not (byte_at 0 head == 1)
      then refuse (1 ∷ 1 ∷ []) (unknown_auth_version (byte_at 0 head))
      else read_login creds (byte_at 1 head)

-- The method is agreed on, and the login made where the rule sets one.
unfoldable pub agree : Option Credentials → Bytes → Socks (Unit {0})
agree none methods = write_all (5 ∷ 0 ∷ [])
agree (some creds) methods =
    if not (any (λ m. m == 2) methods)
    then refuse (5 ∷ 0xff ∷ []) no_method
    else do write_all (5 ∷ 2 ∷ []); authenticate creds

abbrev hex_digit : ℕ → ℕ
hex_digit n = if leb n 9 then 48 + n else 87 + n

-- `{:02x}`
abbrev pub hex2 : ℕ → Text
hex2 b = hex_digit (b / 16) ∷ hex_digit (b % 16) ∷ []

unfoldable pub ipv4_text : Bytes → Text
ipv4_text b =
    join (codes ".")
      (show (byte_at 0 b) ∷ show (byte_at 1 b) ∷ show (byte_at 2 b) ∷ show (byte_at 3 b) ∷ [])

abbrev segments : Bytes → List Text
segments [] = []
segments (a ∷ []) = hex2 a ∷ []
segments (a ∷ b ∷ s) = (hex2 a ++ hex2 b) ∷ segments s

unfoldable pub ipv6_text : Bytes → Text
ipv6_text b = join (codes ":") (segments b)

abbrev pub u16_be : ℕ → ℕ → ℕ
u16_be a b = a * 256 + b

unfoldable pub read_ipv4 : Socks (Text × ℕ)
unfolding ipv4_text
read_ipv4 = do b ← read_exact 6; pure (ipv4_text b, u16_be (byte_at 4 b) (byte_at 5 b))

unfoldable pub read_ipv6 : Socks (Text × ℕ)
unfolding ipv6_text
read_ipv6 = do b ← read_exact 18; pure (ipv6_text (take 16 b), u16_be (byte_at 16 b) (byte_at 17 b))

-- The address, by its type. `lossy` is `String::from_utf8_lossy`.
module _ (lossy : Bytes → Text) where
  unfoldable pub read_name : Socks (Text × ℕ)
  read_name = do
    n ← read_exact 1
    let len = byte_at 0 n
    addr ← read_exact (len + 2)
    pure (lossy (take len addr), u16_be (byte_at len addr) (byte_at (len + 1) addr))

  unfoldable pub read_address : ℕ → Socks (Text × ℕ)
  unfolding read_ipv4 read_ipv6 read_name
  read_address kind =
      if kind == 1
      then read_ipv4
      else if kind == 3
      then read_name
      else if kind == 4
      then read_ipv6
      else fail (unknown_addr_type kind)

  abbrev pub command_refused : Bytes
  command_refused = 5 ∷ 7 ∷ 0 ∷ 1 ∷ 0 ∷ 0 ∷ 0 ∷ 0 ∷ 0 ∷ 0 ∷ []

  unfoldable pub read_request : Socks (Text × ℕ)
  unfolding read_address
  read_request = do
    head ← read_exact 4
    if not (byte_at 0 head == 5) || not (byte_at 1 head == 1)
        then refuse command_refused only_connect
        else read_address (byte_at 3 head)

  unfoldable pub handshake : Option Credentials → Socks (Text × ℕ)
  handshake auth = do
    hello ← read_exact 2
    if not (byte_at 0 hello == 5)
        then fail not_socks5
        else do methods ← read_exact (byte_at 1 hello); agree auth methods; read_request

unfoldable pub reply : Bool → Socks (Unit {0})
unfolding write_all
reply connected = write_all (5 ∷ (if connected then 0 else 1) ∷ 0 ∷ 1 ∷ 0 ∷ 0 ∷ 0 ∷ 0 ∷ 0 ∷ 0 ∷ [])
