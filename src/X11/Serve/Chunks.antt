-- ===== src/X11/Serve/Chunks.antt =====
-- How a connection's bytes are cut into messages makes no difference to what the X server gets.
use bifro_ssh.Common.{
  ℕ, ◌≤◌, ◌<◌, ◌≡◌, refl, sym, ap, ◌∙◌, List, [], ◌∷◌, ◌++◌, map, append-nil, append_assoc, arith,
  length, drop, Bytes, drop-append_le, inl, inr,
}
use native.Mathlib.Decide.{dec_le}
use mathlib.Core.Path.{subst}
use bifro_ssh.X11.Setup.{Setup, Refusal, incomplete, refused, ready, rewrite_setup}
use bifro_ssh.X11.Setup.Genuine.{rewrite_setup-Carries}
use bifro_ssh.X11.Setup.Settled.{rewrite_setup-Settles}
use bifro_ssh.X11.Serve.{
  closed_early, no_setup, bad_setup, too_long, Message, received, other, ended, too_late, Served,
  closed, relayed, X11Session, max_setup, pass_on, round, serve_from, serve,
}

-- All that arrives.
abbrev pub data_of : List Message → Bytes
data_of [] = []
data_of (received chunk ∷ more) = chunk ++ data_of more
data_of (other ∷ more) = data_of more
data_of (ended ∷ more) = data_of more
data_of (too_late ∷ more) = data_of more

-- What the X server gets before the relay and the data left for the relay make up the setup with the real
-- cookie and the rest of what arrives, which are `s` and all but `c` bytes.
abbrev pub Passes : Bytes → Bytes → ℕ → Served → Type 0
Passes whole s c (closed why) = ⊥
Passes whole s c (relayed out rest) = out ++ data_of rest ≡ s ++ drop c whole

pass_on-Passes :
    (x : X11Session) (buf s : Bytes) (c : ℕ) (messages : List Message)
    → rewrite_setup buf x.fake x.real ≡ ready s c
    → Passes (buf ++ data_of messages) s c (pass_on s buf c messages)
unfolding pass_on
pass_on-Passes x buf s c messages e =
    append_assoc s (drop c buf) (data_of messages)
    ∙ ap (λ t. s ++ t)
        (sym (
          drop-append_le c buf (data_of messages)
            (rewrite_setup-Carries buf x.fake x.real s c e).3))

round-ready :
    (x : X11Session) (buf : Bytes) (messages : List Message) (next : Served) (s : Bytes) (c : ℕ)
    → rewrite_setup buf x.fake x.real ≡ ready s c
    → round x buf messages next ≡ pass_on s buf c messages
unfolding round
round-ready x buf messages next s c e = ground (arith, e)

round-incomplete :
    (x : X11Session) (buf : Bytes) (messages : List Message) (next : Served)
    → rewrite_setup buf x.fake x.real ≡ incomplete
    → length buf ≤ max_setup
    → round x buf messages next ≡ next
unfolding round
round-incomplete x buf messages next e l = ground (arith, e)

serve_from-Passes :
    (x : X11Session) (chunks : List Bytes) (buf : Bytes) (s : Bytes) (c : ℕ)
    → rewrite_setup (buf ++ data_of (map received chunks)) x.fake x.real ≡ ready s c
    → c ≤ max_setup
    → Passes (buf ++ data_of (map received chunks)) s c (serve_from x buf (map received chunks))
unfolding serve_from
serve_from-Passes x [] buf s c e l =
    let e' : rewrite_setup buf x.fake x.real ≡ ready s c =
      ap (λ b. rewrite_setup b x.fake x.real) (sym (append-nil buf)) ∙ e in
    subst (Passes (buf ++ []) s c) (sym (round-ready x buf [] (closed closed_early) s c e'))
      (pass_on-Passes x buf s c [] e')
serve_from-Passes x (chunk ∷ chunks) buf s c e l =
    let ms = map received chunks in
    let whole : (buf ++ chunk) ++ data_of ms ≡ buf ++ (chunk ++ data_of ms) =
      append_assoc buf chunk (data_of ms) in
    let next = serve_from x (buf ++ chunk) ms in
    elim (rewrite_setup-Settles x.fake x.real (chunk ++ data_of ms) buf) [
      | inl (more, less) ↦
          subst (Passes (buf ++ (chunk ++ data_of ms)) s c)
            (sym
              (round-incomplete x buf (received chunk ∷ ms) next more (omega (arith, less s c e))))
            (subst (λ w. Passes w s c next) whole
              (serve_from-Passes x chunks (buf ++ chunk) s c
                (ap (λ b. rewrite_setup b x.fake x.real) whole ∙ e) l))
      | inr same ↦
          subst (Passes (buf ++ (chunk ++ data_of ms)) s c)
            (sym (round-ready x buf (received chunk ∷ ms) next s c (sym same ∙ e)))
            (pass_on-Passes x buf s c (received chunk ∷ ms) (sym same ∙ e))
    ]

-- Where all that arrives is data, in messages of any lengths, and it starts with a setup of at most 4096
-- bytes that is accepted, the X server gets the setup with the real cookie and then, from this function
-- and from the relay, each of the other bytes in their order.
pub serve-Passes :
    (x : X11Session) (chunks : List Bytes) (s : Bytes) (c : ℕ)
    → rewrite_setup (data_of (map received chunks)) x.fake x.real ≡ ready s c
    → c ≤ max_setup
    → Passes (data_of (map received chunks)) s c (serve x (map received chunks))
unfolding serve
serve-Passes x chunks s c = serve_from-Passes x chunks [] s c

-- Whatever is passed on, a setup that is accepted came first, and nothing else.
abbrev pub Accepts : X11Session → Bytes → Served → Type 0
Accepts x whole (closed why) = Unit
Accepts x whole (relayed out rest) =
    (s : Bytes) × (c : ℕ) × (rewrite_setup whole x.fake x.real ≡ ready s c)
    × (out ++ data_of rest ≡ s ++ drop c whole)

round-refused :
    (x : X11Session) (buf : Bytes) (messages : List Message) (next : Served) (why : Refusal)
    → rewrite_setup buf x.fake x.real ≡ refused why
    → round x buf messages next ≡ closed (bad_setup why)
unfolding round
round-refused x buf messages next why e = ground (arith, e)

round-too_long :
    (x : X11Session) (buf : Bytes) (messages : List Message) (next : Served)
    → rewrite_setup buf x.fake x.real ≡ incomplete
    → max_setup < length buf
    → round x buf messages next ≡ closed too_long
unfolding round
round-too_long x buf messages next e l = ground (arith, e)

setup-stays :
    (x : X11Session) (buf more : Bytes) (s : Bytes) (c : ℕ)
    → rewrite_setup buf x.fake x.real ≡ ready s c
    → rewrite_setup (buf ++ more) x.fake x.real ≡ ready s c
setup-stays x buf more s c e = elim (rewrite_setup-Settles x.fake x.real more buf) [
  | inl (inc, less) ↦ absurd (ground (arith, inc, e))
  | inr same ↦ same ∙ e
]

round-Accepts :
    (x : X11Session) (buf : Bytes) (messages : List Message) (next : Served) (r : Setup)
    → rewrite_setup buf x.fake x.real ≡ r
    → Accepts x (buf ++ data_of messages) next
    → Accepts x (buf ++ data_of messages) (round x buf messages next)
unfolding pass_on
round-Accepts x buf messages next (ready s c) e k =
    subst (Accepts x (buf ++ data_of messages)) (sym (round-ready x buf messages next s c e))
      (s, c, setup-stays x buf (data_of messages) s c e, pass_on-Passes x buf s c messages e)
round-Accepts x buf messages next (refused why) e k =
    subst (Accepts x (buf ++ data_of messages)) (sym (round-refused x buf messages next why e)) tt
round-Accepts x buf messages next incomplete e k = elim (dec_le (length buf) max_setup) [
  | yes l ↦
      subst (Accepts x (buf ++ data_of messages)) (sym (round-incomplete x buf messages next e l)) k
  | no l ↦
      subst (Accepts x (buf ++ data_of messages))
        (sym (round-too_long x buf messages next e (omega arith))) tt
]

serve_from-Accepts :
    (x : X11Session) (buf : Bytes) (messages : List Message)
    → Accepts x (buf ++ data_of messages) (serve_from x buf messages)
unfolding serve_from
serve_from-Accepts x buf [] = round-Accepts x buf [] (closed closed_early) _ refl tt
serve_from-Accepts x buf (received chunk ∷ more) =
    round-Accepts x buf (received chunk ∷ more) (serve_from x (buf ++ chunk) more) _ refl (
      subst (λ w. Accepts x w (serve_from x (buf ++ chunk) more))
        (append_assoc buf chunk (data_of more)) (serve_from-Accepts x (buf ++ chunk) more))
serve_from-Accepts x buf (other ∷ more) =
    round-Accepts x buf (other ∷ more) (serve_from x buf more) _ refl
      (serve_from-Accepts x buf more)
serve_from-Accepts x buf (ended ∷ more) =
    round-Accepts x buf (ended ∷ more) (closed closed_early) _ refl tt
serve_from-Accepts x buf (too_late ∷ more) =
    round-Accepts x buf (too_late ∷ more) (closed no_setup) _ refl tt

-- Whatever arrives, and however it is cut into messages: nothing reaches the X server unless all that
-- arrives starts with a setup that is accepted, and then the setup with the real cookie and the other
-- bytes in their order are what the X server and the relay get.
pub serve-Accepts :
    (x : X11Session) (messages : List Message) → Accepts x (data_of messages) (serve x messages)
unfolding serve
serve-Accepts x messages = serve_from-Accepts x [] messages
