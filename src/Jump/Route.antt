-- ===== src/Jump/Route.antt =====
-- The route of a connection: which events there are, and in which order.
use bifro_ssh.Common.{
  ℕ, ◌+◌, ◌≤◌, ◌≡◌, refl, sym, ap, ◌∙◌, ◌⊎◌, inl, inr, Option, none, some, List, [], ◌∷◌, ◌++◌,
  append_assoc, append-nil, arith, Bool-cases, ltb, length, get_elem?, Text, Result, ok, err,
}
use bifro_ssh.ProxyCommand.{ProxyCommand, expanded}
use bifro_ssh.Resolve.{JumpHop}
use bifro_ssh.Jump.{
  JumpError, max_hops, check_chain, dial_target, Event, tcp, run_proxy, verify_hop, sign_in,
  open_channel, Net, Trace, attempt, dial, through, dial_through, open_transport, not_verified,
  not_authenticated, not_opened, not_dialled,
}

module _ (target_host : Text) (target_port : ℕ) where
  -- The next machine on the way.
  abbrev pub next_of : List JumpHop → Text × ℕ
  next_of [] = (target_host, target_port)
  next_of (hop ∷ _) = (hop.host, hop.port)

  -- Each hop is verified, signed in to, and opens the channel to the next machine.
  abbrev pub hop_events : List JumpHop → List Event
  hop_events [] = []
  hop_events (hop ∷ rest) =
      verify_hop hop.host hop.port
      ∷ sign_in hop.host hop.username hop.auth
      ∷ open_channel hop.host hop.port (next_of rest).0 (next_of rest).1
      ∷ hop_events rest

attempt-ok :
    (net : Net) (done : List Event) (e : Event) (why : JumpError)
    (next : List Event → Trace (Unit {0})) (events : List Event)
    → attempt net done e why next ≡ (ok tt, events)
    → next (done ++ e ∷ []) ≡ (ok tt, events)
unfolding attempt
attempt-ok net done e why next events h = elim (Bool-cases (net done e)) [
  | inl y ↦ rw y at h
  | inr n ↦ absurd (cc (rw n at h))
]

Result-cases : {E A : Type 0} (r : Result E A) → ((a : A) × (r ≡ ok a)) ⊎ ((e : E) × (r ≡ err e))
Result-cases (ok a) = inl (a, refl)
Result-cases (err e) = inr (e, refl)

module _ (net : Net) (hops : List JumpHop) (host : Text) (port : ℕ) where
  get_elem?-append :
      (pre rest : List JumpHop) → get_elem? (pre ++ rest) (length pre) ≡ get_elem? rest 0
  get_elem?-append [] rest = refl
  get_elem?-append (x ∷ pre) rest = get_elem?-append pre rest

  dial_target-next :
      (pre rest : List JumpHop) (hop : JumpHop)
      → hops ≡ (pre ++ hop ∷ []) ++ rest
      → dial_target hops (length pre) host port ≡ next_of host port rest
  dial_target-next pre rest hop e = at_rest rest (place rest e)
    where
      len : (p : List JumpHop) → length (p ++ hop ∷ []) ≡ length p + 1
      len [] = refl
      len (x ∷ p) = omega (arith, len p)

      place :
          (r : List JumpHop)
          → hops ≡ (pre ++ hop ∷ []) ++ r
          → get_elem? hops (length pre + 1) ≡ get_elem? r 0
      place r q =
          ap (λ xs. get_elem? xs (length pre + 1)) q
          ∙ ap (get_elem? ((pre ++ hop ∷ []) ++ r)) (sym (len pre))
          ∙ get_elem?-append (pre ++ hop ∷ []) r

      at_rest :
          (r : List JumpHop)
          → get_elem? hops (length pre + 1) ≡ get_elem? r 0
          → dial_target hops (length pre) host port ≡ next_of host port r
      at_rest [] q = unfold dial_target in rw (q, dial_target)
      at_rest (x ∷ r) q = unfold dial_target in rw (q, dial_target)

  through-events :
      (pre rest : List JumpHop) (done events : List Event)
      → hops ≡ pre ++ rest
      → through net hops host port (length pre) rest done ≡ (ok tt, events)
      → events ≡ done ++ hop_events host port rest
  unfolding through
  through-events pre [] done events e h = ground (arith, append-nil done)
  through-events pre (hop ∷ rest) done events e h =
      let v = verify_hop hop.host hop.port in
      let i = sign_in hop.host hop.username hop.auth in
      let t = dial_target hops (length pre) host port in
      let o = open_channel hop.host hop.port t.0 t.1 in
      let h1 = attempt-ok net done v not_verified _ events h in
      let h2 = attempt-ok net (done ++ v ∷ []) i not_authenticated _ events h1 in
      let h3 = attempt-ok net ((done ++ v ∷ []) ++ i ∷ []) o not_opened _ events h2 in
      let split = e ∙ sym (append_assoc pre (hop ∷ []) rest) in
      let later =
        through-events (pre ++ hop ∷ []) rest (((done ++ v ∷ []) ++ i ∷ []) ++ o ∷ []) events split
          (ap (λ n. through net hops host port n rest (((done ++ v ∷ []) ++ i ∷ []) ++ o ∷ []))
              (length-concat pre hop)
            ∙ h3) in
      later
      ∙ regroup done v i o (hop_events host port rest)
      ∙ ap
          (λ m.
            done
            ++ (v ∷ i ∷ open_channel hop.host hop.port (m.0) (m.1) ∷ hop_events host port rest))
          (dial_target-next pre rest hop split)
    where
      length-concat : (p : List JumpHop) (x : JumpHop) → length (p ++ x ∷ []) ≡ length p + 1
      length-concat [] x = refl
      length-concat (y ∷ p) x = omega (arith, length-concat p x)

      regroup :
          (xs : List Event) (a b c : Event) (ys : List Event)
          → (((xs ++ a ∷ []) ++ b ∷ []) ++ c ∷ []) ++ ys ≡ xs ++ (a ∷ b ∷ c ∷ ys)
      regroup xs a b c ys = simp append_assoc

-- The first connection out of this machine.
pub data FirstEvent (host : Text) (port : ℕ) : Option ProxyCommand → Event → Type 0 where
  direct : FirstEvent host port none (tcp host port)
  by_proxy :
      {p : ProxyCommand} {command : Text}
      → expanded p ≡ ok command
      → FirstEvent host port (some p) (run_proxy command)

dial-ok :
    (net : Net) (host : Text) (port : ℕ) (proxy : Option ProxyCommand)
    (next : List Event → Trace (Unit {0})) (events : List Event)
    → dial net host port proxy next ≡ (ok tt, events)
    → (e : Event) × FirstEvent host port proxy e × (next (e ∷ []) ≡ (ok tt, events))
unfolding dial
dial-ok net host port none next events h =
    (tcp host port, direct, attempt-ok net [] (tcp host port) not_dialled next events h)
dial-ok net host port (some p) next events h = elim (Result-cases (expanded p)) [
  | inl (c, e) ↦ (
    run_proxy c,
    by_proxy e,
    attempt-ok net [] (run_proxy c) not_dialled next events (rw (e, dial) at h),
  )
  | inr (x, e) ↦ absurd (cc (rw (e, dial) at h))
]

dialled :
    (net : Net) (hops : List JumpHop) (host : Text) (port : ℕ) (proxy : Option ProxyCommand)
    (events : List Event)
    → dial_through net hops host port hops proxy ≡ (ok tt, events)
    → (first : Event) × FirstEvent (next_of host port hops).0 (next_of host port hops).1 proxy first
      × (events ≡ first ∷ hop_events host port hops)
dialled net [] host port proxy events h =
    let (e, f, k) =
      dial-ok net host port proxy (λ done. (ok tt, done)) events (unfold dial_through in h) in
    (e, f, ground arith)
dialled net (hop ∷ rest) host port proxy events h =
    let (e, f, k) =
      dial-ok net hop.host hop.port proxy (through net (hop ∷ rest) host port 0 (hop ∷ rest)) events
        (unfold dial_through in h) in
    (e, f, through-events net (hop ∷ rest) host port [] (hop ∷ rest) (e ∷ []) events refl k)

-- A transport that is opened has gone the whole route: the first machine, a jump host or else the
-- target, is dialled by TCP or, where there is a proxy command, by that, expanded; then each hop is
-- verified and signed in to before the channel to the next machine is opened through it, and the
-- last of these is the target. There are at most eight hops.
pub open_transport-route :
    (net : Net) (hops : List JumpHop) (host : Text) (port : ℕ) (proxy : Option ProxyCommand)
    (events : List Event)
    → open_transport net hops host port proxy ≡ (ok tt, events)
    → (length hops ≤ max_hops)
      × ((first : Event) × FirstEvent
            (next_of host port hops).0
            (next_of host port hops).1
            proxy
            first
          × (events ≡ first ∷ hop_events host port hops))
open_transport-route net hops host port proxy events h =
    elim (Bool-cases (ltb max_hops (length hops))) [
      | inl long ↦ absurd (unfold open_transport in ground arith)
      | inr short ↦ (
        ground arith,
        dialled net hops host port proxy events (unfold open_transport check_chain in ground arith),
      )
    ]
