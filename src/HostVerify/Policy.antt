-- ===== src/HostVerify/Policy.antt =====
-- Which keys are accepted, under each policy.
use bifro_ssh.Common.{
  ◌≡◌, ◌≢◌, ◌↔◌, refl, ◌⊎◌, inl, inr, true, false, Option, none, some, arith, ok,
}
use bifro_ssh.KnownHosts.Line.{PublicKey}
use bifro_ssh.KnownHosts.Check.{
  HostKeySource, StoredKey, KnownHostStatus, matched, unknown, mismatch, other_type, revoked, Disk,
  learn_host, check_host,
}
use bifro_ssh.KnownHosts.Edit.{replace_host}
use bifro_ssh.Models.Settings.{HostKeyPolicy, ask, accept_new, strict}
use bifro_ssh.HostVerify.{
  HostKeyDecision, trust, once, replace, reject, Setting, Refusal, has_changed, other_key_type,
  verify, verify_status, verify_changed, verify_unknown, Offer, public_key, certificate,
  verify_offer, decide,
}

-- The ways in: a stored copy of the key; a new host, under accept-new or by the user's word; a
-- changed key, by the user's word to replace it, which reached the file.
pub data MayEnter (s : Setting) (key : PublicKey) : KnownHostStatus → Disk → Type 0 where
  is_stored : {source : HostKeySource} {disk : Disk} → MayEnter s key (matched source) disk
  is_new :
      {disk : Disk}
      → s.policy ≡ accept_new
      → (learn_host s.codec s.host s.port key disk).0 ≡ ok tt
      → MayEnter s key unknown disk
  is_trusted :
      {disk : Disk}
      → s.policy ≡ ask
      → s.interactive ≡ true
      → s.answer ≡ some trust
      → (learn_host s.codec s.host s.port key (s.meanwhile disk)).0 ≡ ok tt
      → MayEnter s key unknown disk
  is_let_in :
      {disk : Disk}
      → s.policy ≡ ask
      → s.interactive ≡ true
      → s.answer ≡ some once
      → MayEnter s key unknown disk
  is_replaced :
      {k : StoredKey} {status : KnownHostStatus} {disk : Disk}
      → (status ≡ mismatch k) ⊎ (status ≡ other_type k)
      → s.policy ≡ ask
      → s.interactive ≡ true
      → s.answer ≡ some replace
      → (replace_host s.codec s.host s.port key (s.meanwhile disk)).0 ≡ ok tt
      → MayEnter s key status disk

Answer-cases :
    (a : Option HostKeyDecision)
    → (a ≡ some trust) ⊎ (a ≡ some once) ⊎ ((decide a ≡ replace) ⊎ (decide a ≡ reject))
unfolding decide
Answer-cases a = ground arith

verify_changed-replace :
    (s : Setting) (key : PublicKey) (why : Refusal) (disk : Disk)
    → (verify_changed s key why disk).accepted ≡ true
    → (s.policy ≡ ask)
      × (s.interactive ≡ true)
      × (s.answer ≡ some replace)
      × ((replace_host s.codec s.host s.port key (s.meanwhile disk)).0 ≡ ok tt)
unfolding verify_changed
verify_changed-replace s key why disk h = (ground arith, ground arith, ground arith, ground arith)

HostKeyPolicy-cases : (p : HostKeyPolicy) → (p ≡ ask) ⊎ (p ≡ accept_new) ⊎ (p ≡ strict)
HostKeyPolicy-cases ask = inl refl
HostKeyPolicy-cases accept_new = inr (inl refl)
HostKeyPolicy-cases strict = inr (inr refl)

verify_unknown-MayEnter :
    (s : Setting) (key : PublicKey) (outcome : Option Refusal) (disk : Disk)
    → (verify_unknown s.policy s key outcome disk).accepted ≡ true
    → MayEnter s key unknown disk
unfolding verify_unknown
verify_unknown-MayEnter s key outcome disk h = elim (HostKeyPolicy-cases s.policy) [
  | inl e ↦ elim (Answer-cases s.answer) [
    | inl a ↦ is_trusted e (ground arith) a (ground arith)
    | inr (inl a) ↦ is_let_in e (ground arith) a
    | inr (inr a) ↦ absurd (ground arith)
  ]
  | inr (inl e) ↦ is_new e (ground arith)
  | inr (inr e) ↦ absurd (ground arith)
]

verify_status-MayEnter :
    (s : Setting) (key : PublicKey) (outcome : Option Refusal) (status : KnownHostStatus)
    (disk : Disk)
    → (verify_status s key outcome status disk).accepted ≡ true
    → MayEnter s key status disk
unfolding verify_status
verify_status-MayEnter s key outcome (matched _) disk h = is_stored
verify_status-MayEnter s key outcome revoked disk h = cc
verify_status-MayEnter s key outcome (mismatch k) disk h =
    let (a, b, c, d) = verify_changed-replace s key (has_changed k) disk h in
    is_replaced (inl refl) a b c d
verify_status-MayEnter s key outcome (other_type k) disk h =
    let (a, b, c, d) = verify_changed-replace s key (other_key_type k) disk h in
    is_replaced (inr refl) a b c d
verify_status-MayEnter s key outcome unknown disk h = verify_unknown-MayEnter s key outcome disk h

-- A key is accepted only in one of the ways of `MayEnter`, for the status that the files give it.
-- So nothing but a stored copy of the key passes under the strict policy, a changed key passes only
-- with the user's word to replace it, and no answer is a refusal.
pub verify-MayEnter :
    (s : Setting) (key : PublicKey) (outcome : Option Refusal) (disk : Disk)
    → (verify s key outcome disk).accepted ≡ true
    → MayEnter s key
        (check_host s.codec s.host s.port key disk).0
        (check_host s.codec s.host s.port key disk).1
unfolding verify
verify-MayEnter s key outcome disk =
    let (status, disk') = check_host s.codec s.host s.port key disk in
    verify_status-MayEnter s key outcome status disk'

verify_status-outcome :
    (s : Setting) (key : PublicKey) (status : KnownHostStatus) (disk : Disk)
    → ((verify_status s key none status disk).accepted ≡ true)
      ↔ ((verify_status s key none status disk).outcome ≡ none)
unfolding verify_status verify_changed verify_unknown
verify_status-outcome s key (matched _) disk = (λ h. refl, λ h. refl)
verify_status-outcome s key _ disk = (λ h. ground arith, λ h. ground arith)

-- A verifier with no reason recorded has one afterwards
-- exactly when it refused the offer.
pub verify_offer-outcome :
    (s : Setting) (offer : Offer) (disk : Disk)
    → ((verify_offer s offer none disk).accepted ≡ true)
      ↔ ((verify_offer s offer none disk).outcome ≡ none)
unfolding verify_offer verify
verify_offer-outcome s (public_key key) disk =
    let (status, disk') = check_host s.codec s.host s.port key disk in
    verify_status-outcome s key status disk'
verify_offer-outcome s certificate disk = (λ h. cc, λ h. cc)

-- Without the user at hand, and under another policy than accept-new, nothing is asked and the
-- files are as the check left them.
pub verify-unattended :
    (s : Setting) (key : PublicKey) (outcome : Option Refusal) (disk : Disk)
    → s.interactive ≡ false
    → s.policy ≢ accept_new
    → ((verify s key outcome disk).asked ≡ false)
      × ((verify s key outcome disk).disk ≡ (check_host s.codec s.host s.port key disk).1)
unfolding verify verify_status verify_changed verify_unknown
verify-unattended s key outcome disk i p = (ground arith, ground arith)
