-- ===== src/HostVerify.antt =====
-- The decision about an offered host key: `HostKeyVerifier::verify_offer`, `verify` and `ask` of
-- src-tauri/src/hostverify.rs. A message is the constructor that names it, with what it quotes; the
-- log is not modelled.
pub mod Policy
use bifro_ssh.Common.{
  ℕ, Bool, true, false, ◌&&◌, not, Option, none, some, if◌then◌else◌, Text, Result, ok, err,
}
use bifro_ssh.Models.Settings.{HostKeyPolicy, ask, accept_new, strict}
use bifro_ssh.KnownHosts.Line.{Codec, PublicKey}
use bifro_ssh.KnownHosts.Check.{
  StoredKey, KnownHostStatus, matched, unknown, mismatch, other_type, revoked, Disk, HostError,
  learn_host, check_host,
}
use bifro_ssh.KnownHosts.Edit.{replace_host}

pub data HostKeyDecision : Type 0 where
  trust once replace reject : HostKeyDecision

-- What `fail` records.
pub data Refusal : Type 0 where
  is_revoked : Refusal
  has_changed : StoredKey → Refusal
  other_key_type : StoredKey → Refusal
  not_updated : HostError → Refusal
  not_written : HostError → Refusal
  unknown_strict : Refusal
  unknown_unattended : Refusal
  was_rejected : Refusal
  offered_certificate : Refusal

-- The connection's settings, the host, and what the world does: the user's answer to a prompt, if
-- one comes, and what becomes of the files while the prompt is open.
pub record Setting : Type 0 where
  pub codec : Codec
  pub policy : HostKeyPolicy
  pub interactive : Bool
  pub host : Text
  pub port : ℕ
  pub answer : Option HostKeyDecision
  pub meanwhile : Disk → Disk

-- `accepted` is what the handler returns, `outcome` the recorded reason, `asked` whether the user was.
pub record Verified : Type 0 where
  pub accepted : Bool
  pub outcome : Option Refusal
  pub asked : Bool
  pub disk : Disk

-- `ask`: no answer means reject.
unfoldable pub decide : Option HostKeyDecision → HostKeyDecision
decide none = reject
decide (some d) = d

abbrev refuse : Refusal → Bool → Disk → Verified
refuse why asked disk = record { accepted = false; outcome = some why; asked = asked; disk = disk }

abbrev grant : Option Refusal → Bool → Disk → Verified
grant outcome asked disk = record { accepted = true; outcome = outcome; asked = asked; disk = disk }

-- After `learn_host`.
abbrev learned : Option Refusal → Bool → Result HostError (Unit {0}) × Disk → Verified
learned outcome asked (ok _, disk) = grant outcome asked disk
learned outcome asked (err e, disk) = refuse (not_written e) asked disk

-- After `replace_host`; the recorded reason no longer applies once it succeeds.
abbrev replaced : Result HostError (Unit {0}) × Disk → Verified
replaced (ok _, disk) = grant none true disk
replaced (err e, disk) = refuse (not_updated e) true disk

abbrev must_ask : HostKeyPolicy → Bool → Bool
must_ask ask interactive = interactive
must_ask _ interactive = false

-- The answer to the prompt about a changed key, or one of another type.
unfoldable pub decide_changed : Setting → PublicKey → Refusal → HostKeyDecision → Disk → Verified
decide_changed s key why replace disk = replaced (replace_host s.codec s.host s.port key disk)
decide_changed s key why _ disk = refuse why true disk

-- The branch of a key that is not the stored one.
unfoldable pub verify_changed : Setting → PublicKey → Refusal → Disk → Verified
unfolding decide_changed decide
verify_changed s key why disk =
    if must_ask s.policy s.interactive
    then decide_changed s key why (decide s.answer) (s.meanwhile disk)
    else refuse why false disk

unfoldable pub decide_unknown :
    Setting → PublicKey → Option Refusal → HostKeyDecision → Disk → Verified
decide_unknown s key outcome trust disk =
    learned outcome true (learn_host s.codec s.host s.port key disk)
decide_unknown s key outcome once disk = grant outcome true disk
decide_unknown s key outcome _ disk = refuse was_rejected true disk

-- The branch of a host that no file has a key for.
unfoldable pub verify_unknown :
    HostKeyPolicy → Setting → PublicKey → Option Refusal → Disk → Verified
unfolding decide_unknown decide
verify_unknown accept_new s key outcome disk =
    learned outcome false (learn_host s.codec s.host s.port key disk)
verify_unknown strict s key outcome disk = refuse unknown_strict false disk
verify_unknown ask s key outcome disk =
    if not s.interactive
    then refuse unknown_unattended false disk
    else decide_unknown s key outcome (decide s.answer) (s.meanwhile disk)

unfoldable pub verify_status :
    Setting → PublicKey → Option Refusal → KnownHostStatus → Disk → Verified
unfolding verify_changed verify_unknown
verify_status s key outcome (matched _) disk = grant outcome false disk
verify_status s key outcome revoked disk = refuse is_revoked false disk
verify_status s key outcome (mismatch k) disk = verify_changed s key (has_changed k) disk
verify_status s key outcome (other_type k) disk = verify_changed s key (other_key_type k) disk
verify_status s key outcome unknown disk = verify_unknown s.policy s key outcome disk

unfoldable pub verify : Setting → PublicKey → Option Refusal → Disk → Verified
unfolding verify_status
verify s key outcome disk =
    let (status, disk') = check_host s.codec s.host s.port key disk in
    verify_status s key outcome status disk'

-- What the server offers: a plain key, or a certificate.
pub data Offer : Type 0 where
  public_key : PublicKey → Offer
  certificate : Offer

unfoldable pub verify_offer : Setting → Offer → Option Refusal → Disk → Verified
unfolding verify
verify_offer s (public_key key) outcome disk = verify s key outcome disk
verify_offer s certificate outcome disk = refuse offered_certificate false disk
