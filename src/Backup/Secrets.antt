-- ===== src/Backup/Secrets.antt =====
-- An export without secrets: `strip_secrets` and `has_secrets` of src-tauri/src/backup.rs.
use bifro_ssh.Common.{◌≡◌, refl, Bool, false, List, [], ◌∷◌, map, any, is_some, ◌||◌}
use bifro_ssh.Backup.{Payload, strip_server, strip_identity, strip_key, strip_secrets, has_secrets}

any-map-none :
    {A B : Type 0} (p : B → Bool) (f : A → B) (xs : List A)
    → ((x : A) → p (f x) ≡ false)
    → any p (map f xs) ≡ false
any-map-none p f [] h = refl
any-map-none p f (x ∷ xs) h = rw (h x) (any-map-none p f xs h)

-- Nothing that was stripped has a secret.
pub has_secrets-strip_secrets : (payload : Payload) → has_secrets (strip_secrets payload) ≡ false
unfolding has_secrets strip_secrets
has_secrets-strip_secrets payload =
    rw
      (
        any-map-none (λ s. is_some s.encrypted_password) strip_server payload.servers (λ _. refl),
        any-map-none (λ i. is_some i.encrypted_password) strip_identity payload.identities
            (λ _. refl),
      )
      (any-map-none (λ k. is_some k.encrypted_key || is_some k.encrypted_passphrase) strip_key
        payload.keys (λ _. refl))
