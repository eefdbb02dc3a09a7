-- ===== src/Lib.antt =====
-- The verification library of BifroSSH, an SSH client: its back end, in Rust, under src-tauri/src. It
-- covers what decides whether a server is trusted, what a connection to it is made of, where the master
-- key lives, and how the saved records are kept, changed and merged.
--
-- The parts, and how they meet:
-- * KnownHosts models hostkeys.rs, the known_hosts files. Wildcard has `glob_match`; Line the keys and
--   the lines (`split_line`, `scan`, `host_matches`, `host_spec`); Check has `check_host` and
--   `learn_host`; Edit the removal of lines, the order of algorithms and the lists; Import the lines
--   of an export. A known_hosts file is absent or holds a text, and the record Disk is BifroSSH's own
--   file, the user's OpenSSH file, and which of the writes succeed. Each operation takes a Disk and
--   returns one. A loop of the source that returns early is a list walk with the variables that the
--   loop carries (`Seen`, `Merge`).
-- * HostVerify models hostverify.rs: `verify_offer` and `verify`, which act on the verdict of
--   `check_host` under the policy, ask the user, and learn or replace the key. Setting holds the
--   user's answer, and what becomes of the files while the prompt is open. A message that the source
--   records is a constructor of Refusal.
-- * Resolve models commands/resolve.rs, with `key_pem` of commands/records.rs: the credentials, jump
--   hosts and proxy command of a saved server.
-- * Jump models jump.rs: how the connection is opened through the jump hosts, each one verified as
--   above. What is done to the network is a list of events, and Net says which of them succeed.
-- * ProxyCommand models proxycmd.rs, which Jump expands before it dials.
-- * Socks5 models socks5.rs, the server side of a dynamic forward. A stream is the bytes still to be
--   read and those written so far.
-- * SshConfig models sshconfig.rs: the directives and hosts of a client config, its includes
--   (SshConfig.Include), and the links that a jump chain is saved as (SshConfig.Chain).
-- * OsDetect models osdetect.rs: the name of a host's system, read off what its shell printed.
-- * Auth models ssh/auth.rs, which Jump's signing in stands for: a Session adds to the list of requests
--   that were sent, and Peers are the server, the agent and the user, by what was sent before. Secrecy
--   says what may be sent; Triple is the rule for runs one after the other; Prompts, Keys, Agent and
--   SignIn follow the methods. SshCert models sshcert.rs, the certificates of keys.
-- * X11 models x11_forward.rs: the display and the Xauthority file, the first bytes of a connection
--   (X11.Setup, `rewrite_setup`), and the loop that reads them off a channel (X11.Serve), whose
--   messages are a list.
-- * Ppk models ppk.rs, the conversion of PuTTY's keys: the file, SSH's strings (Ppk.Wire), the
--   decryption and the MAC (Ppk.Open) and the key that is written (Ppk.Build).
-- * Importers models the readers under importers: Csv, and a module for each client; Sources is `sniff`
--   and `parse`, which choose among them.
-- * Models models models.rs: the saved document with its defaults (Models.Settings, Models.Saved), and
--   the commands, tags and environment lines of a host (Models.History).
-- * Store models store.rs, the data file: a save and a load are actions on a Folder of four files,
--   and a run keeps each state that the folder passes through, one for each character written.
-- * Keystore models keystore.rs, with KeyringStatus of keyring/mod.rs: the operations on keystore.json
--   and .secret, which are actions with a state and an error. A Folder also has the fates of the
--   writes to come: done, refused, cut short, which leaves a file that cannot be read, or done but
--   not flushed, which is an error too. Wrapper wraps keys, Unlock opens and repairs, Change sets up
--   and changes, Pin counts the tries. Rules, Kept, Launch, Reopens and Tries have the proofs.
-- * Backup models backup.rs: moving secrets between keys, merging one collection (Backup.Merge), and
--   `apply_merge` (Backup.Apply), which ends in the import of known_hosts lines of KnownHosts.Import.
-- * Records models commands/records.rs: redaction, upsert, tags, and the removal of hosts.
-- * Common has what they share: text as lists of code points with the functions of `str` that are
--   used, decimal numbers, UTF-8, results. Tests has the runs on concrete data.
--
-- Functions keep their names; a branch or a loop of a long function has a name of its own, and a
-- comment where the name does not say which. Numbers are natural numbers: ports are below 65536
-- where they are parsed (`parse_u16`), bytes are below 256, and neither is computed with beyond what
-- is written out.
--
-- Fuel: `glob_loop` takes (|text| + 1) * (|pattern| + 1) rounds, since between two steps of the last
-- star the text is read on or the pattern is. `expand_includes` takes its depth as the source does, and
-- 17 rounds besides, one for each depth from 0 to 16, where the source's own limit ends it. Decimal
-- digits are produced with one round more than the number. An entry of an Xauthority file takes ten bytes at least, so as many rounds as the file has bytes are
-- enough; the twenty rounds of prompts are the source's. Everything else is by recursion on a list.
--
-- Parameters: Codec is the crates base64, hmac with sha1, and sha2; Secrets is the decryption under
-- the master key, the reading of key files and of certificates beside them; World is the file
-- system, the paths, the home directory and Unicode lower case, which OsDetect takes alone;
-- `lossy` is `String::from_utf8_lossy`, for the bytes of a SOCKS5 request and of an Xauthority file; the
-- list of algorithms is that of russh. Sealing is serde_json and the cipher of the data file; Env is Argon2, the cipher, the answer of the desktop keyring and what an operation
-- draws at random; Crypto is the cipher of the secret fields; `hw_mac` is the HMAC of the phone. SshKeys is
-- what ssh_key and russh::keys read of keys and certificates; Crypto of Ppk is base64, SHA-1, HMAC, AES
-- and Argon2.
--
-- Not modelled: logs and the wording of most messages; locks between threads; timeouts, but for that of
-- an X11 setup; file modes and the flush of a directory; how serde reads older documents; the SSH
-- protocol itself, which is russh; the sealing of an export file; SFTP, tunnels,
-- sessions and the user interface.
pub mod Common
pub mod Models
pub mod Store
pub mod Keystore
pub mod Backup
pub mod Records
pub mod X11
pub mod SshCert
pub mod Auth
pub mod Ppk
pub mod Importers
pub mod KnownHosts
pub mod HostVerify
pub mod Socks5
pub mod ProxyCommand
pub mod Resolve
pub mod Jump
pub mod SshConfig
pub mod OsDetect
pub mod Tests
