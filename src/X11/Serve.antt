-- ===== src/X11/Serve.antt =====
-- Reading the setup off a channel: `serve` of src-tauri/src/x11_forward.rs, up to where the rest is
-- relayed. What arrives is a list of messages; the X server takes what is written to it.
pub mod Chunks
use bifro_ssh.Common.{
  ℕ, Bool, true, false, Option, none, some, List, [], ◌∷◌, ◌++◌, if◌then◌else◌, ltb, length, drop,
  Bytes,
}
use bifro_ssh.X11.Setup.{Refusal, Setup, incomplete, refused, ready, rewrite_setup}

-- Data, any other message, the end of the channel, and the time running out.
pub data Message : Type 0 where
  received : Bytes → Message
  other ended too_late : Message

pub data Failure : Type 0 where
  bad_setup : Refusal → Failure
  too_long closed_early no_setup : Failure

-- What is written to the X server before the relay, and the messages that the relay gets.
pub data Served : Type 0 where
  closed : Failure → Served
  relayed : Bytes → List Message → Served

pub record X11Session : Type 0 where
  pub fake : Bytes
  pub real : Option Bytes

abbrev pub max_setup : ℕ
max_setup = 4096

unfoldable pub pass_on : Bytes → Bytes → ℕ → List Message → Served
pass_on setup buf consumed messages = relayed (setup ++ drop consumed buf) messages

-- One round of the loop, in which `next` is what comes of the message that it waits for.
unfoldable pub round : X11Session → Bytes → List Message → Served → Served
unfolding pass_on
round x buf messages next = elim (rewrite_setup buf x.fake x.real) [
  | ready setup consumed ↦ pass_on setup buf consumed messages
  | refused why ↦ closed (bad_setup why)
  | incomplete ↦ if ltb max_setup (length buf) then closed too_long else next
]

-- A channel that has no more messages has closed.
unfoldable pub serve_from : X11Session → Bytes → List Message → Served
unfolding round rewrite_setup
serve_from x buf [] = round x buf [] (closed closed_early)
serve_from x buf (received chunk ∷ more) =
    round x buf (received chunk ∷ more) (serve_from x (buf ++ chunk) more)
serve_from x buf (other ∷ more) = round x buf (other ∷ more) (serve_from x buf more)
serve_from x buf (ended ∷ more) = round x buf (ended ∷ more) (closed closed_early)
serve_from x buf (too_late ∷ more) = round x buf (too_late ∷ more) (closed no_setup)

unfoldable pub serve : X11Session → List Message → Served
unfolding serve_from
serve x messages = serve_from x [] messages
