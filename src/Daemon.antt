-- ===== src/Daemon.antt =====
-- The daemon's transport, internal/daemon: what it decides about connections, sightings and dials.
--
-- The libraries that the code calls are one parameter: SHA-256, hexadecimal printing, the decoding of
-- JSON into an identity body, and Unicode.
pub mod Handshake
pub mod Sightings
pub mod Dial
pub mod Reconnect
mod Tests
use kcd.Base.{ℕ, String, Bool, Option, List, leb, ltb, ◌&&◌}
use kcd.Protocol.{Body, IdentityBody}
use kcd.Protocol.Names.{Unicode}
use kcd.Device.{Certificate}
use kcd.Cert.{fingerprint}

pub record Env : Type 0 where
  pub unicode : Unicode
  pub decode : Body → Option IdentityBody
  pub sha256 : List ℕ → List ℕ
  pub hex : List ℕ → String

abbrev pub fingerprint_in : Env → Certificate → String
fingerprint_in env c = fingerprint env.sha256 env.hex c

unfoldable pub valid_dial_port : ℕ → Bool
valid_dial_port port = ltb 0 port && leb port 65535
