-- ===== src/Prelude/Platform.antt =====
-- What the code takes from packages that are not modelled: address parsing of `net` and `net/netip`
-- and the hashes and curves of `crypto`.
use mathlib.Core.Bool.{Bool}
use mathlib.Core.Option.{Option}
use tunnelfolio.Prelude.Text.{Text}

pub record Platform : Type 0 where
  -- `netip.ParseAddr` and `netip.ParsePrefix` succeed.
  pub is_address : Text → Bool
  pub is_prefix : Text → Bool
  -- `net.ParseIP(host)` is an address, and a loopback one.
  pub is_loopback : Text → Bool
  -- `sha256.Sum256` and the hexadecimal text of a digest.
  pub sha256_hex : Text → Text
  -- The public key of an X25519 private key, if `NewPrivateKey` accepts it.
  pub x25519_public : Text → Option Text
