-- ===== src/Manager/Backends.antt =====
-- internal/tunnel/types.go: what the manager asks of a protocol's backend. A backend acts on the same
-- machine as the store. Contexts and their timeouts are not modelled: a call that is cut short is one
-- that answers with an error.
use tunnelfolio.Prelude.{ℕ, Bool, List}
use tunnelfolio.Prelude.Text.{Text}
use tunnelfolio.Prelude.Int.{ℤ}
use tunnelfolio.Prelude.Err.{Err, Result}
use tunnelfolio.Prelude.Exec.{Exec}
use tunnelfolio.Profiles.Model.{Profile, Time}
use tunnelfolio.Store.Host.{Host, FilePath}
use tunnelfolio.Store.Objects.{object_path}

-- `tunnel.Profile`
pub record TunnelProfile : Type 0 where
  pub id : Text
  pub protocol : Text
  pub identifier : Text
  pub path : FilePath
  pub wireguard_public_key_sha256 : Text

-- `tunnel.Observation`
pub record Observation : Type 0 where
  pub profile_id : Text
  pub protocol : Text
  pub identifier : Text

-- `tunnel.WireGuardPeerStatus`
pub record PeerStatus : Type 0 where
  pub endpoint : Text
  pub latest_handshake : ℤ
  pub received_bytes : ℕ
  pub sent_bytes : ℕ

-- `tunnel.ProtocolStatus`
pub record ProtocolStatus : Type 0 where
  pub state : Text
  pub received_bytes : ℕ
  pub sent_bytes : ℕ
  pub peers : List PeerStatus

-- `runtimeProfileAt`
unfoldable pub runtime_profile_at : Profile → FilePath → TunnelProfile
runtime_profile_at p path = record {
  id = p.id;
  protocol = p.protocol;
  identifier = p.identifier;
  path = path;
  wireguard_public_key_sha256 = p.wireguard_public_key_sha256;
}

-- `runtimeProfile`
unfoldable pub runtime_profile : Profile → TunnelProfile
unfolding runtime_profile_at
runtime_profile p = runtime_profile_at p (object_path p)

-- `m.backends`, by protocol, with the manager's other options.
pub record Backends (H : Host) : Type 0 where
  -- `m.backends[protocol] != nil`
  pub installed : Text → Bool
  pub available : Text → Exec H.World Err
  pub observe : Text → List TunnelProfile → Exec H.World (List Observation × Err)
  pub start : Text → TunnelProfile → Exec H.World Err
  pub stop : Text → TunnelProfile → Exec H.World Err
  pub status : Text → TunnelProfile → Exec H.World (Result ProtocolStatus)
  pub shutdown : Text → Exec H.World Err
  -- `Options.ReadOnly`
  pub read_only : Bool
  -- `m.now().Unix()`
  pub now : Exec H.World ℤ
  -- `t.UTC().Format(time.RFC3339)`
  pub format_time : Time → Text
