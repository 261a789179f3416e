-- ===== src/Discovery/Beacon/Heard.antt =====
-- What one machine announces is what another one reports.
use uniondesk.Common.{
  ℕ, Bool, true, false, ◌&&◌, some, [], ◌∷◌, ◌==◌, ◌≡◌, refl, ◌∙◌, ap, if◌then◌else◌,
}
use uniondesk.Discovery.{SocketAddr, DiscoverSource}
use uniondesk.Engine.Dispatch.{found, lost}
use uniondesk.Codec.{Bytes}
use uniondesk.Discovery.Beacon.{
  Advertise, BeaconJson, beacon_of, our_beacon, Reaction, hear, react, sent_to, default_port,
}

-- What a machine should make of the announcement of another one, told apart from the code: a farewell is a
-- loss; anything else is a sighting, answered when it asks and this machine may be seen.
abbrev pub expected : BeaconJson → Advertise → Advertise → ℕ → SocketAddr → Bool → Bool → Reaction
expected serde me other unix sender inquiry true = record {
  replies = [];
  events = lost other.device_id ∷ [];
}
expected serde me other unix sender inquiry false = record {
  replies = if inquiry && me.enabled then sent_to sender (our_beacon serde me false false) else [];
  events =
      found (record {
        device_id = other.device_id;
        name = other.name;
        os = other.os;
        fingerprint = other.fingerprint;
        addresses = sender.ip ∷ [];
        port = if other.port == 0 then default_port else other.port;
        source = DiscoverSource.beacon;
        last_seen = unix;
      })
      ∷ [];
}

reacts :
    (serde : BeaconJson) (me other : Advertise) (unix : ℕ) (sender : SocketAddr)
    (inquiry goodbye : Bool)
    → (other.device_id == me.device_id) ≡ false
    → react serde me unix sender (some (beacon_of other inquiry goodbye))
      ≡ expected serde me other unix sender inquiry goodbye
reacts serde me other unix sender inquiry true differ = rw differ refl
reacts serde me other unix sender inquiry false differ = rw differ refl

-- Whatever a machine broadcasts, an announcement, a question or a farewell, another one that receives the
-- datagram whole makes of it exactly what it should: the fields come through, and only a question is
-- answered. The JSON library is taken to read back the beacon that it wrote.
pub hear-our_beacon :
    (serde : BeaconJson) (me other : Advertise) (unix : ℕ) (sender : SocketAddr)
    (inquiry goodbye : Bool) (bytes : Bytes)
    → ((json : Bytes)
        → serde.to_vec (beacon_of other inquiry goodbye) ≡ some json
        → serde.from_slice json ≡ some (beacon_of other inquiry goodbye))
    → (other.device_id == me.device_id) ≡ false
    → our_beacon serde other inquiry goodbye ≡ some bytes
    → hear serde me unix sender bytes ≡ expected serde me other unix sender inquiry goodbye
unfolding hear our_beacon
hear-our_beacon serde me other unix sender inquiry goodbye bytes back differ sent =
    ap (react serde me unix sender) (back bytes sent)
    ∙ reacts serde me other unix sender inquiry goodbye differ
