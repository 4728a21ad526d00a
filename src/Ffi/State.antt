-- ===== src/Ffi/State.antt =====
-- crates/ffi/src/state.rs: the paired peers as the app keeps them on disk.
pub mod Saving
use penguinsync.Base.{Bytes, Str, List, [], ◌∷◌, none, some, ite, ◌=?◌, bytes_key, map}
use penguinsync.Protocol.Hex.{to_hex, from_hex}

pub record PersistedPeer : Type 0 where
  pub device_id : Str
  pub name : Str

pub record PersistedPeers : Type 0 where
  pub peers : List PersistedPeer

unfoldable pub upsert_peer : Str → Str → List PersistedPeer → List PersistedPeer
upsert_peer hex name [] = record { device_id = hex; name = name } ∷ []
upsert_peer hex name (p ∷ rest) =
    ite (p.device_id =? hex) (record p { name = name } ∷ rest) (p ∷ upsert_peer hex name rest)

unfoldable pub upsert : PersistedPeers → Bytes → Str → PersistedPeers
unfolding upsert_peer
upsert s device_id name = record { peers = upsert_peer (to_hex device_id) name s.peers }

-- `filter_map` of `from_hex`
unfoldable pub peer_ids : List PersistedPeer → List Bytes
peer_ids [] = []
peer_ids (p ∷ rest) = elim (from_hex p.device_id) [
  | none ↦ peer_ids rest
  | some id ↦ id ∷ peer_ids rest
]

unfoldable pub device_ids : PersistedPeers → List Bytes
unfolding peer_ids
device_ids s = peer_ids s.peers

unfoldable pub entries : PersistedPeers → List (Str × Str)
entries s = map (λ p. (p.device_id, p.name)) s.peers
