-- ===== src/Base/Addr.antt =====
-- `std::net`: IP addresses as numbers of 32 and 128 bits, and socket addresses.
use penguinsync.Base.Keys.{Key, Str}
use penguinsync.Base.Tests.{◌==◌}
use Prim.Native.Nat.{ℕ, ◌+◌, ◌*◌}
use mathlib.Core.Path.{◌≡◌}
use mathlib.Core.Bool.{Bool}
use mathlib.Core.Option.{Option, some}
use native.Mathlib.Decide.{ℕ_discrete}

pub data IpAddr : Type 0 where
  v4 : ℕ → IpAddr
  v6 : ℕ → IpAddr

-- The flow and the scope are 0 for an IPv4 address.
pub record SocketAddr : Type 0 where
  pub ip : IpAddr
  pub port : ℕ
  pub flowinfo : ℕ
  pub scope_id : ℕ

-- `SocketAddr::new`
unfoldable pub new : IpAddr → ℕ → SocketAddr
new ip port = record { ip = ip; port = port; flowinfo = 0; scope_id = 0 }

unfoldable pub is_unspecified : IpAddr → Bool
is_unspecified (v4 n) = n == 0
is_unspecified (v6 n) = n == 0

unfoldable pub octets : ℕ → ℕ → ℕ → ℕ → IpAddr
octets a b c d = v4 (((a * 256 + b) * 256 + c) * 256 + d)

ip_discrete : Discrete IpAddr
ip_discrete = hlevel ℕ_discrete

pub addr_discrete : Discrete SocketAddr
addr_discrete = hlevel (ip_discrete, ℕ_discrete)

instance abbrev pub addr_key : Key SocketAddr
addr_key = record { decide = addr_discrete }

-- What the text form keeps of an address: not the flow, and a scope only in IPv6.
unfoldable pub printed : SocketAddr → SocketAddr
printed a = record a { flowinfo = 0; scope_id = elim a.ip [ v4 _ ↦ 0 | v6 _ ↦ a.scope_id ] }

-- The text form of a socket address, `Display` and `FromStr` of `SocketAddr`.
pub record AddrText : Type 0 where
  pub to_str : SocketAddr → Str
  pub parse : Str → Option SocketAddr
  pub parse-to_str : (a : SocketAddr) → parse (to_str a) ≡ some (printed a)
