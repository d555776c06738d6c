-- ===== src/Net.antt =====
-- `std::net::Ipv4Addr`, by its octets. An `Ipv6Addr` is the list of its sixteen octets.
pub mod Ipv4Text
use we_nmap_in_rust.Prelude.{ℕ, List, [], ◌∷◌, Option}

pub record Ipv4Addr : Type 0 where
  pub a : ℕ
  pub b : ℕ
  pub c : ℕ
  pub d : ℕ

-- `Ipv4Addr::octets`.
abbrev pub octets : Ipv4Addr → List ℕ
octets ip = ip.a ∷ ip.b ∷ ip.c ∷ ip.d ∷ []

abbrev pub ipv4_new : ℕ → ℕ → ℕ → ℕ → Ipv4Addr
ipv4_new a b c d = record { a = a; b = b; c = c; d = d }

-- `std::net::SocketAddr`: the octets of the address, and the port.
pub record SocketAddr : Type 0 where
  pub host : List ℕ
  pub port : ℕ

-- A socket of the operating system: a handle, and the peer that it reports.
pub record Socket : Type 0 where
  pub handle : ℕ
  pub peer_addr : Option SocketAddr
