-- ===== src/Raw/Windows/Datagrams.antt =====
-- What a raw socket of Windows is opened on.
use we_nmap_in_rust.Prelude.{
  ℕ, ◌≡◌, refl, List, Option, none, some, Bool, true, false, not, ◌&&◌, ◌||◌, arith,
}
use we_nmap_in_rust.Prelude.Result.{Result, ok, err}
use we_nmap_in_rust.Prelude.Text.{Text}
use we_nmap_in_rust.Net.{Ipv4Addr}
use we_nmap_in_rust.Intf.{IntfEntry}
use we_nmap_in_rust.Raw.{IoError}
use we_nmap_in_rust.Raw.Windows.{Opening, open_at, open_socket, interface_ipv4}

abbrev pub is_ok {ℓ} : {A : Type ℓ} → Result IoError A → Bool
is_ok (ok r) = true
is_ok (err e) = false

-- The conditions of an opening.
abbrev pub can_open : Opening → Bool → Option Ipv4Addr → Bool
can_open o promisc none = false
can_open o promisc (some ip) = o.has_socket && (o.bound_to ip && (not promisc || o.takes_all))

open_at_lem :
    (o : Opening) (snaplen : ℕ) (promisc : Bool) (ip : Option Ipv4Addr)
    → (is_ok (open_at o snaplen promisc ip).0 ≡ can_open o promisc ip)
      × ((open_at o snaplen promisc ip).1 ≡ can_open o promisc ip)
open_at_lem o snaplen promisc none = (refl, refl)
open_at_lem o snaplen promisc (some ip) = (ground arith, ground arith)

-- On Windows open succeeds, and leaves a socket open, exactly if the interface has an IPv4 address, the
-- socket is made and bound to that address, and takes all packets where that is asked.
pub open_windows_lem :
    (o : Opening) (list : List IntfEntry) (device : Text) (snaplen : ℕ) (promisc : Bool)
    → (is_ok (open_socket o list device snaplen promisc).0
        ≡ can_open o promisc (interface_ipv4 list device))
      × ((open_socket o list device snaplen promisc).1
          ≡ can_open o promisc (interface_ipv4 list device))
unfolding open_socket
open_windows_lem o list device snaplen promisc =
    open_at_lem o snaplen promisc (interface_ipv4 list device)
