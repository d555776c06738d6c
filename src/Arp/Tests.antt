-- ===== src/Arp/Tests.antt =====
-- A request on the wire, and the cache at concrete entries.
use we_nmap_in_rust.Prelude.{◌≡◌, refl, some, none, ◌>>=◌, if◌then◌else◌, [], ◌∷◌, replicate, arith}
use we_nmap_in_rust.Net.{ipv4_new}
use we_nmap_in_rust.Addr.{Addr, ipv4, hw, addr_eq, to_ipv4}
use we_nmap_in_rust.Eth.{eth_addr}
use we_nmap_in_rust.Arp.{ArpMsg, ArpEntry, ArpCache, request, encode_msg, add, delete, get}
use we_nmap_in_rust.Arp.RoundTrip.{on_wire, parse_msg, parse-encode_msg}
use we_nmap_in_rust.Arp.Cache.{get-add-delete}

abbrev here : Addr
unfolding ipv4
here = ipv4 (ipv4_new 192 0 2 1)

abbrev there : Addr
unfolding ipv4
there = ipv4 (ipv4_new 192 0 2 2)

abbrev msg : ArpMsg
unfolding request
msg = request here there (eth_addr (170 ∷ 187 ∷ 204 ∷ 221 ∷ 238 ∷ 1 ∷ []))

parse-encode_msg_example :
    (encode_msg msg (replicate 28 0) >>= parse_msg)
    ≡ some (record { hdr = msg.hdr; body = on_wire msg.body })
unfolding msg
parse-encode_msg_example =
    parse-encode_msg msg (replicate 28 0)
      (record { hrd_fits = omega arith; pro_fits = omega arith; op_fits = omega arith }) refl refl
      (omega arith)

-- A request between IPv4 addresses comes back as it was.
request_on_wire : on_wire msg.body ≡ msg.body
unfolding msg here there to_ipv4 ipv4
request_on_wire = refl

abbrev entry : ArpEntry
unfolding hw
entry = record { pa = here; ha = hw (1 ∷ 2 ∷ 3 ∷ 4 ∷ 5 ∷ 6 ∷ []) }

abbrev cache : ArpCache
cache = record { entries = entry ∷ [] }

get-add-delete_example :
    (get there (add entry cache) ≡ (if addr_eq entry.pa there then some entry else get there cache))
    × (get there (delete here cache) ≡ (if addr_eq here there then none else get there cache))
get-add-delete_example = get-add-delete there cache entry here
