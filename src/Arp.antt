-- ===== src/Arp.antt =====
-- wnr-dnet/src/arp.rs: ARP messages and the cache.
pub mod RoundTrip
pub mod Cache
mod Tests
use we_nmap_in_rust.Prelude.{
  ℕ, ◌+◌, List, [], ◌∷◌, ◌++◌, Option, none, some, ◌>>=◌, Bool, not, ltb, ◌==◌, if◌then◌else◌,
  length, take, drop, replicate,
}
use we_nmap_in_rust.Prelude.Bytes.{byte_at, u16_from_be, u16_to_be}
use we_nmap_in_rust.Prelude.Search.{find, filter_list, update_or_push}
use we_nmap_in_rust.Net.{Ipv4Addr, octets, ipv4_new}
use we_nmap_in_rust.Addr.{Addr, addr_eq, ipv4, to_ipv4}
use we_nmap_in_rust.Eth.{EthAddr, eth_addr, write_front}

abbrev pub arp_hdr_len : ℕ
arp_hdr_len = 8

abbrev pub arp_ethip_len : ℕ
arp_ethip_len = 20

abbrev pub arp_hrd_eth : ℕ
arp_hrd_eth = 0x0001

abbrev pub arp_pro_ip : ℕ
arp_pro_ip = 0x0800

abbrev pub arp_op_request : ℕ
arp_op_request = 1

pub record ArpHdr : Type 0 where
  pub hrd : ℕ
  pub pro : ℕ
  pub hln : ℕ
  pub pln : ℕ
  pub op : ℕ

-- `ArpHdr::parse`.
unfoldable pub parse_hdr : List ℕ → Option ArpHdr
parse_hdr buf =
    if ltb (length buf) arp_hdr_len
    then none
    else some (record {
      hrd = u16_from_be (byte_at buf 0) (byte_at buf 1);
      pro = u16_from_be (byte_at buf 2) (byte_at buf 3);
      hln = byte_at buf 4;
      pln = byte_at buf 5;
      op = u16_from_be (byte_at buf 6) (byte_at buf 7);
    })

-- `ArpHdr::encode`: the buffer that is left, `none` if it is too short and the code panics.
unfoldable pub encode_hdr : ArpHdr → List ℕ → Option (List ℕ)
unfolding write_front
encode_hdr h buf =
    write_front (u16_to_be h.hrd ++ (u16_to_be h.pro ++ (h.hln ∷ h.pln ∷ u16_to_be h.op))) buf

pub record ArpEthIp : Type 0 where
  pub sha : EthAddr
  pub spa : Addr
  pub tha : EthAddr
  pub tpa : Addr

-- `ArpEthIp::parse`.
unfoldable pub parse_ethip : List ℕ → Option ArpEthIp
unfolding ipv4
parse_ethip buf =
    if ltb (length buf) arp_ethip_len
    then none
    else some (record {
      sha = eth_addr (take 6 buf);
      spa = ipv4 (ipv4_new (byte_at buf 6) (byte_at buf 7) (byte_at buf 8) (byte_at buf 9));
      tha = eth_addr (take 6 (drop 10 buf));
      tpa = ipv4 (ipv4_new (byte_at buf 16) (byte_at buf 17) (byte_at buf 18) (byte_at buf 19));
    })

-- `to_ipv4().unwrap_or(Ipv4Addr::UNSPECIFIED)`.
abbrev pub or_unspecified : Option Ipv4Addr → Ipv4Addr
or_unspecified none = ipv4_new 0 0 0 0
or_unspecified (some ip) = ip

-- `ArpEthIp::encode`.
unfoldable pub encode_ethip : ArpEthIp → List ℕ → Option (List ℕ)
unfolding write_front to_ipv4
encode_ethip m buf =
    write_front
      (m.sha.octets
        ++ (octets (or_unspecified (to_ipv4 m.spa))
            ++ (m.tha.octets ++ octets (or_unspecified (to_ipv4 m.tpa)))))
      buf

pub record ArpMsg : Type 0 where
  pub hdr : ArpHdr
  pub body : ArpEthIp

-- `ArpMsg::request`.
unfoldable pub request : Addr → Addr → EthAddr → ArpMsg
request spa tpa sha = record {
  hdr = record { hrd = arp_hrd_eth; pro = arp_pro_ip; hln = 6; pln = 4; op = arp_op_request };
  body = record { sha = sha; spa = spa; tha = eth_addr (replicate 6 0); tpa = tpa };
}

-- `ArpMsg::encode`: the header in the first eight bytes, the body behind them.
unfoldable pub encode_msg : ArpMsg → List ℕ → Option (List ℕ)
unfolding encode_hdr encode_ethip
encode_msg m buf =
    if ltb (length buf) arp_hdr_len
    then none
    else encode_hdr m.hdr (take arp_hdr_len buf) >>= λ hdr.
        encode_ethip m.body (drop arp_hdr_len buf) >>= λ body. some (hdr ++ body)

-- `ArpMsg::total_len`.
abbrev pub total_len : ℕ
total_len = arp_hdr_len + arp_ethip_len

pub record ArpEntry : Type 0 where
  pub pa : Addr
  pub ha : Addr

pub record ArpCache : Type 0 where
  pub entries : List ArpEntry

unfoldable pub add : ArpEntry → ArpCache → ArpCache
unfolding addr_eq
add entry c = record c {
  entries =
      update_or_push (λ (e : ArpEntry). addr_eq e.pa entry.pa)
        (λ (existing : ArpEntry). record existing { ha = entry.ha }) entry c.entries;
}

unfoldable pub delete : Addr → ArpCache → ArpCache
unfolding addr_eq
delete pa c = record c { entries = filter_list (λ (e : ArpEntry). not (addr_eq e.pa pa)) c.entries }

unfoldable pub get : Addr → ArpCache → Option ArpEntry
unfolding addr_eq
get pa c = find (λ (e : ArpEntry). addr_eq e.pa pa) c.entries

unfoldable pub len : ArpCache → ℕ
len c = length c.entries

unfoldable pub is_empty : ArpCache → Bool
is_empty c = length c.entries == 0
