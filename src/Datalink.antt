-- ===== src/Datalink.antt =====
-- wnr-pcap/src/datalink.rs. A link type is the bit pattern of its `i32`, and a name is its variant.
pub mod Names
use we_nmap_in_rust.Prelude.{ℕ, ◌==◌, ◌||◌, if◌then◌else◌}

abbrev pub dlt_null : ℕ
dlt_null = 0

abbrev pub dlt_en10mb : ℕ
dlt_en10mb = 1

abbrev pub dlt_raw : ℕ
dlt_raw = 12

abbrev pub dlt_ieee802_11_radio : ℕ
dlt_ieee802_11_radio = 127

abbrev pub dlt_loop : ℕ
dlt_loop = 108

abbrev pub dlt_linux_sll : ℕ
dlt_linux_sll = 113

abbrev pub dlt_ipv4 : ℕ
dlt_ipv4 = 228

abbrev pub dlt_ipv6 : ℕ
dlt_ipv6 = 229

-- `link_header_len`: where the IP header begins in a frame.
unfoldable pub link_header_len : ℕ → ℕ
link_header_len dlt =
    if dlt == dlt_en10mb
    then 14
    else if dlt == dlt_linux_sll
    then 16
    else if dlt == dlt_ieee802_11_radio
    then 32
    else if dlt == dlt_raw
        || dlt == dlt_ipv4
        || dlt == dlt_ipv6
        || dlt == dlt_loop
        || dlt == dlt_null
    then 0
    else 14
