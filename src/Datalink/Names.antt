-- ===== src/Datalink/Names.antt =====
-- The names of the link types: `datalink_ntop` of wnr-pcap/src/datalink.rs.
use we_nmap_in_rust.Prelude.{ℕ, ◌≡◌, refl, ◌==◌, if◌then◌else◌}
use we_nmap_in_rust.Prelude.Text.{Text, chars}
use we_nmap_in_rust.Datalink.{
  dlt_null, dlt_en10mb, dlt_raw, dlt_ieee802_11_radio, dlt_loop, dlt_linux_sll, dlt_ipv4, dlt_ipv6,
}

abbrev pub dlt_ieee802 : ℕ
dlt_ieee802 = 6

abbrev pub dlt_arcnet : ℕ
dlt_arcnet = 7

abbrev pub dlt_slip : ℕ
dlt_slip = 8

abbrev pub dlt_ppp : ℕ
dlt_ppp = 9

abbrev pub dlt_fddi : ℕ
dlt_fddi = 10

abbrev pub dlt_ieee802_11 : ℕ
dlt_ieee802_11 = 105

unfoldable pub datalink_ntop : ℕ → Text
datalink_ntop dlt =
    if dlt == dlt_null
    then chars "NULL"
    else if dlt == dlt_en10mb
    then chars "EN10MB"
    else if dlt == dlt_ieee802
    then chars "IEEE802"
    else if dlt == dlt_arcnet
    then chars "ARCNET"
    else if dlt == dlt_slip
    then chars "SLIP"
    else if dlt == dlt_ppp
    then chars "PPP"
    else if dlt == dlt_fddi
    then chars "FDDI"
    else if dlt == dlt_raw
    then chars "RAW"
    else if dlt == dlt_loop
    then chars "LOOP"
    else if dlt == dlt_linux_sll
    then chars "LINUX_SLL"
    else if dlt == dlt_ieee802_11
    then chars "IEEE802_11"
    else if dlt == dlt_ieee802_11_radio
    then chars "IEEE802_11_RADIO"
    else if dlt == dlt_ipv4
    then chars "IPV4"
    else if dlt == dlt_ipv6
    then chars "IPV6"
    else chars "UNKNOWN"

ethernet_name : datalink_ntop dlt_en10mb ≡ chars "EN10MB"
unfolding datalink_ntop
ethernet_name = refl
