-- ===== src/Arp/RoundTrip.antt =====
-- ARP messages of wnr-dnet/src/arp.rs, encoded and read back.
use we_nmap_in_rust.Prelude.{
  ℕ, ◌+◌, ◌≤◌, ◌≡◌, refl, ap, ◌∙◌, List, [], ◌∷◌, ◌++◌, Option, some, none, ◌>>=◌, le→ltb, length,
  length-append, length-take, length-drop, take, drop, take-append_length, drop-append_length,
  drop-append, get_or-append, arith,
}
use mathlib.Core.List.{append_assoc, append-nil}
use mathlib.Core.Option.{none-ne-some}
use we_nmap_in_rust.Prelude.Bytes.{IsU16, byte_at, u16_to_be}
use we_nmap_in_rust.Net.{Ipv4Addr, octets}
use we_nmap_in_rust.Addr.{ipv4, to_ipv4}
use we_nmap_in_rust.Eth.{EthAddr, eth_addr, write_front}
use we_nmap_in_rust.Eth.RoundTrip.{IsEthAddr, write_front-fits, u16-be}
use we_nmap_in_rust.Arp.{
  ArpHdr, ArpEthIp, ArpMsg, parse_hdr, encode_hdr, parse_ethip, encode_ethip, encode_msg,
  or_unspecified,
}

pub record IsHdr (h : ArpHdr) : Type 0 where
  pub hrd_fits : IsU16 h.hrd
  pub pro_fits : IsU16 h.pro
  pub op_fits : IsU16 h.op

abbrev hdr_bytes : ArpHdr → List ℕ
hdr_bytes h = u16_to_be h.hrd ++ (u16_to_be h.pro ++ (h.hln ∷ h.pln ∷ u16_to_be h.op))

parse-hdr_bytes : (h : ArpHdr) (rest : List ℕ) → IsHdr h → parse_hdr (hdr_bytes h ++ rest) ≡ some h
unfolding parse_hdr
parse-hdr_bytes h rest fits = rw (le→ltb (length (hdr_bytes h ++ rest)) 8 (omega arith)) (λ i.
    some (record {
      hrd = u16-be h.hrd fits.hrd_fits i;
      pro = u16-be h.pro fits.pro_fits i;
      hln = h.hln;
      pln = h.pln;
      op = u16-be h.op fits.op_fits i;
    }))

-- The body as the wire carries it: an address that is not IPv4 is sent as 0.0.0.0.
abbrev pub on_wire : ArpEthIp → ArpEthIp
on_wire m = record m {
  spa = ipv4 (or_unspecified (to_ipv4 m.spa));
  tpa = ipv4 (or_unspecified (to_ipv4 m.tpa));
}

module _ (sha tha : EthAddr) (spa tpa : Ipv4Addr) where
  second : List ℕ → List ℕ
  second rest = tha.octets ++ (octets tpa ++ rest)

  wire : List ℕ → List ℕ
  wire rest = sha.octets ++ (octets spa ++ second rest)

  module _ (is_sha : IsEthAddr sha) (is_tha : IsEthAddr tha) (rest : List ℕ) where
    -- Behind the first address, and behind the second.
    first_bytes : (i : ℕ) → byte_at (wire rest) (6 + i) ≡ byte_at (octets spa ++ second rest) i
    unfolding wire
    first_bytes i = get_or-append 6 sha.octets (octets spa ++ second rest) i 0 is_sha

    second_bytes : (i : ℕ) → byte_at (second rest) (6 + i) ≡ byte_at (octets tpa ++ rest) i
    unfolding second
    second_bytes i = get_or-append 6 tha.octets (octets tpa ++ rest) i 0 is_tha

    tha_bytes : take 6 (drop 10 (wire rest)) ≡ tha.octets
    unfolding wire second
    tha_bytes =
        ap (take 6) (drop-append 6 4 sha.octets (octets spa ++ second rest) is_sha)
        ∙ take-append_length 6 tha.octets (octets tpa ++ rest) is_tha

    long : 20 ≤ length (wire rest)
    unfolding wire second
    long = omega (
      arith,
      is_sha,
      is_tha,
      length-append sha.octets (octets spa ++ second rest),
      length-append tha.octets (octets tpa ++ rest),
    )

    parse-wire :
        parse_ethip (wire rest)
        ≡ some (record { sha = sha; spa = ipv4 spa; tha = tha; tpa = ipv4 tpa })
    unfolding parse_ethip wire
    parse-wire = rw (le→ltb (length (wire rest)) 20 long) λ i. some (record {
      sha = eth_addr (sha_bytes i);
      spa = ipv4 (record {
        a = first_bytes 0 i;
        b = first_bytes 1 i;
        c = first_bytes 2 i;
        d = first_bytes 3 i;
      });
      tha = eth_addr (tha_bytes i);
      tpa = ipv4 (record {
        a = (first_bytes 10 ∙ second_bytes 0) i;
        b = (first_bytes 11 ∙ second_bytes 1) i;
        c = (first_bytes 12 ∙ second_bytes 2) i;
        d = (first_bytes 13 ∙ second_bytes 3) i;
      });
    })
      where
        sha_bytes : take 6 (wire rest) ≡ sha.octets
        sha_bytes = take-append_length 6 sha.octets (octets spa ++ second rest) is_sha

-- A body, written to a buffer with room for it.
encode_ethip-wire :
    (m : ArpEthIp) (buf : List ℕ)
    → IsEthAddr m.sha
    → IsEthAddr m.tha
    → 20 ≤ length buf
    → (encode_ethip m buf >>= parse_ethip) ≡ some (on_wire m)
unfolding encode_ethip wire second
encode_ethip-wire m buf is_sha is_tha room =
    ap (λ o. o >>= parse_ethip) (write_front-fits 20 front buf size room)
    ∙ ap parse_ethip regroup
    ∙ parse-wire m.sha m.tha source target is_sha is_tha (drop (length front) buf)
  where
    source : Ipv4Addr
    source = or_unspecified (to_ipv4 m.spa)

    target : Ipv4Addr
    target = or_unspecified (to_ipv4 m.tpa)

    front : List ℕ
    front = m.sha.octets ++ (octets source ++ (m.tha.octets ++ octets target))

    size : length front ≡ 20
    size = omega (
      arith,
      is_sha,
      is_tha,
      length-append m.sha.octets (octets source ++ (m.tha.octets ++ octets target)),
      length-append m.tha.octets (octets target),
    )

    regroup :
        front ++ drop (length front) buf ≡ wire m.sha m.tha source target (drop (length front) buf)
    regroup =
        append_assoc m.sha.octets (octets source ++ (m.tha.octets ++ octets target))
          (drop (length front) buf)
        ∙ ap (λ l. m.sha.octets ++ (octets source ++ l))
            (append_assoc m.tha.octets (octets target) (drop (length front) buf))

-- The reader of a message: the header, then the body behind its eight bytes.
abbrev pub parse_msg : List ℕ → Option ArpMsg
parse_msg buf = parse_hdr buf >>= λ hdr.
    parse_ethip (drop 8 buf) >>= λ body. some (record { hdr = hdr; body = body })

append_none : (xs ys : List ℕ) → length ys ≡ 0 → xs ++ ys ≡ xs
append_none xs [] e = append-nil xs
append_none xs (y ∷ ys) e = absurd (omega arith)

-- A message whose numbers fit their types and whose hardware addresses have six bytes, encoded
-- into a buffer of at least 28 bytes, is read back, header and body, with each protocol address
-- that is not IPv4 as 0.0.0.0.
pub parse-encode_msg :
    (m : ArpMsg) (buf : List ℕ)
    → IsHdr m.hdr
    → IsEthAddr m.body.sha
    → IsEthAddr m.body.tha
    → 28 ≤ length buf
    → (encode_msg m buf >>= parse_msg) ≡ some (record { hdr = m.hdr; body = on_wire m.body })
unfolding encode_msg encode_hdr
parse-encode_msg m buf is_hdr is_sha is_tha room =
    rw (le→ltb (length buf) 8 (omega arith), hdr_written)
      (bodies (encode_ethip m.body (drop 8 buf))
        (encode_ethip-wire m.body (drop 8 buf) is_sha is_tha (omega (arith, length-drop 8 buf))))
  where
    eight : length (take 8 buf) ≡ 8
    eight = omega (arith, length-take 8 buf)

    hdr_written : write_front (hdr_bytes m.hdr) (take 8 buf) ≡ some (hdr_bytes m.hdr)
    hdr_written =
        write_front-fits 8 (hdr_bytes m.hdr) (take 8 buf) refl (omega (arith, eight))
        ∙ ap some (
            append_none (hdr_bytes m.hdr) (drop 8 (take 8 buf))
              (omega (arith, eight, length-drop 8 (take 8 buf))))

    bodies :
        (o : Option (List ℕ))
        → (o >>= parse_ethip) ≡ some (on_wire m.body)
        → ((o >>= λ body. some (hdr_bytes m.hdr ++ body)) >>= parse_msg)
          ≡ some (record { hdr = m.hdr; body = on_wire m.body })
    bodies none e = absurd (none-ne-some _ e)
    bodies (some body) e =
        rw (parse-hdr_bytes m.hdr body is_hdr, drop-append_length 8 (hdr_bytes m.hdr) body refl, e)
          refl
