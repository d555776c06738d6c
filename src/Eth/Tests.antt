-- ===== src/Eth/Tests.antt =====
-- The round trip of a header at a concrete frame.
use we_nmap_in_rust.Prelude.{◌≡◌, refl, some, ◌>>=◌, [], ◌∷◌, replicate, arith}
use we_nmap_in_rust.Eth.{EthHdr, eth_addr, parse, encode}
use we_nmap_in_rust.Eth.RoundTrip.{parse-encode}

abbrev frame_header : EthHdr
frame_header = record {
  dst = eth_addr (1 ∷ 2 ∷ 3 ∷ 4 ∷ 5 ∷ 6 ∷ []);
  src = eth_addr (10 ∷ 11 ∷ 12 ∷ 13 ∷ 14 ∷ 15 ∷ []);
  proto = 0x0806;
}

parse-encode_example : (encode frame_header (replicate 60 0) >>= parse) ≡ some frame_header
parse-encode_example =
    parse-encode frame_header (replicate 60 0) refl refl (omega arith) (omega arith)
