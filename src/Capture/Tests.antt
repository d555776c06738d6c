-- ===== src/Capture/Tests.antt =====
-- A small file through a filter, and the theorem at two packets.
use we_nmap_in_rust.Prelude.{◌≡◌, refl, [], ◌∷◌, ◌++◌, some, map, arith, replicate}
use we_nmap_in_rust.Prelude.Result.{ok}
use we_nmap_in_rust.Datalink.{link_header_len}
use we_nmap_in_rust.Savefile.{create}
use we_nmap_in_rust.Capture.{read_all, strip_link_header}
use we_nmap_in_rust.Capture.WholeFile.{Sent, IsSent, write_all, packet_of, read_all-write_all}

abbrev ping : Sent
ping = record { ts_sec = 1000; ts_frac = 7; wire = 1 ∷ 2 ∷ 3 ∷ 4 ∷ [] }

abbrev pong : Sent
pong = record { ts_sec = 1001; ts_frac = 9; wire = 5 ∷ 6 ∷ [] }

ping-IsSent : IsSent ping
ping-IsSent = record { sec_fits = omega arith; frac_fits = omega arith; small = omega arith }

pong-IsSent : IsSent pong
pong-IsSent = record { sec_fits = omega arith; frac_fits = omega arith; small = omega arith }

read_all-write_all_example :
    read_all 3 (write_all (ping ∷ pong ∷ []) (create 3 1)).out
    ≡ some (ok (map (packet_of 3) (ping ∷ pong ∷ [])))
read_all-write_all_example =
    read_all-write_all 3 1 3 (ping ∷ pong ∷ []) (omega arith) (omega arith)
      (ping-IsSent, (pong-IsSent, tt)) (omega arith)

strip_ethernet : strip_link_header 1 (replicate 14 0 ++ (69 ∷ [])) ≡ some (14, 1, 69 ∷ [])
unfolding strip_link_header link_header_len
strip_ethernet = refl
