-- ===== src/Protocol/Examples.antt =====
-- Runs of `split_packet` and of the address parser (crates/ombrac/src/protocol.rs), and the theorems
-- at these inputs.
use ombrac.Prelude.{
  ℕ, ◌+◌, ◌*◌, ◌%◌, ◌≤◌, ◌<◌, ◌≡◌, ◌∙◌, refl, Option, none, some, List, [], ◌∷◌, arith, length, ok,
  err, replicate, length-replicate,
}
use ombrac.Net.{Bytes, SocketAddr, IoError}
use ombrac.Protocol.{
  Address, domain, UdpPacket, split_packet, chunks, make_fragment, try_from, enumerate_map,
}
use ombrac.Protocol.Split.{
  Numbered, payloads, Counted, split_packet-Numbered, split_packet-total, split_packet-made,
  split_packet-count_wraps, chunks-count, length-enumerate_map,
}

abbrev test_address : Address
test_address = domain (97 ∷ []) 53

abbrev test_payload : Bytes
test_payload = 1 ∷ 2 ∷ 3 ∷ 4 ∷ 5 ∷ []

abbrev test_packets : List UdpPacket
test_packets =
    enumerate_map (make_fragment 7 test_address 9 3) 0 ((1 ∷ 2 ∷ []) ∷ (3 ∷ 4 ∷ []) ∷ (5 ∷ []) ∷ [])

test_split : split_packet 7 test_address test_payload 2 9 ≡ some test_packets
unfolding split_packet chunks
test_split = refl

-- Empty data, and the size 0, are panics.
split_empty : split_packet 7 test_address [] 2 9 ≡ none
unfolding split_packet chunks
split_empty = refl

split_zero : split_packet 7 test_address test_payload 0 9 ≡ none
unfolding split_packet
split_zero = refl

split_packet-Numbered_example :
    Numbered 7 test_address 9 2 3 0 test_packets × (payloads test_packets ≡ test_payload)
split_packet-Numbered_example =
    split_packet-Numbered 7 test_address test_payload 2 9 test_packets test_split (omega arith)

split_packet-total_example :
    (packets : List UdpPacket) × (split_packet 7 test_address test_payload 2 9 ≡ some packets)
    × (5 ≤ 2 * length packets)
    × (2 * length packets < 5 + 2)
split_packet-total_example =
    split_packet-total 7 test_address test_payload 2 9 (omega arith) (omega arith) (omega arith)

-- 65537 octets, to be sent one in a packet; the list is not computed.
huge : Bytes
huge = replicate 65537 0

length-huge : length huge ≡ 65537
unfolding huge
length-huge = length-replicate {A = ℕ} 65537 0

huge_count : length (chunks 1 huge) ≡ 65537
huge_count = let (lo, hi) = chunks-count 1 huge (omega arith) in omega (arith, length-huge)

abbrev huge_packets : List UdpPacket
huge_packets =
    enumerate_map (make_fragment 7 test_address 9 (length (chunks 1 huge) % 65536)) 0
      (chunks 1 huge)

huge_packets-length : length huge_packets ≡ 65537
huge_packets-length = length-enumerate_map _ 0 (chunks 1 huge) ∙ huge_count

huge_split : split_packet 7 test_address huge 1 9 ≡ some huge_packets
huge_split = split_packet-made 7 test_address huge 1 9 (omega arith) (omega (arith, huge_count))

split_packet-count_wraps_example :
    Counted (length huge_packets % 65536) huge_packets
    × (length huge_packets % 65536 < length huge_packets)
split_packet-count_wraps_example =
    split_packet-count_wraps 7 test_address huge 1 9 huge_packets huge_split
      (omega (arith, huge_packets-length))

no_socket_addr : Bytes → Option SocketAddr
no_socket_addr v = none

-- "a:53"
-- ":53" and "a53"
no_name : (e : IoError) × (try_from no_socket_addr (58 ∷ 53 ∷ 51 ∷ []) ≡ err e)
unfolding no_socket_addr try_from
no_name = (_, refl)

no_colon : (e : IoError) × (try_from no_socket_addr (97 ∷ 53 ∷ 51 ∷ []) ≡ err e)
unfolding no_socket_addr try_from
no_colon = (_, refl)

-- "a:65536"
big_port : (e : IoError) × (try_from no_socket_addr (97 ∷ 58 ∷ 54 ∷ 53 ∷ 53 ∷ 51 ∷ 54 ∷ []) ≡ err e)
unfolding no_socket_addr try_from
big_port = (_, refl)

a_53 : try_from no_socket_addr (97 ∷ 58 ∷ 53 ∷ 51 ∷ []) ≡ ok (domain (97 ∷ []) 53)
unfolding no_socket_addr try_from
a_53 = refl
