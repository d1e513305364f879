-- ===== src/Reassembly/Examples.antt =====
-- Runs of the reassembler on a packet of five octets in three fragments
-- (crates/ombrac/src/reassembly.rs), and the theorems at these inputs.
use native.Mathlib.Decide.{ℕ_discrete}
use ombrac.Prelude.{
  ℕ, ◌<◌, ◌≡◌, refl, ◌⊎◌, Option, none, some, List, [], ◌∷◌, arith, ok, All, replicate,
}
use ombrac.Net.{Bytes}
use ombrac.Cache.Map.{map_cache, map_cache-Retains}
use ombrac.Protocol.{
  Address, domain, Fragment, UdpPacket, fragmented, split_packet, chunks, make_fragment,
  enumerate_map,
}
use ombrac.Reassembly.{ReassemblyBuffer, Buffers, add_fragment, process, process_all, new}
use ombrac.Reassembly.Invariant.{IsValid, new-IsValid, add_fragment-IsValid}
use ombrac.Reassembly.Pieces.{Sent}
use ombrac.Reassembly.Safety.{History, process_sound}
use ombrac.Reassembly.Deliver.{process_all-delivers}

key_discrete : Discrete (ℕ × ℕ)
key_discrete = hlevel ℕ_discrete

abbrev test_cache : Buffers
test_cache = map_cache key_discrete

abbrev test_address : Address
test_address = domain (97 ∷ []) 53

abbrev test_payload : Bytes
test_payload = 1 ∷ 2 ∷ 3 ∷ 4 ∷ 5 ∷ []

abbrev piece : ℕ → Option Address → Bytes → Fragment
piece i a payload = record {
  session_id = 7;
  fragment_id = 9;
  fragment_index = i;
  fragment_count = 3;
  address = a;
  payload = payload;
}

abbrev first : Fragment
first = piece 0 (some test_address) (1 ∷ 2 ∷ [])

abbrev second : Fragment
second = piece 1 none (3 ∷ 4 ∷ [])

abbrev third : Fragment
third = piece 2 none (5 ∷ [])

abbrev test_packets : List UdpPacket
test_packets = fragmented first ∷ fragmented second ∷ fragmented third ∷ []

test_split : split_packet 7 test_address test_payload 2 9 ≡ some test_packets
unfolding split_packet chunks make_fragment
test_split = refl

abbrev no_entry : (ℕ × ℕ) → Option ReassemblyBuffer
no_entry k = none

add_fragment-IsValid_example : IsValid (add_fragment (new 7 0 none) (fragmented second)).0
add_fragment-IsValid_example =
    add_fragment-IsValid (new 7 0 none) (fragmented second) (new-IsValid 7)

abbrev one_fragment : ReassemblyBuffer
one_fragment = record {
  fragments = some (1 ∷ 2 ∷ []) ∷ [];
  received_count = 1;
  total_count = 1;
  address = some test_address;
  session_id = 7;
}

one_fragment-IsValid : IsValid one_fragment
one_fragment-IsValid = record { sized = refl; counted = refl; bounded = omega arith }

-- The third and the second fragment twice, then the first.
process_all-delivers_example :
    All
      (λ d. d ≡ ok none)
      (process_all test_cache no_entry
        (fragmented third ∷ fragmented second ∷ fragmented third ∷ [])).1
    × ((process test_cache
          (process_all test_cache no_entry
            (fragmented third ∷ fragmented second ∷ fragmented third ∷ [])).0
          (fragmented first)).1
        ≡ ok (some (7, test_address, test_payload)))
process_all-delivers_example =
    process_all-delivers test_cache (map_cache-Retains key_discrete) 7 9 test_address test_payload 2
      test_packets test_split (omega arith) no_entry 0 (fragmented first) (2 ∷ 1 ∷ 2 ∷ [])
      (fragmented third ∷ fragmented second ∷ fragmented third ∷ []) refl refl
      (refl, (refl, (refl, tt))) (omega arith) covered
  where
    covered : (i : ℕ) → i < 3 → (i ≡ 0) ⊎ ((i ≡ 2) ⊎ ((i ≡ 1) ⊎ ((i ≡ 2) ⊎ ⊥)))
    covered i h = ground arith

-- The third fragment came before, and the cache has dropped it.
abbrev after_third : (ℕ × ℕ) → Option ReassemblyBuffer
after_third = (process test_cache no_entry (fragmented third)).0

third_dropped : History test_cache 7 9 test_packets no_entry no_entry
third_dropped =
    History.drop
      (History.call {u = after_third} (fragmented third) History.start (λ k. (2, refl)) refl)
      (λ j w e. cc)

process_sound_example :
    ((process test_cache no_entry (fragmented second)).1 ≡ ok none)
    ⊎ ((process test_cache no_entry (fragmented second)).1
        ≡ ok (some (7, test_address, test_payload)))
process_sound_example =
    process_sound test_cache 7 9 test_address test_payload 2 test_packets test_split (omega arith)
      second refl third_dropped (1, refl)

abbrev long_payload : Bytes
long_payload = replicate 257 0

abbrev long_packets : List UdpPacket
long_packets = enumerate_map (make_fragment 7 test_address 9 257) 0 (replicate 257 (0 ∷ []))

long_split : split_packet 7 test_address long_payload 1 9 ≡ some long_packets
unfolding split_packet chunks
long_split = refl

abbrev long_first : Fragment
long_first = record {
  session_id = 7;
  fragment_id = 9;
  fragment_index = 0;
  fragment_count = 257;
  address = some test_address;
  payload = 0 ∷ [];
}

long_first-Sent : Sent long_packets (fragmented long_first)
unfolding make_fragment
long_first-Sent = (0, refl)
