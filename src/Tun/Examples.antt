-- ===== src/Tun/Examples.antt =====
-- A fake network of four hosts, two flows and a malformed packet, and the theorems at these inputs
-- (crates/ombrac-client/src/endpoint/tun.rs).
use native.Mathlib.Decide.{ℕ_discrete}
use ombrac.Auth.{Bytes-discrete}
use ombrac.Prelude.{
  zero, suc, true, false, ◌+◌, ◌&&◌, leb, if◌then◌else◌, Option, none, some, List, [], ◌∷◌, ◌++◌,
  ◌≡◌, refl, ok, err,
}
use ombrac.Net.{Bytes, ip_v4, SocketAddr, v4, io_error, other, invalid_data, broken_pipe}
use ombrac.Protocol.{Address, domain, from_socket_addr}
use ombrac.Netstack.{IpProtocol, Parsers, IpHeader, version_4, udp, new_checked, parse_version}
use ombrac.Netstack.Udp.{parse_packet, parse_ip, parse_udp_header, slice_payload, ip_header_len}
use ombrac.Tun.{
  TunConfig, reserved_v4, is_private_or_reserved, should_skip_address, target_address,
  named_address, unnamed_address, check_target, TunUdp, DnsCodec,
}
use ombrac.Tun.Dns.{
  Ipv4Net, FakeDns, new_fakedns, evict, evicted, allocate_new, allocate_from, allocate_unique_ip,
  DnsQuery, no_error, map_domain, answer_name, handle_dns_query, get_domain_by_ip, start, later,
  queried,
}
use ombrac.Tun.Names.{Answers, Reachable-Answers}
use ombrac.Tun.Flows.{IsMalformed, IsWellFormed}
use ombrac.Netstack.{
  new_sink, reserve, flush_packet, flush_container, poll_flush, keep_routed, start_checked,
  start_send,
}
use ombrac.Netstack.Sink.{new_channel, IsRouted, operate}
use ombrac.Tun.Forward.Routed.{forward_packets_from_tun_to_stack-IsRouted}
use ombrac.Tun.Forward.{
  Turn, device, udp_receiver, udp_gone, received, stopped, by_sink, Forwarded, send, wait_flush,
  forward_packets_from_tun_to_stack, reads, all_routed, Explained,
}

abbrev test_net : Ipv4Net
test_net = record { network = 3323068416; hosts_count = 6; contains = λ b. false }

abbrev test_name : Bytes
test_name = 97 ∷ 46 ∷ []

abbrev test_query : Option DnsQuery
test_query = some ((test_name, true) ∷ [])

-- Letters are not told apart by their case.
abbrev lower : Bytes → Bytes
lower [] = []
lower (b ∷ rest) = (if (leb 65 b && leb b 90) then b + 32 else b) ∷ lower rest

abbrev test_upper : Option DnsQuery
test_upper = some ((65 ∷ 46 ∷ [], true) ∷ [])

abbrev test_dns : FakeDns
test_dns = new_fakedns lower test_net

test_answer :
    ((handle_dns_query test_dns test_query).1 ≡ some (no_error test_name 3323068419))
    × ((handle_dns_query (handle_dns_query test_dns test_query).0 test_upper).1
        ≡ some (no_error (65 ∷ 46 ∷ []) 3323068419))
unfolding handle_dns_query answer_name map_domain allocate_unique_ip allocate_from allocate_new
    Bytes-discrete ℕ_discrete
test_answer = (refl, refl)

-- While the listener of a dropped entry has not run, the name is given an address that leads nowhere.
abbrev test_evicted : FakeDns
test_evicted = evict (handle_dns_query test_dns test_query).0 3323068419 test_name

test_stale :
    ((handle_dns_query test_evicted test_query).1 ≡ some (no_error test_name 3323068419))
    × ((handle_dns_query test_evicted test_query).0.ip_to_domain 3323068419 ≡ none)
unfolding handle_dns_query answer_name map_domain allocate_unique_ip allocate_from allocate_new
    Bytes-discrete ℕ_discrete evict
test_stale = (refl, refl)

test_mapped : (handle_dns_query test_dns test_query).0.ip_to_domain 3323068419 ≡ some test_name
unfolding handle_dns_query answer_name map_domain allocate_unique_ip allocate_from allocate_new
    Bytes-discrete ℕ_discrete
test_mapped = refl

Reachable-Answers_example : Answers test_evicted (handle_dns_query test_evicted test_query)
Reachable-Answers_example = Reachable-Answers lower test_net test_evicted test_query (
    later (handle_dns_query test_dns test_query).0 _ (later test_dns _ start (queried test_query))
      (evicted 3323068419 test_name test_mapped))

abbrev test_config : TunConfig
test_config = record {
  fakedns_cidr = test_net;
  udp_idle_timeout = 60;
  udp_session_channel_capacity = 2048;
  disable_udp_443 = false;
}

-- A private address is skipped, and one of 241/8 is not.
test_skipped :
    target_address test_config test_dns (v4 (record { ip = 10 ∷ 1 ∷ 2 ∷ 3 ∷ []; port = 80 }))
    ≡ err (io_error other "skipping private/reserved address: {} -> {}")
unfolding target_address named_address unnamed_address check_target should_skip_address
    is_private_or_reserved reserved_v4 get_domain_by_ip from_socket_addr
test_skipped = refl

test_not_skipped : is_private_or_reserved (ip_v4 (241 ∷ 1 ∷ 2 ∷ 3 ∷ [])) ≡ false
unfolding is_private_or_reserved reserved_v4
test_not_skipped = refl

-- Parsers that refuse packets which begin with a zero, or are empty.
abbrev test_ipv4 : Bytes → Option IpHeader
test_ipv4 [] = none
test_ipv4 (zero ∷ rest) = none
test_ipv4 (suc n ∷ rest) = some (record {
  src_addr = ip_v4 (10 ∷ 0 ∷ 0 ∷ 1 ∷ []);
  dst_addr = ip_v4 (8 ∷ 8 ∷ 8 ∷ 8 ∷ []);
  next_header = udp;
  header_len = 1;
  payload = rest;
})

abbrev strict : Parsers
strict = record {
  of_packet = λ b. some version_4;
  ipv4_checked = test_ipv4;
  ipv6_checked = λ b. none;
  udp_checked = λ b. some (record { src_port = 2000; dst_port = 99; payload_len = 0 });
  tcp_checked = λ b. none;
}

abbrev test_codec : DnsCodec
test_codec = record { parse_query = λ b. none; to_vec = λ r. none }

abbrev test_udp : TunUdp
test_udp = record { dns = test_dns; active_sessions = []; answers = [] }

abbrev good : Bytes
good = 1 ∷ 0 ∷ 0 ∷ 0 ∷ 0 ∷ 0 ∷ 0 ∷ 0 ∷ 0 ∷ []

abbrev here_addr : SocketAddr
here_addr = v4 (record { ip = 10 ∷ 0 ∷ 0 ∷ 1 ∷ []; port = 2000 })

abbrev there_addr : SocketAddr
there_addr = v4 (record { ip = 8 ∷ 8 ∷ 8 ∷ 8 ∷ []; port = 99 })

good-IsWellFormed : IsWellFormed strict good
unfolding parse_packet parse_ip parse_udp_header slice_payload new_checked parse_version
    ip_header_len
good-IsWellFormed = (record { content = []; src_addr = here_addr; dst_addr = there_addr }, refl)

empty-IsMalformed : IsMalformed strict []
unfolding parse_packet parse_ip new_checked parse_version
empty-IsMalformed = refl

-- A packet, a malformed one, and one that is never read.
abbrev test_turns : List Turn
test_turns =
    device (some (ok good)) [] [] (udp_receiver ∷ [])
    ∷ device (some (ok (0 ∷ []))) [] [] []
    ∷ device (some (ok good)) [] [] []
    ∷ []

abbrev test_forwarded : List Turn → Forwarded
test_forwarded turns =
    forward_packets_from_tun_to_stack strict (new_sink (new_channel 1) (new_channel 1)) turns

test_forward_stopped :
    ((test_forwarded test_turns).read ≡ good ∷ (0 ∷ []) ∷ [])
    × ((test_forwarded test_turns).progress ≡ stopped (by_sink (io_error invalid_data "{}")))
    × ((test_forwarded test_turns).sink.udp_inbound.sent ≡ good ∷ [])
unfolding forward_packets_from_tun_to_stack received send wait_flush poll_flush flush_container
    flush_packet reserve start_send start_checked new_checked parse_version keep_routed operate
test_forward_stopped = (refl, refl, refl)

-- The receiver of the UDP packets goes away, and the next packet is lost.
abbrev gone_turns : List Turn
gone_turns =
    device (some (ok good)) [] [] []
    ∷ device (some (ok good)) (udp_gone ∷ []) [] []
    ∷ device (some (ok good)) [] [] []
    ∷ []

test_forward_gone :
    ((test_forwarded gone_turns).read ≡ good ∷ good ∷ [])
    × ((test_forwarded gone_turns).progress
        ≡ stopped (
            by_sink (
              io_error broken_pipe "Failed to send packet: channel closed for protocol {proto:?}")))
    × ((test_forwarded gone_turns).sink.udp_inbound.sent ≡ good ∷ [])
unfolding forward_packets_from_tun_to_stack received send wait_flush poll_flush flush_container
    flush_packet reserve start_send start_checked new_checked parse_version keep_routed operate
test_forward_gone = (refl, refl, refl)

forward_packets_from_tun_to_stack-IsRouted_example :
    (rest : List Bytes) × (gone : List (Bytes × IpProtocol)) × IsRouted
      (test_forwarded gone_turns).sink
      (all_routed strict (test_forwarded gone_turns).read)
      gone
    × (reads gone_turns ≡ (test_forwarded gone_turns).read ++ rest)
    × Explained strict (test_forwarded gone_turns) rest gone (test_forwarded gone_turns).progress
forward_packets_from_tun_to_stack-IsRouted_example =
    forward_packets_from_tun_to_stack-IsRouted strict 1 1 gone_turns

abbrev other_addr : SocketAddr
other_addr = v4 (record { ip = 9 ∷ 9 ∷ 9 ∷ 9 ∷ []; port = 99 })

abbrev test_message : Bytes × Address
test_message = (7 ∷ [], domain test_name 99)
