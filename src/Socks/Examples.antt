-- ===== src/Socks/Examples.antt =====
-- The SOCKS5 theorems at the address a:53 and at 1.2.3.4:80
-- (crates/ombrac-client/src/endpoint/socks/protocol.rs).
use ombrac.Prelude.{◌≡◌, refl, [], ◌∷◌, ◌++◌, arith, ok}
use ombrac.Socks.{SocksAddress, ipv4, domain_name, address_read, from_buf, encode, succeeded}
use ombrac.Wire.{put_u16}
use ombrac.Socks.Address.{IsSocks, address_read-encode, from_buf-encode}
use ombrac.Socks.Canonical.{from_buf-ok}
use ombrac.Socks.Message.{as_u8-injective}

abbrev test_name : SocksAddress
test_name = domain_name (97 ∷ []) 53

abbrev test_ip : SocksAddress
test_ip = ipv4 (record { ip = 1 ∷ 2 ∷ 3 ∷ 4 ∷ []; port = 80 })

test_name-IsSocks : IsSocks test_name
test_name-IsSocks = omega arith

test_ip-IsSocks : IsSocks test_ip
test_ip-IsSocks = omega arith

address_read-encode_example : address_read (encode test_ip ++ 9 ∷ []) ≡ ok (test_ip, 9 ∷ [])
address_read-encode_example = address_read-encode test_ip (9 ∷ []) test_ip-IsSocks

as_u8-injective_example : succeeded ≡ succeeded
as_u8-injective_example = as_u8-injective succeeded succeeded refl

from_buf-ok_example :
    (encode test_name ++ 9 ∷ [] ≡ 3 ∷ 1 ∷ 97 ∷ 0 ∷ 53 ∷ 9 ∷ []) × IsSocks test_name
from_buf-ok_example =
    from_buf-ok (3 ∷ 1 ∷ 97 ∷ 0 ∷ 53 ∷ 9 ∷ []) test_name (9 ∷ []) (omega arith) read_back
  where
    read_back : from_buf (3 ∷ 1 ∷ 97 ∷ 0 ∷ 53 ∷ 9 ∷ []) ≡ ok (test_name, 9 ∷ [])
    read_back = unfold encode put_u16 in from_buf-encode test_name (9 ∷ []) test_name-IsSocks
