-- ===== src/Endpoint/Exchange.antt =====
-- The octets that a SOCKS5 client gets (negotiate_method, handle_connect and handle_connection in
-- crates/ombrac-client/src/endpoint/socks/mod.rs), when the writes to it succeed.
use ombrac.Prelude.{
  ℕ, ◌≡◌, refl, true, false, Bool, Bool-cases, [], ◌∷◌, ◌++◌, length, ok, err, inl, inr,
}
use ombrac.Net.{Bytes, IoResult, io_error, permission_denied}
use ombrac.Wire.{read_exact-append}
use ombrac.Socks.{
  version, no_authentication, no_acceptable_method, SocksAddress, unspecified_address, to_ombrac,
  encode, connect, cmd_connect, succeeded, from_connect_error, encode_reply,
}
use ombrac.Socks.Address.{IsSocks}
use ombrac.Socks.Message.{request_read-encode}
use ombrac.Endpoint.{
  Stream, write_all, contains, select_method, check_version, negotiate_method, reply_failure,
  handle_connect, Parts, dispatch, handle_connection,
}

-- A stream whose writes succeed.
abbrev pub stream : Bytes → Bytes → Stream
stream input output = record { input = input; output = output; writes = [] }

-- The answer to a method list, with what is left to read.
abbrev pub negotiated : Bool → Bytes → Bytes → Stream × IoResult (Unit {0})
negotiated true rest out = (stream rest (out ++ (version ∷ no_authentication ∷ [])), ok tt)
negotiated false rest out = (
  stream rest (out ++ (version ∷ no_acceptable_method ∷ [])),
  err (io_error permission_denied "no acceptable authentication method"),
)

select_method_lem :
    (methods rest out : Bytes)
    → select_method methods (stream rest out)
      ≡ negotiated (contains no_authentication methods) rest out
unfolding select_method write_all
select_method_lem methods rest out = elim (Bool-cases (contains no_authentication methods)) [
  | inl e ↦ rw e refl
  | inr e ↦ rw e refl
]

-- A client of version 5 whose list of methods holds the method without authentication is answered
-- that it is chosen, and any other list is answered that none is acceptable and ends the connection;
-- the list is read to its end and nothing behind it.
pub negotiate_method_lem :
    (n : ℕ) (methods rest out : Bytes)
    → length methods ≡ n
    → negotiate_method (stream (version ∷ n ∷ (methods ++ rest)) out)
      ≡ negotiated (contains no_authentication methods) rest out
unfolding negotiate_method check_version
negotiate_method_lem n methods rest out e =
    rw (read_exact-append (version ∷ n ∷ []) (methods ++ rest) 2 refl)
      (rw (read_exact-append methods rest n e) (select_method_lem methods rest out))

-- What a client gets for its connect request, by what the tunnel says.
abbrev pub connect_outcome :
    (c : Parts) → Bytes → Bytes → IoResult c.Upstream → Stream × IoResult (Unit {0})
connect_outcome c rest out (ok upstream) =
    c.copy upstream (stream rest (out ++ encode_reply succeeded unspecified_address))
connect_outcome c rest out (err e) =
    (stream rest (out ++ encode_reply (from_connect_error e) unspecified_address), err e)

handle_connect_lem :
    (c : Parts) (rest out : Bytes) (r : IoResult c.Upstream)
    → handle_connect c.copy r (stream rest out) ≡ connect_outcome c rest out r
unfolding handle_connect reply_failure write_all
handle_connect_lem c rest out (ok upstream) = refl
handle_connect_lem c rest out (err e) = refl

-- A client that offers the method without authentication and asks to connect to an address that
-- SOCKS5 can name gets the method's octets, and then the reply of success only when the tunnel's
-- stream is open, before any copying; otherwise it gets the reply for the error, and the connection
-- ends with that error.
pub handle_connection-connect :
    (c : Parts) (n rsv : ℕ) (methods rest : Bytes) (a : SocksAddress)
    → length methods ≡ n
    → contains no_authentication methods ≡ true
    → IsSocks a
    → handle_connection c
        (stream (version ∷ n ∷ (methods ++ (version ∷ cmd_connect ∷ rsv ∷ (encode a ++ rest)))) [])
      ≡ connect_outcome c rest
          (version ∷ no_authentication ∷ [])
          (c.open_bidirectional (to_ombrac a))
unfolding handle_connection dispatch
handle_connection-connect c n rsv methods rest a e h s =
    rw (negotiate_method_lem n methods (version ∷ cmd_connect ∷ rsv ∷ (encode a ++ rest)) [] e, h)
      (rw (request_read-encode (connect a) rsv rest s)
        (handle_connect_lem c rest (version ∷ no_authentication ∷ []) _))
