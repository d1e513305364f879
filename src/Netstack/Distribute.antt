-- ===== src/Netstack/Distribute.antt =====
-- Both directions of a connection go to the same worker (distribute_packets in
-- crates/ombrac-netstack/src/tcp.rs).
use Prim.Native.Nat.{compare, Ordering}
use ombrac.Prelude.{ℕ, some, [], ◌∷◌, ◌%◌, ◌≡◌, refl, sym, ap, ap₂, ◌∙◌, arith}
use ombrac.Net.{Bytes, SocketAddr, v4, v6, socket_addr}
use ombrac.Netstack.{Parsers, TcpHeader, IpPacket, new_checked, src_addr, dst_addr}
use ombrac.Netstack.Worker.{
  then_compare, compare_octets, compare_addr, swap_if, ordered, parse_tcp, index_of, worker_index,
}

abbrev pub flip : Ordering → Ordering
flip Ordering.lt = Ordering.gt
flip Ordering.eq = Ordering.eq
flip Ordering.gt = Ordering.lt

compare-flip : (m n : ℕ) → compare n m ≡ flip (compare m n)
compare-flip m n = ground arith

compare-eq : (m n : ℕ) → compare m n ≡ Ordering.eq → m ≡ n
compare-eq m n e = ground arith

flip-then : (o k : Ordering) → flip (then_compare o k) ≡ then_compare (flip o) (flip k)
flip-then Ordering.lt k = refl
flip-then Ordering.eq k = refl
flip-then Ordering.gt k = refl

then-eq : (o k : Ordering) → then_compare o k ≡ Ordering.eq → (o ≡ Ordering.eq) × (k ≡ Ordering.eq)
then-eq Ordering.lt k e = absurd (cc (e))
then-eq Ordering.eq k e = (refl, e)
then-eq Ordering.gt k e = absurd (cc (e))

compare_octets-flip : (xs ys : Bytes) → compare_octets ys xs ≡ flip (compare_octets xs ys)
compare_octets-flip [] [] = refl
compare_octets-flip [] (y ∷ ys) = refl
compare_octets-flip (x ∷ xs) [] = refl
compare_octets-flip (x ∷ xs) (y ∷ ys) =
    ap₂ then_compare (compare-flip x y) (compare_octets-flip xs ys)
    ∙ sym (flip-then (compare x y) (compare_octets xs ys))

compare_octets-eq : (xs ys : Bytes) → compare_octets xs ys ≡ Ordering.eq → xs ≡ ys
compare_octets-eq [] [] e = refl
compare_octets-eq [] (y ∷ ys) e = absurd (cc (e))
compare_octets-eq (x ∷ xs) [] e = absurd (cc (e))
compare_octets-eq (x ∷ xs) (y ∷ ys) e =
    let (head, tail) = then-eq (compare x y) (compare_octets xs ys) e in
    ap₂ (λ a b. a ∷ b) (compare-eq x y head) (compare_octets-eq xs ys tail)

pub compare_addr-flip : (a b : SocketAddr) → compare_addr b a ≡ flip (compare_addr a b)
compare_addr-flip (v4 a) (v4 b) =
    ap₂ then_compare (compare_octets-flip a.ip b.ip) (compare-flip a.port b.port)
    ∙ sym (flip-then (compare_octets a.ip b.ip) (compare a.port b.port))
compare_addr-flip (v4 a) (v6 b) = refl
compare_addr-flip (v6 a) (v4 b) = refl
compare_addr-flip (v6 a) (v6 b) =
    ap₂ then_compare (compare_octets-flip a.ip b.ip) (
      ap₂ then_compare (compare-flip a.port b.port) (
        ap₂ then_compare (compare-flip a.flowinfo b.flowinfo) (compare-flip a.scope_id b.scope_id)
        ∙ sym (flip-then (compare a.flowinfo b.flowinfo) (compare a.scope_id b.scope_id)))
      ∙ sym (flip-then (compare a.port b.port) _))
    ∙ sym (flip-then (compare_octets a.ip b.ip) _)

compare_addr-eq : (a b : SocketAddr) → compare_addr a b ≡ Ordering.eq → a ≡ b
compare_addr-eq (v4 a) (v4 b) e =
    let (ip, port) = then-eq (compare_octets a.ip b.ip) (compare a.port b.port) e in
    ap₂ (λ i p. v4 (record { ip = i; port = p })) (compare_octets-eq a.ip b.ip ip)
      (compare-eq a.port b.port port)
compare_addr-eq (v4 a) (v6 b) e = absurd (cc (e))
compare_addr-eq (v6 a) (v4 b) e = absurd (cc (e))
compare_addr-eq (v6 a) (v6 b) e =
    let (ip, more) = then-eq (compare_octets a.ip b.ip) _ e in
    let (port, most) = then-eq (compare a.port b.port) _ more in
    let (flow, scope) =
      then-eq (compare a.flowinfo b.flowinfo) (compare a.scope_id b.scope_id) most in
    ap₂
      (λ (x : Bytes × ℕ) (y : ℕ × ℕ).
        v6 (record { ip = x.0; port = x.1; flowinfo = y.0; scope_id = y.1 }))
      (ap₂ (λ i p. (i, p)) (compare_octets-eq a.ip b.ip ip) (compare-eq a.port b.port port))
      (ap₂ (λ f s. (f, s)) (compare-eq a.flowinfo b.flowinfo flow)
        (compare-eq a.scope_id b.scope_id scope))

swap_if-flip :
    (o : Ordering) (a b : SocketAddr) → compare_addr a b ≡ o → swap_if (flip o) b a ≡ swap_if o a b
unfolding swap_if
swap_if-flip Ordering.lt a b e = refl
swap_if-flip Ordering.gt a b e = refl
swap_if-flip Ordering.eq a b e =
    let same = compare_addr-eq a b e in ap₂ (λ x y. (x, y)) (sym same) same

-- The order of the addresses does not tell the directions apart.
ordered-swap : (a b : SocketAddr) → ordered b a ≡ ordered a b
unfolding ordered
ordered-swap a b =
    ap (λ o. swap_if o b a) (compare_addr-flip a b) ∙ swap_if-flip (compare_addr a b) a b refl

-- Whatever the hash, two TCP packets of which one goes from where the other goes to, and to where it
-- comes from, are handed to the same worker.
pub worker_index-reply :
    (w : Parsers) (hash : SocketAddr → SocketAddr → ℕ) (n : ℕ) (packet reply : Bytes)
    (p q : IpPacket) (h k : TcpHeader)
    → parse_tcp w (new_checked w packet) ≡ some (p, h)
    → parse_tcp w (new_checked w reply) ≡ some (q, k)
    → socket_addr (src_addr q) k.src_port ≡ socket_addr (dst_addr p) h.dst_port
    → socket_addr (dst_addr q) k.dst_port ≡ socket_addr (src_addr p) h.src_port
    → worker_index w hash n reply ≡ worker_index w hash n packet
unfolding worker_index index_of
worker_index-reply w hash n packet reply p q h k e f src dst =
    let same =
      ap₂ ordered src dst
      ∙ ordered-swap (socket_addr (src_addr p) h.src_port) (socket_addr (dst_addr p) h.dst_port) in
    rw (e, f) (ap (λ x. hash x.0 x.1 % n) same)
