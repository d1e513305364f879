-- ===== src/Reassembly.antt =====
-- crates/ombrac/src/reassembly.rs: the buffer that collects the fragments of one UDP packet, and the
-- reassembler, which keeps one buffer for each pair of a session and a fragment id in a cache.
-- Calls of `process` follow one another: each receiver awaits one before it makes the next.
pub mod Invariant
pub mod Consistent
pub mod Pieces
pub mod Safety
pub mod Slots
pub mod Progress
pub mod Deliver
pub mod Reject
mod Examples
use mathlib.Core.Logic.{ite}
use native.Mathlib.Decide.{ℕ_discrete}
use ombrac.Prelude.{
  ℕ, suc, Bool, true, false, Option, none, some, List, [], ◌∷◌, ◌++◌, ◌+◌, ◌%◌, ◌&&◌, ◌||◌, not,
  ltb, ◌==◌, if◌then◌else◌, is_some, get_elem?, set, replicate, ok,
}
use ombrac.Net.{Bytes, IoResult}
use ombrac.Cache.{Cache}
use ombrac.Protocol.{Address, Fragment, UdpPacket, unfragmented, fragmented}

abbrev pub max_fragment_count : ℕ
max_fragment_count = 256

pub record ReassemblyBuffer : Type 0 where
  pub fragments : List (Option Bytes)
  pub received_count : ℕ
  pub total_count : ℕ
  pub address : Option Address
  pub session_id : ℕ

-- ReassemblyBuffer::new
abbrev pub new : ℕ → ℕ → Option Address → ReassemblyBuffer
new session_id fragment_count address = record {
  fragments = replicate fragment_count none;
  received_count = 0;
  total_count = fragment_count;
  address = address;
  session_id = session_id;
}

-- `Address: PartialEq`, derived.
pub Address-discrete : Discrete Address
Address-discrete = hlevel ℕ_discrete

-- The last part of `add_fragment`: a free slot within the bounds takes the payload, and the u16
-- counter is stepped. An occupied slot, or none, refuses it.
pub store_slot : ReassemblyBuffer → ℕ → Bytes → Option (Option Bytes) → ReassemblyBuffer × Bool
store_slot b index payload (some none) = (
  record b {
    fragments = set b.fragments index (some payload);
    received_count = (b.received_count + 1) % 65536;
  },
  true,
)
store_slot b index payload (some (some old)) = (b, false)
store_slot b index payload none = (b, false)

pub store_fragment : ReassemblyBuffer → Fragment → ReassemblyBuffer × Bool
unfolding store_slot
store_fragment b f =
    store_slot b f.fragment_index f.payload (get_elem? b.fragments f.fragment_index)

-- The part of `add_fragment` that reads the address of the first fragment.
pub check_address :
    ReassemblyBuffer → Fragment → Option Address → Option Address → ReassemblyBuffer × Bool
unfolding store_fragment
check_address b f none given = store_fragment (record b { address = given }) f
check_address b f (some existing) (some new_addr) =
    ite (Address-discrete existing new_addr) (store_fragment b f) (b, false)
check_address b f (some existing) none = (b, false)

pub add_checked : ReassemblyBuffer → Fragment → ReassemblyBuffer × Bool
unfolding check_address store_fragment
add_checked b f =
    if f.fragment_index == 0 then check_address b f b.address f.address else store_fragment b f

-- ReassemblyBuffer::add_fragment. A refusal past the count's check leaves what was set before it.
pub add_fragment : ReassemblyBuffer → UdpPacket → ReassemblyBuffer × Bool
unfolding add_checked
add_fragment b (unfragmented session_id address payload) = (b, false)
add_fragment b (fragmented f) =
    if f.fragment_count == 0 || ltb max_fragment_count f.fragment_count
    then (b, false)
    else if b.total_count == 0
    then add_checked
        (record b { total_count = f.fragment_count; fragments = replicate f.fragment_count none }) f
    else if b.total_count == f.fragment_count
    then add_checked b f
    else (b, false)

pub is_complete : ReassemblyBuffer → Bool
is_complete b = ltb 0 b.total_count && (b.received_count == b.total_count && is_some b.address)

-- The loop of `assemble_and_take`: the slots that it has emptied, and the bytes, or `none` where it
-- met an empty slot.
pub take_fragments : List (Option Bytes) → Bytes → List (Option Bytes) × Option Bytes
take_fragments [] combined = ([], some combined)
take_fragments (none ∷ rest) combined = (none ∷ rest, none)
take_fragments (some payload ∷ rest) combined =
    let (rest', r) = take_fragments rest (combined ++ payload) in (none ∷ rest', r)

pub with_address : ℕ → Option Address → Option Bytes → Option (ℕ × Address × Bytes)
with_address session_id (some a) (some combined) = some (session_id, a, combined)
with_address session_id none combined = none
with_address session_id (some a) none = none

pub assemble_and_take : ReassemblyBuffer → ReassemblyBuffer × Option (ℕ × Address × Bytes)
unfolding is_complete take_fragments with_address
assemble_and_take b =
    if not (is_complete b)
    then (b, none)
    else let (emptied, combined) = take_fragments b.fragments [] in
      (record b { fragments = emptied }, with_address b.session_id b.address combined)

-- The buffer that `get_with` returns: that in the cache, or a new one.
abbrev pub buffer_or_new : ℕ → Option ReassemblyBuffer → ReassemblyBuffer
buffer_or_new session_id none = new session_id 0 none
buffer_or_new session_id (some b) = b

abbrev pub Buffers : Type 1
Buffers = Cache (ℕ × ℕ) ReassemblyBuffer

-- The result of `UdpReassembler::process`: a packet, or nothing yet.
abbrev pub Delivery : Type 0
Delivery = Option (ℕ × Address × Bytes)

module _ (c : Buffers) where
  -- `process` once the buffer's lock is held.
  pub process_buffer : c.State → ℕ × ℕ → ReassemblyBuffer × Bool → c.State × IoResult Delivery
  process_buffer s key (b, false) = (c.insert s key b, ok none)
  process_buffer s key (b, true) =
      if is_complete b
      then (c.invalidate s key, ok (assemble_and_take b).1)
      else (c.insert s key b, ok none)

  -- UdpReassembler::process
  unfoldable pub process : c.State → UdpPacket → c.State × IoResult Delivery
  unfolding process_buffer
  process s (unfragmented session_id address payload) =
      (s, ok (some (session_id, address, payload)))
  process s (fragmented f) =
      let key : ℕ × ℕ = (f.session_id, f.fragment_id) in
      process_buffer s key (add_fragment (buffer_or_new f.session_id (c.find s key)) (fragmented f))

  -- The packets that come in, one after the other, and what each call returns.
  pub process_all : c.State → List UdpPacket → c.State × List (IoResult Delivery)
  process_all s [] = (s, [])
  process_all s (p ∷ ps) =
      let (s', r) = process s p in let (s'', rs) = process_all s' ps in (s'', r ∷ rs)
