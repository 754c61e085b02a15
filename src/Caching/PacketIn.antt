-- ===== src/Caching/PacketIn.antt =====
-- caching/src/cPacketIn.c: the check of the daemon's packets, their way into the task queue, and the
-- hook that also counts the routing protocols' messages.
pub mod Olsr
use mobile_cloud_caching.Prelude.{
  ℕ, zero, suc, ◌+◌, ◌-◌, ◌*◌, ◌/◌, ◌%◌, ltb, ◌==◌, ◌&&◌, ◌||◌, not, Bool, true, false, Option,
  none, some, if◌then◌else◌,
}
use mobile_cloud_caching.Prelude.Commands.{pure, oops, ◌>>=◌, ◌>>◌, get, modify}
use mobile_cloud_caching.Prelude.Words.{inc32}
use mobile_cloud_caching.Kernel.{Kernel, ntohl}
use mobile_cloud_caching.PacketQueue.{Verdict, nf_drop, nf_accept}
use mobile_cloud_caching.Caching.Types.{Message, of_file_req, of_file_rep}
use mobile_cloud_caching.Caching.State.{Metrics, Cmd}
use mobile_cloud_caching.Caching.Task.{Packet, start_point, insert_task}
use mobile_cloud_caching.Caching.ReqList.{find_creq, reach_threshold}

-- The sizes of the messages, in bytes.
abbrev pub sizeof_file_req : ℕ
sizeof_file_req = 24

abbrev pub sizeof_file_rep : ℕ
sizeof_file_rep = 20

abbrev pub sizeof_frag_req : ℕ
sizeof_frag_req = 20

abbrev pub sizeof_exch_req : ℕ
sizeof_exch_req = 20

abbrev pub sizeof_exch_rep : ℕ
sizeof_exch_rep = 24

abbrev pub sizeof_add_cache : ℕ
sizeof_add_cache = 20

abbrev pub add32 : ℕ → ℕ → ℕ
add32 x y = (x + y) % 4_294_967_296

-- The words of a packet go to the framework's account, or to the exchange's.
unfoldable pub count_framework : ℕ → Cmd (Unit {0})
count_framework numbytes = modify λ s. record s { f_overhead = add32 s.f_overhead (numbytes / 4) }

unfoldable pub count_caching : ℕ → Cmd (Unit {0})
count_caching numbytes = modify λ s. record s { c_overhead = add32 s.c_overhead (numbytes / 4) }

-- A packet of a fixed size.
unfoldable pub check_size : (ℕ → Cmd (Unit {0})) → ℕ → ℕ → Cmd Bool
check_size account size numbytes =
    if numbytes == size then (do account numbytes; pure true) else pure false

-- What the hook reads of a packet: whether it has a transport header, its UDP port, whether the frame
-- is IP, and what the code takes for the device's address.
pub record Frame : Type 0 where
  pub packet : Packet
  pub has_transport : Bool
  pub port : ℕ
  pub is_ip : Bool
  pub dev_saddr : ℕ

abbrev pub cacheport : ℕ
cacheport = 655

abbrev pub olsrport : ℕ
olsrport = 698

abbrev pub aodvport : ℕ
aodvport = 654

abbrev pub lq_hello_message : ℕ
lq_hello_message = 201

abbrev pub lq_tc_message : ℕ
lq_tc_message = 202

-- Two bytes in network order.
abbrev pub word16 : (ℕ → ℕ) → ℕ → ℕ
word16 bytes n = bytes n * 256 + bytes (n + 1)

-- A message of OLSR by its type and size.
unfoldable pub count_olsr : ℕ → ℕ → Metrics → Metrics
count_olsr kind size m =
    if kind == lq_hello_message
    then record m { rt_hello_c = inc32 m.rt_hello_c; rt_hello = add32 m.rt_hello (size / 4) }
    else if kind == lq_tc_message
    then record m { rt_tc = add32 m.rt_tc (size / 4) }
    else m

-- The loop over the messages of an OLSR packet, from a place in its bytes, with the bytes that are
-- left. On fuel; `none` is a loop that has not ended.
unfoldable pub olsr_loop : ℕ → (ℕ → ℕ) → ℕ → ℕ → Metrics → Option Metrics
olsr_loop zero bytes place count m = none
olsr_loop (suc fuel) bytes place count m =
    let size = word16 bytes (place + 2) in
    let next =
      olsr_loop fuel bytes (place + size) ((count + 4_294_967_296 - size) % 4_294_967_296)
        (count_olsr (bytes place) size m) in
    if ltb 0 count then next else some m

-- The part of the hook for OLSR, with the fuel for its loop.
unfoldable pub input_olsr : ℕ → Frame → Cmd Verdict
input_olsr fuel f =
    let size = f.packet.len - start_point in
    let count = (size + 4_294_967_292) % 4_294_967_296 in
    if ltb count 4 || not (word16 f.packet.bytes 0 == size % 65_536) then pure nf_drop else do
      s ← get
      elim (olsr_loop fuel f.packet.bytes 4 count
          (record (s.metrics) { rt_header = inc32 s.metrics.rt_header })) [
            | none ↦ oops
            | some m ↦ do modify λ s'. record s' { metrics = m }; pure nf_accept
          ]

abbrev pub rrep_message : ℕ
rrep_message = 2

abbrev pub sizeof_rrep : ℕ
sizeof_rrep = 20

-- A word of four bytes is compared byte by byte.
abbrev pub same_word : (ℕ → ℕ) → ℕ → ℕ → Bool
same_word bytes m n =
    (bytes m == bytes n)
    && (bytes (m + 1) == bytes (n + 1))
    && (bytes (m + 2) == bytes (n + 2))
    && (bytes (m + 3) == bytes (n + 3))

module _ ⦃k : Kernel⦄ where
  -- The message is what the packet's first byte says; any other is a misread.
  unfoldable pub valid_cache_packet : ℕ → ℕ → Message → Cmd Bool
  valid_cache_packet numbytes kind message =
      if kind == 1
      then elim message [
        | of_file_req m ↦
            if numbytes == sizeof_file_req
            then (do count_framework numbytes; s ← get; pure (not (ntohl m.src_ip == s.g_my_ip)))
            else pure false
        | _ ↦ oops
      ]
      else if kind == 2
      then elim message [
        | of_file_rep m ↦ check_size count_framework (sizeof_file_rep + 4 * m.frag_count) numbytes
        | _ ↦ oops
      ]
      else if kind == 3
      then check_size count_framework sizeof_frag_req numbytes
      else if kind == 4
      then check_size count_framework sizeof_frag_req numbytes
      else if kind == 5
      then check_size count_caching sizeof_exch_req numbytes
      else if kind == 6
      then check_size count_caching sizeof_exch_rep numbytes
      else if kind == 7
      then check_size count_caching sizeof_add_cache numbytes
      else pure false

  -- The two identifiers are read as single bytes.
  unfoldable pub packet_in : Packet → Cmd Verdict
  packet_in packet = do
    let kind = packet.bytes 0
    valid ← valid_cache_packet (packet.len - start_point) kind packet.message
    if not valid then pure nf_drop else do
      insert_task kind packet
      s ← get
      if s.g_act && (kind == 3)
          then (do
            found ← find_creq (packet.bytes 12) (packet.bytes 16)
            reached ← reach_threshold found
            pure (if reached == 1 then nf_drop else nf_accept))
          else pure nf_accept

  -- The part of the hook for AODV: hello messages are replies to oneself.
  unfoldable pub input_aodv : Frame → Metrics → Metrics
  input_aodv f m =
      let bytes = f.packet.bytes in
      let numbytes = f.packet.len - start_point in
      let hello = (numbytes == sizeof_rrep) && same_word bytes 12 4 in
      if (bytes 0 == rrep_message) && hello
      then record m { aodv_hello = add32 m.aodv_hello (numbytes / 4) }
      else record m { aodv_else = add32 m.aodv_else (numbytes / 4) }

  -- The hook, with the fuel for the loop over an OLSR packet.
  unfoldable pub input_handler : ℕ → Frame → Cmd Verdict
  input_handler fuel f =
      let foreign = not (f.dev_saddr == f.packet.saddr) in
      if not f.has_transport
      then pure nf_accept
      else if (f.port == cacheport) && f.is_ip
      then (if foreign then packet_in f.packet else pure nf_drop)
      else if (f.port == olsrport) && f.is_ip
      then (if foreign then input_olsr fuel f else pure nf_accept)
      else if (f.port == aodvport) && f.is_ip && foreign
      then (do modify λ s. record s { metrics = input_aodv f s.metrics }; pure nf_accept)
      else pure nf_accept
