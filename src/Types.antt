-- ===== src/Types.antt =====
-- The structures of kaodv/src/aodv.h. A pointer is an address, and 0 is `NULL`. A record that is
-- allocated carries its own address, `addr`, by which the rest of the code points at it; the `next`
-- and `prev` links are the order of the list that holds the record. IP addresses are words in
-- network order, as the code keeps them; a network device is the address of its structure. Left out
-- are `index` and `name` of a device, which only its creation and signal.c use.
pub mod Const
pub mod TaskType
use mobile_cloud_caching.Prelude.{ℕ, Bool, List}

abbrev pub Ptr : Type 0
Ptr = ℕ

abbrev pub null : Ptr
null = 0

pub record FloodId : Type 0 where
  pub src_ip : ℕ
  pub dst_ip : ℕ
  pub id : ℕ
  pub lifetime : ℕ

pub record AodvRoute : Type 0 where
  pub addr : Ptr
  pub ip : ℕ
  pub netmask : ℕ
  pub seq : ℕ
  pub old_seq : ℕ
  pub metric : ℕ
  pub next_hop : ℕ
  pub rreq_id : ℕ
  pub lifetime : ℕ
  pub dev : Ptr
  pub route_valid : Bool
  pub route_seq_valid : Bool
  pub self_route : Bool

pub record AodvDev : Type 0 where
  pub dev : Ptr
  pub route_entry : Ptr
  pub ip : ℕ
  pub netmask : ℕ
  pub sock : Ptr

pub record AodvNeigh : Type 0 where
  pub addr : Ptr
  pub ip : ℕ
  pub seq : ℕ
  pub lifetime : ℕ
  pub hw_addr : List ℕ
  pub dev : Ptr
  pub route_entry : Ptr
  pub link : ℕ
  pub valid_link : Bool

-- The messages, field by field; the flag bits are Booleans and the reserved ones are left out.
pub record Rrep : Type 0 where
  pub kind : ℕ
  pub a : Bool
  pub metric : ℕ
  pub dst_ip : ℕ
  pub dst_seq : ℕ
  pub src_ip : ℕ
  pub lifetime : ℕ

pub record Rreq : Type 0 where
  pub kind : ℕ
  pub u : Bool
  pub d : Bool
  pub g : Bool
  pub r : Bool
  pub j : Bool
  pub metric : ℕ
  pub rreq_id : ℕ
  pub dst_ip : ℕ
  pub dst_seq : ℕ
  pub src_ip : ℕ
  pub src_seq : ℕ

pub record AodvDst : Type 0 where
  pub ip : ℕ
  pub seq : ℕ

pub record Rerr : Type 0 where
  pub kind : ℕ
  pub n : Bool
  pub dst_count : ℕ
  pub dsts : List AodvDst

-- What a `void *data` points at.
pub data Message : Type 0 where
  nothing : Message
  of_rreq : Rreq → Message
  of_rrep : Rrep → Message
  of_rerr : Rerr → Message

pub record AodvTask : Type 0 where
  pub addr : Ptr
  pub kind : ℕ
  pub id : ℕ
  pub time : ℕ
  pub dst_ip : ℕ
  pub src_ip : ℕ
  pub dev : Ptr
  pub ttl : ℕ
  pub retries : ℕ
  pub src_hw_addr : List ℕ
  pub data_len : ℕ
  pub payload : Message
