-- ===== src/Caching/Types.antt =====
-- The structures of caching/src/cache.h. An entry of a list carries its own address, by which a
-- pointer leads to it; the `next` and `prev` links are the order of the list. The reserved bits of
-- the messages are left out.
pub mod Const
use mobile_cloud_caching.Prelude.{ℕ, List}
use mobile_cloud_caching.Types.{Ptr}

pub record FileReq : Type 0 where
  pub kind : ℕ
  pub src_ip : ℕ
  pub dst_ip : ℕ
  pub file_id : ℕ
  pub seq : ℕ
  pub metric : ℕ

-- The words behind the structure are the fragments.
pub record FileRep : Type 0 where
  pub kind : ℕ
  pub frag_count : ℕ
  pub src_ip : ℕ
  pub dst_ip : ℕ
  pub file_id : ℕ
  pub dist : ℕ
  pub frags : List ℕ

pub record FragReq : Type 0 where
  pub kind : ℕ
  pub src_ip : ℕ
  pub dst_ip : ℕ
  pub file_id : ℕ
  pub frag_id : ℕ

pub record ExchReq : Type 0 where
  pub kind : ℕ
  pub src_ip : ℕ
  pub dst_ip : ℕ
  pub file_id : ℕ
  pub frag_id : ℕ

pub record ExchRep : Type 0 where
  pub kind : ℕ
  pub file_id : ℕ
  pub frag_id : ℕ
  pub src_ip : ℕ
  pub dst_ip : ℕ
  pub score : ℕ

pub record AddCache : Type 0 where
  pub kind : ℕ
  pub file_id : ℕ
  pub frag_id : ℕ
  pub src_ip : ℕ
  pub dst_ip : ℕ

-- What a `void *data` points at.
pub data Message : Type 0 where
  nothing : Message
  of_file_req : FileReq → Message
  of_file_rep : FileRep → Message
  of_frag_req : FragReq → Message
  of_exch_req : ExchReq → Message
  of_exch_rep : ExchRep → Message
  of_add_cache : AddCache → Message

pub record CFloodId : Type 0 where
  pub src_ip : ℕ
  pub dst_ip : ℕ
  pub id : ℕ
  pub lifetime : ℕ

pub record CTask : Type 0 where
  pub addr : Ptr
  pub kind : ℕ
  pub time : ℕ
  pub dst_ip : ℕ
  pub src_ip : ℕ
  pub file_id : ℕ
  pub frag_id : ℕ
  pub ttl : ℕ
  pub data_len : ℕ
  pub payload : Message

pub record CacheTable : Type 0 where
  pub addr : Ptr
  pub file_id : ℕ
  pub frag_id : ℕ
  pub refs : ℕ
  pub is_service_center : ℕ

-- `map` holds the words that were written of the eight that there are.
pub record FileRepInfo : Type 0 where
  pub addr : Ptr
  pub file_id : ℕ
  pub dst_ip : ℕ
  pub dist : ℕ
  pub map : List ℕ
  pub frag_count : ℕ
  pub expired : ℕ

pub record ReqList : Type 0 where
  pub addr : Ptr
  pub file_id : ℕ
  pub frag_id : ℕ
  pub count : ℕ

pub record ExchTable : Type 0 where
  pub addr : Ptr
  pub file_id : ℕ
  pub frag_id : ℕ
  pub dst_ip : ℕ
  pub neigh_ip : ℕ
  pub score : ℕ
  pub expired : ℕ
