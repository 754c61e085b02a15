-- ===== src/Types/TaskType.antt =====
-- The task types of kaodv/src/aodv.h.
use mobile_cloud_caching.Prelude.{ℕ}

abbrev pub rreq : ℕ
rreq = 1

abbrev pub rrep : ℕ
rrep = 2

abbrev pub rerr : ℕ
rerr = 3

abbrev pub resend_rreq : ℕ
resend_rreq = 101

abbrev pub hello : ℕ
hello = 102

abbrev pub neighbor : ℕ
neighbor = 103

abbrev pub cleanup : ℕ
cleanup = 104

abbrev pub route_cleanup : ℕ
route_cleanup = 105
