-- ===== src/KernelRoute.antt =====
-- kaodv/src/kernel_route.c: the entries that the module puts in and takes out of the kernel's
-- forwarding table. The ioctl itself is the kernel's, and is an entry of the log.
use mobile_cloud_caching.Prelude.{ℕ, Option, none, some, bit_and}
use mobile_cloud_caching.Types.{Ptr}
use mobile_cloud_caching.World.{Cmd, pure, ◌>>=◌, ◌>>◌, Event, emit, Ret, ret, fail, eperm}
use mobile_cloud_caching.World.Memory.{kmalloc}

-- A `struct rtentry`, in the fields that vary.
pub record Rtentry : Type 0 where
  pub rt_dst : ℕ
  pub rt_gateway : ℕ
  pub rt_genmask : ℕ
  pub rt_dev : Ptr

unfoldable pub create_kernel_route_entry : ℕ → ℕ → ℕ → Ptr → Cmd (Option Rtentry)
unfolding kmalloc
create_kernel_route_entry dst_ip gw_ip genmask_ip interf = do
  block ← kmalloc
  pure (elim block [
    | none ↦ none
    | some _ ↦ some (record {
      rt_dst = bit_and dst_ip genmask_ip;
      rt_gateway = gw_ip;
      rt_genmask = genmask_ip;
      rt_dev = interf;
    })
  ])

-- Returns -1 if there is no memory.
unfoldable pub insert_kernel_route_entry : ℕ → ℕ → ℕ → Ptr → Cmd Ret
unfolding create_kernel_route_entry
insert_kernel_route_entry dst_ip gw_ip genmask_ip interf = do
  entry ← create_kernel_route_entry dst_ip gw_ip genmask_ip interf
  elim entry [
    | none ↦ pure (fail eperm)
    | some e ↦ do emit (Event.route_added e.rt_dst e.rt_gateway e.rt_genmask e.rt_dev); pure (ret 0)
  ]

unfoldable pub delete_kernel_route_entry : ℕ → ℕ → ℕ → Cmd Ret
unfolding create_kernel_route_entry
delete_kernel_route_entry dst_ip gw_ip genmask_ip = do
  entry ← create_kernel_route_entry dst_ip 0 genmask_ip 0
  elim entry [
    | none ↦ pure (ret 1)
    | some e ↦ do emit (Event.route_deleted e.rt_dst e.rt_genmask); pure (ret 0)
  ]
