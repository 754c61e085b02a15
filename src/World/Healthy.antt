-- ===== src/World/Healthy.antt =====
-- A world in which the module's own assumptions hold: allocations succeed, there is a device and each
-- has a socket, and the node's own route is there.
use mobile_cloud_caching.Prelude.{ℕ, ◌≢◌, ap, sym, none, [], All}
use mobile_cloud_caching.Types.{null, AodvDev}
use mobile_cloud_caching.World.{World}
use mobile_cloud_caching.World.Kept.{IsRoute, Kept}
use mathlib.Core.Path.{subst}

abbrev pub HasSocket : AodvDev → Type 0
HasSocket d = d.sock ≢ null

pub record Healthy (w : World) : Type 0 where
  pub memory : (n : ℕ) → w.memory n ≢ none
  pub device : w.aodv_dev_list ≢ []
  pub sockets : All HasSocket w.aodv_dev_list
  pub own_route : IsRoute w.g_my_route w

-- The commands on routes keep a world healthy.
pub Kept-Healthy : {w w' : World} → Kept w w' → Healthy w → Healthy w'
Kept-Healthy {w} {w'} k h = record {
  memory = subst (λ (x : World). (n : ℕ) → x.memory n ≢ none) (sym k.same) h.memory;
  device = subst (λ (x : World). x.aodv_dev_list ≢ []) (sym k.same) h.device;
  sockets = subst (λ (x : World). All HasSocket x.aodv_dev_list) (sym k.same) h.sockets;
  own_route =
      k.alive w'.g_my_route
        (subst (λ p. IsRoute p w) (sym (ap (λ (x : World). x.g_my_route) k.same)) h.own_route);
}
