-- ===== src/World/Frame.antt =====
-- What a command leaves alone.
use mobile_cloud_caching.Prelude.{◌≡◌, ap, ◌∙◌}
use mobile_cloud_caching.World.{World}

-- The tables and queues are the same; readings, allocations, socket requests and the log may differ.
abbrev pub SameTables : World → World → Type 0
SameTables w w' = w' ≡ record w {
  readings = w'.readings;
  allocations = w'.allocations;
  requests = w'.requests;
  log = w'.log;
}

pub SameTables-trans : (u v w : World) → SameTables u v → SameTables v w → SameTables u w
SameTables-trans u v w p q =
    q
    ∙ ap {A = World} {B = World}
        (λ x. record x {
          readings = w.readings;
          allocations = w.allocations;
          requests = w.requests;
          log = w.log;
        })
        p
