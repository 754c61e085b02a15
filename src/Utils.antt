-- ===== src/Utils.antt =====
-- kaodv/src/utils.c: sequence numbers, netmasks and the test for the AODV subnet. The time is in
-- World; the printing and the parsing of addresses are not modelled.
pub mod Seq
pub mod Netmask
use mobile_cloud_caching.Prelude.{
  ℕ, zero, suc, ◌+◌, ◌-◌, ◌*◌, ◌%◌, ltb, leb, ◌==◌, if◌then◌else◌, bit_and, Bool, true, false, not,
  ◌&&◌, Option, none, some, List, [], ◌∷◌,
}
use mobile_cloud_caching.Types.{AodvDev}

-- The bits of `*comp_seq_one - *comp_seq_two`, a signed difference that wraps around.
abbrev pub seq_diff : ℕ → ℕ → ℕ
seq_diff seq_one seq_two = (seq_one + 4_294_967_296 - seq_two) % 4_294_967_296

-- The difference is above 0: its bits are not 0 and the sign bit is clear.
unfoldable pub seq_less_or_equal : ℕ → ℕ → Bool
seq_less_or_equal seq_one seq_two =
    let diff = seq_diff seq_one seq_two in
    if ltb 0 diff && ltb diff 2_147_483_648 then false else true

-- The difference is below 0: the sign bit is set.
unfoldable pub seq_greater : ℕ → ℕ → Bool
seq_greater seq_one seq_two = if leb 2_147_483_648 (seq_diff seq_one seq_two) then false else true

-- The rounds of `for (i = 0; i < 32 - t; i++)`.
netmask_loop : ℕ → ℕ → ℕ
netmask_loop zero final = final
netmask_loop (suc n) final = netmask_loop n ((final + 1) % 4_294_967_296 * 2 % 4_294_967_296)

pub calculate_netmask : ℕ → ℕ
unfolding netmask_loop
calculate_netmask t = 4_294_967_295 - (netmask_loop (32 - t) 0 + 1) % 4_294_967_296

-- `while (t != 0)`, on fuel; `none` means that the fuel ran out.
pub prefix_loop : ℕ → ℕ → ℕ → Option ℕ
prefix_loop zero t i = none
prefix_loop (suc fuel) t i =
    let rest = prefix_loop fuel (t * 2 % 4_294_967_296) (i + 1) in if t == 0 then some i else rest

pub calculate_prefix : ℕ → Option ℕ
unfolding prefix_loop
calculate_prefix t = prefix_loop 33 t 1

unfoldable pub aodv_subnet_test : List AodvDev → ℕ → Bool
aodv_subnet_test [] tmp_ip = false
aodv_subnet_test (d ∷ ds) tmp_ip =
    if bit_and d.ip d.netmask == bit_and d.netmask tmp_ip then true else aodv_subnet_test ds tmp_ip
