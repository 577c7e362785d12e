-- ===== src/UdpAdmission/Configured.antt =====
-- `create_udp_admission`: the admission that a configuration asks for.
use fruitspy.Prelude.{
  Text, ℕ, ◌≤◌, ◌≡◌, true, Option, none, ok, arith, leb, Bool, if-elim, false, list_eq, nat_eq,
}
use fruitspy.Dict.{get}
use fruitspy.Bucket.{create, spend, refill}
use fruitspy.Config.{ServerConfig, load_config}
use fruitspy.Config.Ranges.{IsValid}
use fruitspy.Config.Valid.{load_config-IsValid}
use fruitspy.UdpAdmission.{
  UdpAdmission, allowed, create_admission, allow, sweep, expire, decide, charge_entry, charge_new,
  charge, is_full, is_banned,
}

-- create_udp_admission(config)
unfoldable pub create_udp_admission : (ℕ → ℕ) → ServerConfig → UdpAdmission
create_udp_admission clock config =
    create_admission clock config.limits.udp_packets_per_second config.limits.udp_burst
      config.limits.udp_global_packets_per_second config.limits.udp_global_burst
      config.limits.udp_tracked_sources config.timeouts.rate_limit_entry_seconds
      config.limits.udp_source_violation_burst config.timeouts.udp_source_ban_seconds

-- A full bucket grants one token.
spend_full :
    (rate burst built now : ℕ) → 1 ≤ burst → (spend 1 now (create rate burst built)).0 ≡ true
unfolding spend create refill
spend_full rate burst built now h = ground (arith, h)

-- An admission without sources and with its bursts at least one.
fresh_decides :
    (loopback : Text → Option Bool) (clock built : ℕ → ℕ) (source : Text) (config : ServerConfig)
    (expiry : ℕ)
    → IsValid loopback config
    → (decide clock source none
        (record (create_udp_admission built config) { next_expiry_at = expiry })).0
      ≡ allowed
unfolding decide is_banned create_udp_admission create_admission charge_entry charge_new is_full
    charge
fresh_decides loopback clock built source config expiry valid =
    let global =
      spend_full config.limits.udp_global_packets_per_second config.limits.udp_global_burst
        (built 0) (clock 1)
        (omega (arith, valid.udp.global_burst, valid.udp.burst, valid.udp.packets)) in
    let own =
      spend_full config.limits.udp_packets_per_second config.limits.udp_burst (clock 2) (clock 3)
        (omega (arith, valid.udp.burst, valid.udp.packets)) in
    let room : leb config.limits.udp_tracked_sources 0 ≡ false =
      ground (arith, valid.udp.sources) in
    simp (global, room, own)

-- Under a configuration that `load_config` accepts, the first datagram that reaches a service is
-- allowed, whatever its source and the readings of the clock.
pub first_allowed :
    (loopback : Text → Option Bool) (config : ServerConfig) (built clock : ℕ → ℕ) (source : Text)
    → load_config loopback config ≡ ok config
    → (allow clock source (create_udp_admission built config)).0 ≡ allowed
unfolding allow sweep expire create_udp_admission create_admission fruitspy.Dict.retain get
first_allowed loopback config built clock source accepted =
    let valid = (load_config-IsValid loopback config).0 accepted in
    let fresh = create_udp_admission built config in
    if-elim (λ (a : UdpAdmission). (decide clock source (get source a.sources) a).0 ≡ allowed)
      (leb fresh.next_expiry_at (clock 0))
      (λ _. fresh_decides loopback clock built source config _ valid)
      (λ _. fresh_decides loopback clock built source config _ valid)
