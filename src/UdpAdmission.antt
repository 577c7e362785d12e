-- ===== src/UdpAdmission.antt =====
-- `UdpAdmission` of server/fruitspy/admission.py: a table of UDP sources with a bucket each, behind
-- one global bucket. `clock` gives the successive readings that one call makes: 0 by `allow` itself,
-- 1 by the global bucket, 2 when a new source's bucket is built, 3 by the source's bucket.
pub mod Table
pub mod Bans
pub mod Configured
use fruitspy.Prelude.{
  Text, list_eq, nat_eq, ℕ, ◌+◌, ◌*◌, ◌<◌, Bool, true, false, ◌&&◌, ◌||◌, not, Option, none, some,
  [], ltb, leb, length, if◌then◌else◌,
}
use fruitspy.Clock.{seconds, is_fresh}
use fruitspy.Dict.{Dict, get, put, retain}
use fruitspy.Bucket.{TokenBucket, create, spend}

pub data UdpAdmissionDecision : Type 0 where
  allowed global_rate_limit source_rate_limit source_ban_started source_banned source_table_full :
      UdpAdmissionDecision

-- udp_response_within_amplification_limit
unfoldable pub within_amplification_limit : ℕ → ℕ → ℕ → ℕ → Bool
within_amplification_limit request_bytes response_bytes numerator denominator =
    ltb 0 request_bytes
    && leb 0 response_bytes
    && ltb 0 numerator
    && ltb 0 denominator
    && leb (response_bytes * denominator) (request_bytes * numerator)

pub record UdpSource : Type 0 where
  pub bucket : TokenBucket
  pub last_seen : ℕ
  pub violations : ℕ
  pub banned_until : ℕ

pub record UdpAdmission : Type 0 where
  pub source_rate_per_second : ℕ
  pub source_burst : ℕ
  pub max_sources : ℕ
  pub entry_ttl_seconds : ℕ
  pub source_violation_burst : ℕ
  pub source_ban_seconds : ℕ
  pub global_bucket : TokenBucket
  pub sources : Dict Text UdpSource
  pub next_expiry_at : ℕ

-- UdpAdmission(...): reading 0 is the global bucket's, reading 1 the constructor's own
unfoldable pub create_admission : (ℕ → ℕ) → ℕ → ℕ → ℕ → ℕ → ℕ → ℕ → ℕ → ℕ → UdpAdmission
create_admission clock source_rate source_burst global_rate global_burst max_sources ttl
      violation_burst ban =
    record {
      source_rate_per_second = source_rate;
      source_burst = source_burst;
      max_sources = max_sources;
      entry_ttl_seconds = ttl;
      source_violation_burst = violation_burst;
      source_ban_seconds = ban;
      global_bucket = create global_rate global_burst (clock 0);
      sources = [];
      next_expiry_at = clock 1 + seconds ttl;
    }

-- the test of `_expire`'s comprehension
unfoldable pub is_kept : ℕ → ℕ → UdpSource → Bool
is_kept ttl now s = ltb now s.banned_until || is_fresh ttl now s.last_seen

-- _expire(now)
unfoldable pub expire : ℕ → UdpAdmission → UdpAdmission
expire now a = record a { sources = retain (is_kept a.entry_ttl_seconds now) a.sources }

-- the periodic sweep at the head of `allow`
unfoldable pub sweep : ℕ → UdpAdmission → UdpAdmission
sweep now a =
    if leb a.next_expiry_at now
    then record (expire now a) { next_expiry_at = now + seconds a.entry_ttl_seconds }
    else a

unfoldable pub is_full : UdpAdmission → Bool
is_full a = leb a.max_sources (length a.sources)

-- the tail of `allow`: the source's own bucket, its violations and its ban
unfoldable pub charge :
    (ℕ → ℕ) → Text → UdpSource → UdpAdmission → UdpAdmissionDecision × UdpAdmission
charge clock source s a =
    let (granted, bucket) = spend 1 (clock 3) s.bucket in
    if granted
    then (
      allowed,
      record a { sources = put source (record s { bucket = bucket; violations = 0 }) a.sources },
    )
    else if leb a.source_violation_burst (s.violations + 1)
    then (
      source_ban_started,
      record a {
        sources =
            put source
              (record s {
                bucket = bucket;
                violations = 0;
                banned_until = clock 0 + seconds a.source_ban_seconds;
              })
              a.sources;
      },
    )
    else (
      source_rate_limit,
      record a {
        sources =
            put source (record s { bucket = bucket; violations = s.violations + 1 }) a.sources;
      },
    )

-- a source seen for the first time, which needs room in the table
unfoldable pub charge_new : (ℕ → ℕ) → Text → UdpAdmission → UdpAdmissionDecision × UdpAdmission
charge_new clock source a =
    let roomy = if is_full a then expire (clock 0) a else a in
    if is_full roomy
    then (source_table_full, roomy)
    else charge clock source
        (record {
          bucket = create a.source_rate_per_second a.source_burst (clock 2);
          last_seen = clock 0;
          violations = 0;
          banned_until = 0;
        })
        roomy

unfoldable pub charge_entry :
    (ℕ → ℕ) → Text → Option UdpSource → UdpAdmission → UdpAdmissionDecision × UdpAdmission
charge_entry clock source none a = charge_new clock source a
charge_entry clock source (some s) a = charge clock source (record s { last_seen = clock 0 }) a

unfoldable pub is_banned : ℕ → Option UdpSource → Bool
is_banned now none = false
is_banned now (some s) = ltb now s.banned_until

-- `allow` after the sweep, with the source's entry looked up
unfoldable pub decide :
    (ℕ → ℕ) → Text → Option UdpSource → UdpAdmission → UdpAdmissionDecision × UdpAdmission
decide clock source entry a =
    if is_banned (clock 0) entry
    then (source_banned, a)
    else (let (granted, bucket) = spend 1 (clock 1) a.global_bucket in
        let paid = record a { global_bucket = bucket } in
        if granted then charge_entry clock source entry paid else (global_rate_limit, paid))

-- allow(source)
unfoldable pub allow : (ℕ → ℕ) → Text → UdpAdmission → UdpAdmissionDecision × UdpAdmission
allow clock source a =
    let swept = sweep (clock 0) a in decide clock source (get source swept.sources) swept
