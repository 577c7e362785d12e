-- ===== src/UdpAdmission/Bans.antt =====
-- What a ban does: while it lasts the source is turned away, and its traffic costs nobody else.
use fruitspy.Prelude.{
  Text, list_eq, nat_eq, ap, ◌∙◌, ℕ, ◌+◌, ◌<◌, ◌≡◌, refl, true, Option, none, some, arith, leb, ltb,
  Bool-cases, inl, inr,
}
use fruitspy.Clock.{seconds}
use fruitspy.Dict.{get}
use fruitspy.Dict.Laws.{get-put, get-retain_kept, beq_refl}
use fruitspy.Bucket.{spend}
use fruitspy.UdpAdmission.{
  UdpAdmission, UdpSource, UdpAdmissionDecision, source_banned, source_ban_started, allow, decide,
  charge, charge_new, charge_entry, expire, sweep, is_full, is_kept, is_banned,
}

expire_banned :
    (now : ℕ) (source : Text) (a : UdpAdmission) {s : UdpSource}
    → get source a.sources ≡ some s
    → now < s.banned_until
    → get source (expire now a).sources ≡ some s
unfolding expire is_kept
expire_banned now source a g h =
    get-retain_kept (is_kept a.entry_ttl_seconds now) source a.sources g (ground arith)

sweep_banned :
    (now : ℕ) (source : Text) (a : UdpAdmission) {s : UdpSource}
    → get source a.sources ≡ some s
    → now < s.banned_until
    → get source (sweep now a).sources ≡ some s
unfolding sweep
sweep_banned now source a g h = elim (Bool-cases (leb a.next_expiry_at now)) [
  | inl due ↦ rw due (expire_banned now source a g h)
  | inr early ↦ rw early g
]

global_bucket-sweep : (now : ℕ) (a : UdpAdmission) → (sweep now a).global_bucket ≡ a.global_bucket
unfolding sweep expire
global_bucket-sweep now a = ground arith

ban_seconds-sweep :
    (now : ℕ) (a : UdpAdmission) → (sweep now a).source_ban_seconds ≡ a.source_ban_seconds
unfolding sweep expire
ban_seconds-sweep now a = ground arith

-- While a source's ban lasts, `allow` answers `source_banned`, takes nothing from the global
-- bucket, and does no more to the table than the periodic sweep, which keeps the source's entry.
pub allow_banned :
    (clock : ℕ → ℕ) (source : Text) (a : UdpAdmission) {s : UdpSource}
    → get source a.sources ≡ some s
    → clock 0 < s.banned_until
    → (allow clock source a ≡ (source_banned, sweep (clock 0) a))
      × ((allow clock source a).1.global_bucket ≡ a.global_bucket)
      × (get source (allow clock source a).1.sources ≡ some s)
unfolding allow decide is_banned
allow_banned clock source a {s} g h =
    let kept = sweep_banned (clock 0) source a g h in
    let banned : ltb (clock 0) s.banned_until ≡ true = ground arith in
    rw (kept, decide, banned) (refl, global_bucket-sweep (clock 0) a, kept)

-- If the answer is that a ban starts, the table holds the source's entry with a ban of `ban` seconds
-- from the reading.
abbrev BanSet : ℕ → ℕ → Text → UdpAdmissionDecision × UdpAdmission → Type 0
BanSet ban now source (answer, a) =
    answer ≡ source_ban_started
    → (s : UdpSource) × (get source a.sources ≡ some s) × (s.banned_until ≡ now + seconds ban)

charge-BanSet :
    (clock : ℕ → ℕ) (source : Text) (s : UdpSource) (a : UdpAdmission)
    → BanSet a.source_ban_seconds (clock 0) source (charge clock source s a)
unfolding charge
charge-BanSet clock source s a = elim (Bool-cases (spend 1 (clock 3) s.bucket).0) [
  | inl granted ↦ rw granted (λ h. cc)
  | inr refused ↦ rw refused (elim (Bool-cases (leb a.source_violation_burst (s.violations + 1))) [
    | inl ban ↦ rw ban λ h. (
      record s {
        bucket = (spend 1 (clock 3) s.bucket).1;
        violations = 0;
        banned_until = clock 0 + seconds a.source_ban_seconds;
      },
      simp (get-put, beq_refl),
      refl,
    )
    | inr warn ↦ rw warn (λ h. cc)
  ])
]

charge_new-BanSet :
    (clock : ℕ → ℕ) (source : Text) (a : UdpAdmission)
    → BanSet a.source_ban_seconds (clock 0) source (charge_new clock source a)
unfolding charge_new expire
charge_new-BanSet clock source a = elim (Bool-cases (is_full a)) [
  | inl full ↦ rw full (elim (Bool-cases (is_full (expire (clock 0) a))) [
    | inl still ↦ rw still (λ h. cc)
    | inr room ↦ rw room (charge-BanSet clock source _ (expire (clock 0) a))
  ])
  | inr room ↦ rw room (rw room (charge-BanSet clock source _ a))
]

charge_entry-BanSet :
    (clock : ℕ → ℕ) (source : Text) (o : Option UdpSource) (a : UdpAdmission)
    → BanSet a.source_ban_seconds (clock 0) source (charge_entry clock source o a)
unfolding charge_entry
charge_entry-BanSet clock source none a = charge_new-BanSet clock source a
charge_entry-BanSet clock source (some s) a =
    charge-BanSet clock source (record s { last_seen = clock 0 }) a

decide-BanSet :
    (clock : ℕ → ℕ) (source : Text) (o : Option UdpSource) (a : UdpAdmission)
    → BanSet a.source_ban_seconds (clock 0) source (decide clock source o a)
unfolding decide
decide-BanSet clock source o a = elim (Bool-cases (is_banned (clock 0) o)) [
  | inl banned ↦ rw banned (λ h. cc)
  | inr free ↦ rw free (elim (Bool-cases (spend 1 (clock 1) a.global_bucket).0) [
    | inl granted ↦ rw granted (
        charge_entry-BanSet clock source o
          (record a { global_bucket = (spend 1 (clock 1) a.global_bucket).1 }))
    | inr refused ↦ rw refused (λ h. cc)
  ])
]

allow-BanSet :
    (clock : ℕ → ℕ) (source : Text) (a : UdpAdmission)
    → BanSet a.source_ban_seconds (clock 0) source (allow clock source a)
unfolding allow
allow-BanSet clock source a h =
    let swept = sweep (clock 0) a in
    let (s, found, ban) = decide-BanSet clock source (get source swept.sources) swept h in
    (s, found, ban ∙ ap (λ (t : ℕ). clock 0 + seconds t) (ban_seconds-sweep (clock 0) a))

-- When `allow` answers that a ban starts, a call for the same source on the table that it left,
-- until the ban's seconds have passed since the first reading of that call, answers
-- `source_banned`.
pub banned_after_start :
    (clock later : ℕ → ℕ) (source : Text) (a : UdpAdmission)
    → (allow clock source a).0 ≡ source_ban_started
    → later 0 < clock 0 + seconds a.source_ban_seconds
    → (allow later source (allow clock source a).1).0 ≡ source_banned
banned_after_start clock later source a h until =
    let (s, found, ban) = allow-BanSet clock source a h in
    ap (λ (r : UdpAdmissionDecision × UdpAdmission). r.0)
      (allow_banned later source (allow clock source a).1 found (rw ban until)).0
