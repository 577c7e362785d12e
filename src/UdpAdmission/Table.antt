-- ===== src/UdpAdmission/Table.antt =====
-- The table of sources stays within its limit, and holds no source twice.
use fruitspy.Prelude.{
  Text, leb_false→lt, list_eq, nat_eq, ℕ, ◌+◌, ◌≤◌, ◌≡◌, refl, false, Option, none, some, arith,
  length, leb, if◌then◌else◌, Bool-cases, inl, inr,
}
use fruitspy.Dict.{get, put}
use fruitspy.Dict.Laws.{
  length-put-le, length-put_old, length-retain-le, Unique, put-Unique, retain-Unique,
}
use fruitspy.Bucket.{spend}
use fruitspy.UdpAdmission.{
  UdpAdmission, UdpSource, allow, decide, charge, charge_new, charge_entry, expire, sweep, is_full,
  is_banned, create_admission, is_kept,
}

pub record IsBounded (a : UdpAdmission) : Type 0 where
  pub within : length a.sources ≤ a.max_sources
  pub unique : Unique a.sources

expire-IsBounded : (now : ℕ) (a : UdpAdmission) → IsBounded a → IsBounded (expire now a)
unfolding expire
expire-IsBounded now a h = record {
  within = omega (arith, length-retain-le (is_kept a.entry_ttl_seconds now) a.sources, h.within);
  unique = retain-Unique (is_kept a.entry_ttl_seconds now) a.sources h.unique;
}

sweep-IsBounded : (now : ℕ) (a : UdpAdmission) → IsBounded a → IsBounded (sweep now a)
unfolding sweep
sweep-IsBounded now a h = elim (Bool-cases (leb a.next_expiry_at now)) [
  | inl due ↦
      rw due (let k = expire-IsBounded now a h in record { within = k.within; unique = k.unique })
  | inr early ↦ rw early h
]

-- A write under `charge` keeps the bound if the write does.
charge-IsBounded :
    (clock : ℕ → ℕ) (source : Text) (s : UdpSource) (a : UdpAdmission)
    → ((v : UdpSource) → length (put source v a.sources) ≤ a.max_sources)
    → IsBounded a
    → IsBounded (charge clock source s a).1
unfolding charge
charge-IsBounded clock source s a fits h = elim (Bool-cases (spend 1 (clock 3) s.bucket).0) [
  | inl granted ↦
      rw (granted) (record { within = fits _; unique = put-Unique source _ a.sources h.unique })
  | inr refused ↦ rw refused (elim (Bool-cases (leb a.source_violation_burst (s.violations + 1))) [
    | inl ban ↦ rw ban (record { within = fits _; unique = put-Unique source _ a.sources h.unique })
    | inr warn ↦
        rw warn (record { within = fits _; unique = put-Unique source _ a.sources h.unique })
  ])
]

room_to_put :
    (source : Text) (a : UdpAdmission)
    → is_full a ≡ false
    → (v : UdpSource) → length (put source v a.sources) ≤ a.max_sources
unfolding is_full
room_to_put source a h v =
    omega (arith, length-put-le source v a.sources, leb_false→lt a.max_sources (length a.sources) h)

make_room : ℕ → UdpAdmission → UdpAdmission
make_room now a = if is_full a then expire now a else a

make_room-IsBounded : (now : ℕ) (a : UdpAdmission) → IsBounded a → IsBounded (make_room now a)
unfolding make_room
make_room-IsBounded now a h = elim (Bool-cases (is_full a)) [
  | inl full ↦ rw full (expire-IsBounded now a h)
  | inr room ↦ rw room h
]

charge_new-IsBounded :
    (clock : ℕ → ℕ) (source : Text) (a : UdpAdmission)
    → IsBounded a
    → IsBounded (charge_new clock source a).1
unfolding charge_new make_room
charge_new-IsBounded clock source a h =
    let r = make_room (clock 0) a in
    let k = make_room-IsBounded (clock 0) a h in
    elim (Bool-cases (is_full r)) [
      | inl full ↦ rw full k
      | inr room ↦ rw room (charge-IsBounded clock source _ r (room_to_put source r room) k)
    ]

charge_entry-IsBounded :
    (clock : ℕ → ℕ) (source : Text) (o : Option UdpSource) (a : UdpAdmission)
    → get source a.sources ≡ o
    → IsBounded a
    → IsBounded (charge_entry clock source o a).1
unfolding charge_entry
charge_entry-IsBounded clock source none a e h = charge_new-IsBounded clock source a h
charge_entry-IsBounded clock source (some s) a e h =
    charge-IsBounded clock source _ a
      (λ v. omega (arith, length-put_old source v a.sources e, h.within)) h

decide-IsBounded :
    (clock : ℕ → ℕ) (source : Text) (o : Option UdpSource) (a : UdpAdmission)
    → get source a.sources ≡ o
    → IsBounded a
    → IsBounded (decide clock source o a).1
unfolding decide
decide-IsBounded clock source o a e h = elim (Bool-cases (is_banned (clock 0) o)) [
  | inl banned ↦ rw banned h
  | inr free ↦
      let paid = record a { global_bucket = (spend 1 (clock 1) a.global_bucket).1 } in
      let k : IsBounded paid = record { within = h.within; unique = h.unique } in
      elim (Bool-cases (spend 1 (clock 1) a.global_bucket).0) [
        | inl granted ↦ rw (free, granted) (charge_entry-IsBounded clock source o paid e k)
        | inr refused ↦ rw (free, refused) k
      ]
]

-- Where the table has at most `max_sources` entries and each source at most once, a datagram of
-- any source, at any readings of the clock and whatever the decision, leaves it so.
pub allow-IsBounded :
    (clock : ℕ → ℕ) (source : Text) (a : UdpAdmission)
    → IsBounded a
    → IsBounded (allow clock source a).1
unfolding allow
allow-IsBounded clock source a h =
    let swept = sweep (clock 0) a in
    decide-IsBounded clock source (get source swept.sources) swept refl
      (sweep-IsBounded (clock 0) a h)

pub create_admission-IsBounded :
    (clock : ℕ → ℕ) (rate burst grate gburst m ttl v ban : ℕ)
    → IsBounded (create_admission clock rate burst grate gburst m ttl v ban)
unfolding create_admission
create_admission-IsBounded clock rate burst grate gburst m ttl v ban = record {
  within = omega arith;
  unique = tt;
}
