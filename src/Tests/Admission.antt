-- ===== src/Tests/Admission.antt =====
-- Admission by rate, ban and number of connections; expiry, addresses and draining.
use fruitspy.Prelude.{
  Text, Bytes, ◌+◌, ◌-◌, ◌*◌, ◌<◌, ◌≤◌, ◌≡◌, refl, sym, subst, true, false, some, [], ◌∷◌, text,
  arith, nat_eq, list_eq,
}
use fruitspy.Clock.{second, seconds}
use fruitspy.Dict.{Dict, get, put, retain}
use fruitspy.Dict.Laws.{Unique}
use fruitspy.Bucket.{TokenBucket, spend, refill}
use fruitspy.Bucket.Rate.{Calls, InOrder, granted, run, granted_bound}
use fruitspy.UdpAdmission
use fruitspy.UdpAdmission.{
  UdpAdmission, create_admission, source_banned, source_ban_started, sweep, decide, charge_entry,
  charge_new, charge, is_banned, is_full, UdpSource,
}
use fruitspy.UdpAdmission.Table.{IsBounded, allow-IsBounded, create_admission-IsBounded}
use fruitspy.UdpAdmission.Bans.{allow_banned, banned_after_start}
use fruitspy.ConnectionAdmission
use fruitspy.ConnectionAdmission.Counts.{
  IsConsistent, create-IsConsistent, acquire-IsConsistent, release-IsConsistent, release-acquire,
}
use fruitspy.Drain.{is_draining, request}
use fruitspy.Drain
use fruitspy.Drain.Once.{request_once}
use fruitspy.State.{NatSession, ReportedServer, Address, address_eq, bytes_eq}
use fruitspy.State.Expiry.{expire}
use fruitspy.State.Expiry.Kept.{expire_exact, Left}
use fruitspy.Tests.Sessions.{at_second, no_servers, two_peers, two_peers-HasSessions}

abbrev bucket : TokenBucket
bucket = fruitspy.Bucket.create 2 5 0

abbrev calls : Calls
calls = (3, second) ∷ (4, 2 * second) ∷ (5, 3 * second) ∷ []

in_order : InOrder bucket.updated_at calls (4 * second)
unfolding fruitspy.Bucket.create
in_order = (omega arith, (omega arith, (omega arith, omega arith)))

granted_bound_example :
    granted bucket calls * second + (run bucket calls).tokens
    ≤ bucket.tokens + (4 * second - bucket.updated_at) * bucket.rate_per_second
granted_bound_example = granted_bound bucket calls (4 * second) in_order

abbrev host : Text
host = text "192.0.2.9"

-- no tokens for a source, and a ban at its first violation
abbrev strict : UdpAdmission
strict = create_admission (at_second 0) 0 0 500 1000 100 60 1 30

abbrev after_ban : UdpAdmission
after_ban = (fruitspy.UdpAdmission.allow (at_second 1) host strict).1

starts_ban : (fruitspy.UdpAdmission.allow (at_second 1) host strict).0 ≡ source_ban_started
unfolding fruitspy.UdpAdmission.allow create_admission sweep decide charge_entry charge_new charge
    is_banned is_full spend refill fruitspy.Bucket.create get put retain
starts_ban = refl

still_banned : 20 * second < second + seconds strict.source_ban_seconds
unfolding create_admission
still_banned = omega arith

banned_after_start_example :
    (fruitspy.UdpAdmission.allow (at_second 20) host after_ban).0 ≡ source_banned
banned_after_start_example =
    banned_after_start (at_second 1) (at_second 20) host strict starts_ban still_banned

allow-IsBounded_example : IsBounded (fruitspy.UdpAdmission.allow (at_second 1) host strict).1
allow-IsBounded_example =
    allow-IsBounded (at_second 1) host strict
      (create_admission-IsBounded (at_second 0) 0 0 500 1000 100 60 1 30)

abbrev banned_entry : UdpSource
banned_entry = record {
  bucket = fruitspy.Bucket.create 0 0 second;
  last_seen = second;
  violations = 0;
  banned_until = 31 * second;
}

entry_there : get host after_ban.sources ≡ some banned_entry
unfolding fruitspy.UdpAdmission.allow create_admission sweep decide charge_entry charge_new charge
    is_banned is_full spend refill fruitspy.Bucket.create get put retain
entry_there = refl

allow_banned_example :
    (fruitspy.UdpAdmission.allow (at_second 20) host after_ban
      ≡ (source_banned, sweep (20 * second) after_ban))
    × ((fruitspy.UdpAdmission.allow (at_second 20) host after_ban).1.global_bucket
        ≡ after_ban.global_bucket)
    × (get host (fruitspy.UdpAdmission.allow (at_second 20) host after_ban).1.sources
        ≡ some banned_entry)
allow_banned_example = allow_banned (at_second 20) host after_ban entry_there (omega arith)

abbrev connections : fruitspy.ConnectionAdmission.ConnectionAdmission
connections =
    (fruitspy.ConnectionAdmission.acquire host (fruitspy.ConnectionAdmission.create 10 2)).1

connections-IsConsistent : IsConsistent connections
connections-IsConsistent = acquire-IsConsistent host _ (create-IsConsistent 10 2)

acquire-IsConsistent_example :
    IsConsistent (fruitspy.ConnectionAdmission.acquire host connections).1
acquire-IsConsistent_example = acquire-IsConsistent host connections connections-IsConsistent

release-IsConsistent_example : IsConsistent (fruitspy.ConnectionAdmission.release host connections)
release-IsConsistent_example = release-IsConsistent host connections connections-IsConsistent

second_granted : (fruitspy.ConnectionAdmission.acquire host connections).0 ≡ true
unfolding fruitspy.ConnectionAdmission.acquire fruitspy.ConnectionAdmission.create
    fruitspy.ConnectionAdmission.count get put
second_granted = refl

release-acquire_example :
    fruitspy.ConnectionAdmission.release host
      (fruitspy.ConnectionAdmission.acquire host connections).1
    ≡ connections
release-acquire_example = release-acquire host connections connections-IsConsistent second_granted

expire_exact_example :
    ((address : Address)
      → Left two_peers.reported_server_ttl
          (at_second 40 0)
          (λ (server : ReportedServer). server.last_seen)
          (get address two_peers.reported_servers)
          (get address (expire (at_second 40 0) two_peers).1.reported_servers))
    × ((cookie : Bytes)
        → Left two_peers.nat_session_ttl
            (at_second 40 0)
            (λ (session : NatSession). session.last_seen)
            (get cookie two_peers.nat_sessions)
            (get cookie (expire (at_second 40 0) two_peers).1.nat_sessions))
expire_exact_example =
    expire_exact (at_second 40 0) two_peers
      (subst (λ (d : Dict Address ReportedServer). Unique d) (sym no_servers) tt)
      two_peers-HasSessions.one_each

request_once_example :
    (is_draining (request (at_second 1 0) fruitspy.Drain.create []).1 ≡ true)
    × (request
          (at_second 2 0)
          (request (at_second 1 0) fruitspy.Drain.create []).1
          (request (at_second 1 0) fruitspy.Drain.create []).2
        ≡ (
          false,
          (request (at_second 1 0) fruitspy.Drain.create []).1,
          (request (at_second 1 0) fruitspy.Drain.create []).2,
        ))
request_once_example = request_once (at_second 1 0) (at_second 2 0) fruitspy.Drain.create []
