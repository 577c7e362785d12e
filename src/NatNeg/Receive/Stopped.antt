-- ===== src/NatNeg/Receive/Stopped.antt =====
-- The loss of the transport: every relay ends and every address is free.
use fruitspy.Prelude.{
  Bytes, ◌≡◌, refl, subst, false, Option, none, some, List, [], ◌∷◌, inl, inr, ◌==◌, Bool-cases,
  Option-cases,
}
use fruitspy.Dict.{Dict, get, keys}
use fruitspy.Dict.Laws.{get-remove, beq_refl}
use fruitspy.State.{Address, address_eq, bytes_eq}
use fruitspy.NatNeg.{NatNeg, RelaySession, count_metric}
use fruitspy.NatNeg.Relay.{finish_all, finish_relay, finish_found}
use fruitspy.NatNeg.Relay.Finish.{HasRelays, SameRelays-HasRelays, finish_all-HasRelays}
use fruitspy.NatNeg.Relay.Ends.{Among, finish_all-Shrunk}
use fruitspy.NatNeg.Receive.{connection_lost}

finish_found_gone :
    (c : Bytes) (o : Option RelaySession) (s : NatNeg)
    → get c s.relays ≡ o
    → get c (finish_found c o s).relays ≡ none
unfolding finish_found count_metric
finish_found_gone c none s g = g
finish_found_gone c (some r) s g = rw (get-remove, beq_refl c)

finish_all_gone :
    (cs : List Bytes) (s : NatNeg) (c : Bytes) → Among c cs → get c (finish_all cs s).relays ≡ none
unfolding finish_all finish_relay
finish_all_gone [] s c h = absurd h
finish_all_gone (d ∷ cs) s c (inl same) = (finish_all-Shrunk cs (finish_relay d s)).absent c (
    subst (λ (x : Bytes). get x (finish_relay d s).relays ≡ none) same
      (finish_found_gone d (get d s.relays) s refl))
finish_all_gone (d ∷ cs) s c (inr later) = finish_all_gone cs (finish_relay d s) c later

keys-Among :
    (c : Bytes) (d : Dict Bytes RelaySession) {r : RelaySession}
    → get c d ≡ some r
    → Among c (keys d)
unfolding get keys
keys-Among c [] h = cc
keys-Among c ((k, r) ∷ d) h = elim (Bool-cases (k == c)) [
  | inl same ↦ inl ((bytes_eq.beq_iff k c).0 same)
  | inr other ↦ inr (keys-Among c d (rw other at h))
]

all_absent : (d : Dict Bytes RelaySession) → ((c : Bytes) → get c d ≡ none) → d ≡ []
unfolding get
all_absent [] h = refl
all_absent ((k, r) ∷ d) h = let gone : some r ≡ none = rw (beq_refl k) at (h k) in cc

all_finished : (s : NatNeg) (c : Bytes) → get c (finish_all (keys s.relays) s).relays ≡ none
all_finished s c = elim (Option-cases (get c s.relays)) [
  | inl absent ↦ (finish_all-Shrunk (keys s.relays) s).absent c absent
  | inr (r, there) ↦ finish_all_gone (keys s.relays) s c (keys-Among c s.relays there)
]

-- Where the relay tables are linked, the loss of the transport leaves no relay and no
-- bound address, and the service is no longer connected.
pub connection_lost_lem :
    (s : NatNeg)
    → HasRelays s
    → ((connection_lost s).relays ≡ [])
      × ((a : Address) → get a (connection_lost s).relay_by_address ≡ none)
      × ((connection_lost s).connected ≡ false)
unfolding connection_lost
connection_lost_lem s h =
    let t = record s { fallbacks = []; relay_expirations = [] } in
    let h' =
      SameRelays-HasRelays s t
        (record { relays = refl; bindings = refl; config = refl; flag = refl }) h in
    let u = finish_all (keys s.relays) t in
    let linked = (finish_all-HasRelays (keys s.relays) t h').linked in
    (
      all_absent u.relays (all_finished t),
      λ a. elim (Option-cases (get a u.relay_by_address)) [
        | inl free ↦ free
        | inr ((c, i), at) ↦
            let (r, there, e, m, x) = linked.targets a c i at in
            let gone = all_finished t c in absurd (cc)
      ],
      refl,
    )
