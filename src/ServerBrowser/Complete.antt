-- ===== src/ServerBrowser/Complete.antt =====
-- No server that a client should be told of is left out.
use mathlib.Core.List.{Memᴰ}
use mathlib.Core.List.Memᴰ.{head, tail}
use fruitspy.Prelude.{
  Text, ℕ, ◌≡◌, refl, sym, subst, ap, Bool, true, false, Option, none, some, List, [], ◌∷◌, ◌++◌,
  text, length, length-append, take, keep, All, if-elim, ◌==◌, nat_eq, list_eq, arith, Bool-cases,
  inl, inr,
}
use fruitspy.Dict.{Dict, get, values, retain}
use fruitspy.State.{Address, address_eq, ReportedServer, ServerState}
use fruitspy.State.Expiry.{keeps_server}
use fruitspy.State.Expiry.Kept.{servers-expire}
use fruitspy.State.Servers.{
  active_servers, insert_sorted, sort_servers, precedes, is_active, is_accepted_game,
}
use fruitspy.ServerBrowser.{
  TextOps, ServerBrowser, listed_servers, for_query, is_listed, is_open, key_or, holds_clause,
  hold_clauses, filter_clauses, matches_filter, has_game, has_room_for,
}
use fruitspy.ServerBrowser.Offered.{IsOffered, HasRoom, MeetsClause, MeetsFilter}

module _ {A : Type 0} (p : A → Bool) (x : A) (passed : p x ≡ true) where
  keep-Mem : (xs : List A) → Memᴰ x xs → Memᴰ x (keep p xs)
  keep-Mem [] there = elim there [ ]
  keep-Mem (y ∷ xs) (head same) =
      if-elim (Memᴰ x) (p y) (λ _. head same)
        (λ failed. absurd (ground (arith, failed, passed, ap p same)))
  keep-Mem (y ∷ xs) (tail later) =
      if-elim (Memᴰ x) (p y) (λ _. tail (keep-Mem xs later)) (λ _. keep-Mem xs later)

  retain-Mem : {K : Type 0} (d : Dict K A) → Memᴰ x (values d) → Memᴰ x (values (retain p d))
  unfolding values retain
  retain-Mem [] there = elim there [ ]
  retain-Mem {K = K} ((k, y) ∷ d) (head same) =
      if-elim (λ (kept : Dict K A). Memᴰ x (values kept)) (p y) (λ _. head same)
        (λ failed. absurd (ground (arith, failed, passed, ap p same)))
  retain-Mem {K = K} ((k, y) ∷ d) (tail later) =
      if-elim (λ (kept : Dict K A). Memᴰ x (values kept)) (p y) (λ _. tail (retain-Mem d later))
        (λ _. retain-Mem d later)

values-Mem :
    (a : Address) (server : ReportedServer) (d : Dict Address ReportedServer)
    → get a d ≡ some server
    → Memᴰ server (values d)
unfolding get values
values-Mem a server [] h = absurd (cc)
values-Mem a server ((b, other) ∷ d) h = elim (Bool-cases (b == a)) [
  | inl same ↦ head (ground (arith, h, same))
  | inr differs ↦ tail (values-Mem a server d (ground (arith, h, differs)))
]

insert_first-Mem : (x : ReportedServer) (xs : List ReportedServer) → Memᴰ x (insert_sorted x xs)
unfolding insert_sorted
insert_first-Mem x [] = head refl
insert_first-Mem x (y ∷ xs) =
    if-elim (Memᴰ x) (precedes x y) (λ _. head refl) (λ _. tail (insert_first-Mem x xs))

insert_sorted-Mem :
    (x y : ReportedServer) (xs : List ReportedServer) → Memᴰ x xs → Memᴰ x (insert_sorted y xs)
unfolding insert_sorted
insert_sorted-Mem x y [] there = elim there [ ]
insert_sorted-Mem x y (z ∷ xs) (head same) =
    if-elim (Memᴰ x) (precedes y z) (λ _. tail (head same)) (λ _. head same)
insert_sorted-Mem x y (z ∷ xs) (tail later) =
    if-elim (Memᴰ x) (precedes y z) (λ _. tail (tail later))
      (λ _. tail (insert_sorted-Mem x y xs later))

sort_servers-Mem :
    (x : ReportedServer) (xs : List ReportedServer) → Memᴰ x xs → Memᴰ x (sort_servers xs)
unfolding sort_servers
sort_servers-Mem x [] there = elim there [ ]
sort_servers-Mem x (y ∷ xs) (head same) =
    subst (λ z. Memᴰ x (insert_sorted z (sort_servers xs))) same
      (insert_first-Mem x (sort_servers xs))
sort_servers-Mem x (y ∷ xs) (tail later) =
    insert_sorted-Mem x y (sort_servers xs) (sort_servers-Mem x xs later)

MeetsClause-holds_clause :
    (clause : Option (Text × Text)) (server : ReportedServer)
    → MeetsClause clause server
    → holds_clause clause server ≡ true
unfolding holds_clause
MeetsClause-holds_clause none server h = refl
MeetsClause-holds_clause (some (key, expected)) server h =
    ((list_eq {A = ℕ}).beq_iff (key_or key [] server) expected).1 h

MeetsClause-hold_clauses :
    (ops : TextOps) (clauses : List Text) (server : ReportedServer)
    → All (λ clause. MeetsClause (ops.match_clause clause) server) clauses
    → hold_clauses ops clauses server ≡ true
unfolding hold_clauses
MeetsClause-hold_clauses ops [] server h = refl
MeetsClause-hold_clauses ops (clause ∷ rest) server h = ground (
  arith,
  MeetsClause-holds_clause (ops.match_clause clause) server h.0,
  MeetsClause-hold_clauses ops rest server h.1,
)

MeetsFilter-filter_clauses :
    (ops : TextOps) (clauses : Option (List Text)) (server : ReportedServer)
    → MeetsFilter ops clauses server
    → filter_clauses ops clauses server ≡ true
unfolding filter_clauses
MeetsFilter-filter_clauses ops none server h = refl
MeetsFilter-filter_clauses ops (some clauses) server h =
    MeetsClause-hold_clauses ops clauses server h

module _ (ops : TextOps) (st : ServerState) (now : ℕ) (query_game filter_text : Text)
    (server : ReportedServer) (h : IsOffered ops st now query_game filter_text server) where
  IsOffered-keeps_server : keeps_server st.reported_server_ttl now server ≡ true
  unfolding keeps_server
  IsOffered-keeps_server = ground (arith, h.seen)

  IsOffered-is_listed : is_listed ops query_game filter_text server ≡ true
  unfolding is_listed has_game matches_filter
  IsOffered-is_listed = rw h.game (
      ground (
        arith,
        (list_eq {A = ℕ}).beq_iff query_game query_game,
        MeetsFilter-filter_clauses ops (ops.clauses filter_text) server h.accepted,
      ))

  IsOffered-is_active :
      (game : Text) → is_accepted_game game (some query_game) ≡ true → is_active game server ≡ true
  unfolding is_active
  IsOffered-is_active game accepted = rw (h.registered, h.game) accepted

HasRoom-is_open :
    (ops : TextOps) (limit : ℕ) (server : ReportedServer)
    → HasRoom ops limit server
    → is_open ops limit server ≡ true
unfolding is_open has_room_for
HasRoom-is_open ops limit server h = rw (h.size, h.counted) (ground (arith, h.free))

length-take_some : {A : Type 0} (x : A) (xs : List A) → Memᴰ x xs → length (take 1 xs) ≡ 1
length-take_some x [] there = elim there [ ]
length-take_some x (y ∷ xs) there = refl

no_automatch : (game : Text) → (game == (game ++ text "am")) ≡ false
no_automatch game = elim (Bool-cases (game == (game ++ text "am"))) [
  | inl same ↦ absurd (
      omega (
        arith,
        length-append game (text "am"),
        ap length (((list_eq {A = ℕ}).beq_iff game (game ++ text "am")).0 same),
      ))
  | inr apart ↦ apart
]

module _ (ops : TextOps) (now : ℕ) (source : Address) (filter_text : Text) (s : ServerBrowser)
    (server : ReportedServer) (reported : get source s.state.reported_servers ≡ some server) where
  candidates-Mem :
      (query_game : Text)
      → is_accepted_game s.game_name (some query_game) ≡ true
      → IsOffered ops s.state now query_game filter_text server
      → Memᴰ server
          (keep (is_listed ops query_game filter_text) (active_servers now s.game_name s.state).0)
  unfolding active_servers
  candidates-Mem query_game accepted h =
      let kept =
        retain-Mem (keeps_server s.state.reported_server_ttl now) server
          (IsOffered-keeps_server ops s.state now query_game filter_text server h)
          s.state.reported_servers (values-Mem source server s.state.reported_servers reported) in
      keep-Mem (is_listed ops query_game filter_text) server
        (IsOffered-is_listed ops s.state now query_game filter_text server h) _
        (sort_servers-Mem server _ (
          keep-Mem (is_active s.game_name) server
            (IsOffered-is_active ops s.state now query_game filter_text server h s.game_name
              accepted)
            _
            (subst (λ (d : Dict Address ReportedServer). Memᴰ server (values d))
              (sym (servers-expire now s.state)) kept)))

  -- A reported server that was seen within its time to live, is registered, is of the service's game
  -- and meets every clause of the filter that is understood is among those that a client which asks
  -- for that game is told of.
  pub listed_servers-Mem :
      IsOffered ops s.state now s.game_name filter_text server
      → Memᴰ server (listed_servers ops now s.game_name filter_text s).0
  unfolding listed_servers for_query is_accepted_game
  listed_servers-Mem h =
      let game = s.game_name in
      rw (no_automatch game)
        (candidates-Mem game (ground (arith, (list_eq {A = ℕ}).beq_iff game game)) h)

  pub length-listed_servers :
      IsOffered ops s.state now (s.game_name ++ text "am") filter_text server
      → HasRoom ops s.max_players server
      → length (listed_servers ops now (s.game_name ++ text "am") filter_text s).0 ≡ 1
  unfolding listed_servers for_query is_accepted_game
  length-listed_servers h room =
      let automatch = s.game_name ++ text "am" in
      let same : (automatch == automatch) ≡ true =
        ((list_eq {A = ℕ}).beq_iff automatch automatch).1 refl in
      let accepted : is_accepted_game s.game_name (some automatch) ≡ true = ground (arith, same) in
      rw same (
        length-take_some server _ (
          keep-Mem (is_open ops s.max_players) server
            (HasRoom-is_open ops s.max_players server room) _
            (candidates-Mem automatch accepted h)))
