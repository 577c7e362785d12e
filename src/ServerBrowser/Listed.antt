-- ===== src/ServerBrowser/Listed.antt =====
-- Which servers a client is told of.
use fruitspy.Prelude.{
  Text, ℕ, ◌≤◌, ◌≡◌, sym, subst, Bool, true, List, [], ◌∷◌, ◌++◌, text, length, take, keep, All,
  if-elim, ◌==◌, nat_eq, list_eq, arith, Bool-cases, inl, inr,
}
use fruitspy.Dict.{Dict, values}
use fruitspy.State.{Address, address_eq, ReportedServer, ServerState}
use fruitspy.State.Expiry.Kept.{servers-expire}
use fruitspy.State.Servers.{active_servers, insert_sorted, sort_servers, precedes, is_active}
use fruitspy.ServerBrowser.{TextOps, ServerBrowser, listed_servers, for_query, is_listed, is_open}
use fruitspy.ServerBrowser.Offered.{
  Fresh, IsOffered, HasRoom, retained-Fresh, chosen-IsOffered, is_open-HasRoom,
}

-- What a test keeps has passed it, and has what all had.
keep-All {ℓ} :
    {A : Type 0} (P : A → Type ℓ) (p : A → Bool) (xs : List A)
    → All P xs
    → All (λ x. P x × (p x ≡ true)) (keep p xs)
keep-All P p [] h = tt
keep-All P p (x ∷ xs) h = elim (Bool-cases (p x)) [
  | inl passed ↦ rw passed ((h.0, passed), keep-All P p xs h.1)
  | inr failed ↦ rw failed (keep-All P p xs h.1)
]

take-All {ℓ} : {A : Type 0} (P : A → Type ℓ) (xs : List A) → All P xs → All P (take 1 xs)
take-All P [] h = tt
take-All P (x ∷ xs) h = (h.0, tt)

module _ {ℓ} (P : ReportedServer → Type ℓ) where
  insert_sorted-All :
      (server : ReportedServer) (xs : List ReportedServer)
      → P server
      → All P xs
      → All P (insert_sorted server xs)
  unfolding insert_sorted
  insert_sorted-All server [] p h = (p, tt)
  insert_sorted-All server (x ∷ xs) p h =
      if-elim (All P) (precedes server x) (λ _. (p, h))
        (λ _. (h.0, insert_sorted-All server xs p h.1))

  sort_servers-All : (xs : List ReportedServer) → All P xs → All P (sort_servers xs)
  unfolding sort_servers
  sort_servers-All [] h = tt
  sort_servers-All (x ∷ xs) h = insert_sorted-All x _ h.0 (sort_servers-All xs h.1)

module _ (ops : TextOps) (st : ServerState) (now : ℕ) (game query_game filter_text : Text) where
  abbrev Chosen : ReportedServer → Type 0
  Chosen server =
      (Fresh st now server × (is_active game server ≡ true))
      × (is_listed ops query_game filter_text server ≡ true)

  Chosen-All :
      (xs : List ReportedServer)
      → All Chosen xs
      → All (IsOffered ops st now query_game filter_text) xs
  Chosen-All [] h = tt
  Chosen-All (x ∷ xs) h = (
    chosen-IsOffered ops st now game query_game filter_text x h.0.0.0 h.0.0.1 h.0.1,
    Chosen-All xs h.1,
  )

  open-All :
      (limit : ℕ) (xs : List ReportedServer)
      → All Chosen xs
      → All (HasRoom ops limit) (keep (is_open ops limit) xs)
  open-All limit [] h = tt
  open-All limit (x ∷ xs) h =
      if-elim (All (HasRoom ops limit)) (is_open ops limit x)
        (λ room. (is_open-HasRoom ops limit x room, open-All limit xs h.1))
        (λ _. open-All limit xs h.1)

-- What holds of all holds of those that a test keeps.
kept-All {ℓ} :
    {A : Type 0} (P : A → Type ℓ) (p : A → Bool) (xs : List A) → All P xs → All P (keep p xs)
kept-All P p [] h = tt
kept-All P p (x ∷ xs) h =
    if-elim (All P) (p x) (λ _. (h.0, kept-All P p xs h.1)) (λ _. kept-All P p xs h.1)

length-take_one : {A : Type 0} (xs : List A) → length (take 1 xs) ≤ 1
length-take_one [] = omega arith
length-take_one (x ∷ xs) = omega arith

module _ (ops : TextOps) (now : ℕ) (filter_text : Text) (s : ServerBrowser) where
  candidates-Chosen :
      (query_game : Text)
      → All
          (Chosen ops s.state now s.game_name query_game filter_text)
          (keep (is_listed ops query_game filter_text) (active_servers now s.game_name s.state).0)
  unfolding active_servers
  candidates-Chosen query_game =
      keep-All (λ server. Fresh s.state now server × (is_active s.game_name server ≡ true))
        (is_listed ops query_game filter_text) _
        (sort_servers-All
          (λ server. Fresh s.state now server × (is_active s.game_name server ≡ true)) _
          (keep-All (Fresh s.state now) (is_active s.game_name) _ (
            subst (λ (d : Dict Address ReportedServer). All (Fresh s.state now) (values d))
              (sym (servers-expire now s.state))
              (retained-Fresh s.state now s.state.reported_servers))))

  listed-IsOffered :
      (query_game : Text)
      → All
          (IsOffered ops s.state now query_game filter_text)
          (listed_servers ops now query_game filter_text s).0
  unfolding listed_servers for_query
  listed-IsOffered query_game =
      let P = IsOffered ops s.state now query_game filter_text in
      let all =
        Chosen-All ops s.state now s.game_name query_game filter_text _
          (candidates-Chosen query_game) in
      if-elim (All P) (query_game == (s.game_name ++ text "am"))
        (λ _. take-All P _ (kept-All P (is_open ops s.max_players) _ all)) (λ _. all)

  automatch-HasRoom :
      All
        (HasRoom ops s.max_players)
        (listed_servers ops now (s.game_name ++ text "am") filter_text s).0
      × (length (listed_servers ops now (s.game_name ++ text "am") filter_text s).0 ≤ 1)
  unfolding listed_servers for_query
  automatch-HasRoom =
      let automatch = s.game_name ++ text "am" in
      if-elim (λ (xs : List ReportedServer). All (HasRoom ops s.max_players) xs × (length xs ≤ 1))
        (automatch == automatch)
        (λ _. (
          take-All (HasRoom ops s.max_players) _ (
              open-All ops s.state now s.game_name automatch filter_text s.max_players _
                (candidates-Chosen automatch)),
          length-take_one _,
        ))
        (λ other. absurd (ground (arith, other, (list_eq {A = ℕ}).beq_iff automatch automatch)))

-- Every server that a client is told of was seen within its time to live, is registered, is of the
-- queried game and meets every clause of the filter that is understood; on a query for automatch hosts
-- each is also of the game's size, with fewer players than that, and there is at most one.
pub listed_servers-IsOffered :
    (ops : TextOps) (now : ℕ) (query_game filter_text : Text) (s : ServerBrowser)
    → All
        (IsOffered ops s.state now query_game filter_text)
        (listed_servers ops now query_game filter_text s).0
      × All
          (HasRoom ops s.max_players)
          (listed_servers ops now (s.game_name ++ text "am") filter_text s).0
      × (length (listed_servers ops now (s.game_name ++ text "am") filter_text s).0 ≤ 1)
listed_servers-IsOffered ops now query_game filter_text s =
    let automatch = automatch-HasRoom ops now filter_text s in
    (listed-IsOffered ops now filter_text s query_game, automatch.0, automatch.1)
