-- ===== src/ServerBrowser/Request/Answer/Deciphered.antt =====
-- What a client that shares the challenges reads from the answer to a list request.
use fruitspy.Prelude.{
  Text, Bytes, ℕ, ◌≡◌, refl, true, some, List, ◌++◌, Result, ok, err, arith, ap, ◌∙◌, bind-elim,
  if-elim, subst,
}
use fruitspy.Crypto.EnctypeX
use fruitspy.Crypto.EnctypeX.Stream.{encrypt, decrypt, decrypt-encrypt}
use fruitspy.ServerBrowser.{TextOps, ServerBrowser, listed_servers}
use fruitspy.State.{ServerState}
use fruitspy.ServerBrowser.Request.{ListRequest, wants_groups}
use fruitspy.ServerBrowser.Request.Answer.{
  ListAnswer, Listing, encrypt_response, response_header, deck_of, listing, group_listing,
  answer_listing, answer_request, is_accepted,
}

-- The client makes its deck of the secret, its challenge and the server's, and deciphers the block.
pub record Deciphers (key salt server_challenge challenge body : Bytes) (response : Bytes)
    (cipher : List ℕ) : Type 0 where
  pub deck : List ℕ
  pub block : Bytes
  pub made : EnctypeX.create key challenge server_challenge ≡ ok (some deck)
  pub sent : response ≡ response_header salt server_challenge ++ block
  pub read : decrypt deck block ≡ (body, cipher)

encrypt_response-Deciphers :
    (key salt server_challenge challenge body response : Bytes) (cipher : List ℕ)
    → encrypt_response key salt server_challenge challenge body ≡ ok (response, cipher)
    → Deciphers key salt server_challenge challenge body response cipher
unfolding encrypt_response deck_of
encrypt_response-Deciphers key salt server_challenge challenge body response cipher h =
    bind-elim (EnctypeX.create key challenge server_challenge) _ _
      (λ made created sent.
        let (deck, is_deck) = EnctypeX.create-deck key challenge server_challenge made created in
        let sent_deck = rw is_deck at sent in
        record {
          deck = deck;
          block = (encrypt deck body).0;
          made = created ∙ ap ok is_deck;
          sent = ground (arith, sent_deck);
          read = decrypt-encrypt deck body ∙ ground (arith, sent_deck);
        })
      h

-- The service keeps its secret key.
secret_key-group_listing :
    (clock : ℕ → ℕ) (body : Result Bytes) (first : ServerState) (s : ServerBrowser)
    → (group_listing clock body first s).1.secret_key ≡ s.secret_key
unfolding group_listing
secret_key-group_listing clock (ok body) first s = refl
secret_key-group_listing clock (err e) first s = refl

secret_key-listing :
    (ops : TextOps) (clock : ℕ → ℕ) (source_ip : Text) (request : ListRequest) (s : ServerBrowser)
    → (listing ops clock source_ip request s).1.secret_key ≡ s.secret_key
unfolding listing listed_servers
secret_key-listing ops clock source_ip request s =
    if-elim (λ (r : Result Listing × ServerBrowser). r.1.secret_key ≡ s.secret_key)
      (wants_groups request) (λ _. secret_key-group_listing clock _ _ s) (λ _. refl)

-- The answer to a list request that is accepted.
pub record Answered (key salt server_challenge challenge : Bytes) (listed : Result Listing)
    (a : ListAnswer) : Type 0 where
  pub body : Bytes
  pub servers : ℕ
  pub response : Bytes
  pub cipher : List ℕ
  pub listed_body : listed ≡ ok (body, servers, a.subscription)
  pub has_response : a.response ≡ some response
  pub has_cipher : a.cipher ≡ some cipher
  pub deciphers : Deciphers key salt server_challenge challenge body response cipher

answer_listing-Answered :
    (ops : TextOps) (salt server_challenge : Bytes) (request : ListRequest)
    (listed : Result Listing) (s : ServerBrowser) (a : ListAnswer)
    → (answer_listing ops salt server_challenge request (listed, s)).0 ≡ ok a
    → Answered s.secret_key salt server_challenge request.challenge listed a
unfolding answer_listing
answer_listing-Answered ops salt server_challenge request (err e) s a h = absurd (cc)
answer_listing-Answered ops salt server_challenge request (ok (body, servers, subscription)) s a h =
    bind-elim (encrypt_response s.secret_key salt server_challenge request.challenge body) _ _
      (λ (sent : Bytes × List ℕ) made whole. record {
        body = body;
        servers = servers;
        response = sent.0;
        cipher = sent.1;
        listed_body = ground (arith, whole);
        has_response = ground (arith, whole);
        has_cipher = ground (arith, whole);
        deciphers =
            encrypt_response-Deciphers s.secret_key salt server_challenge request.challenge body
              sent.0 sent.1 made;
      })
      h

-- An accepted list request that is answered has the body of its listing, encrypted under the
-- service's secret: a client with the same secret and the two challenges makes a deck, which
-- deciphers the block behind the header to that body and is then the deck that the connection keeps.
pub answer_request-Answered :
    (ops : TextOps) (clock : ℕ → ℕ) (salt server_challenge : Bytes) (source_ip : Text)
    (request : ListRequest) (s : ServerBrowser) (a : ListAnswer)
    → is_accepted request s ≡ true
    → (answer_request ops clock salt server_challenge source_ip (ok request) s).0 ≡ ok a
    → Answered s.secret_key salt server_challenge request.challenge
        (listing ops clock source_ip request s).0
        a
unfolding answer_request
answer_request-Answered ops clock salt server_challenge source_ip request s a accepted h =
    let named =
      answer_listing-Answered ops salt server_challenge request
        (listing ops clock source_ip request s).0 (listing ops clock source_ip request s).1 a
        (rw accepted at h) in
    subst
      (λ key.
        Answered key salt server_challenge request.challenge
          (listing ops clock source_ip request s).0 a)
      (secret_key-listing ops clock source_ip request s) named
