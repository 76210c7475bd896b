-- ===== src/Server/Backoff.antt =====
-- The accept loop: how long it sleeps, and whom it starts.
use ftpserverlib.Prelude.{
  ℕ, zero, suc, ◌+◌, ◌*◌, ◌%◌, ◌^◌, ◌≤◌, List, [], ◌∷◌, none, some, ◌≡◌, refl, ◌⊎◌, inl, inr, arith,
  if◌then◌else◌, leb, All, Bool-cases, true, false, Bool, map, length, ap,
}
use mathlib.Core.Path.{subst}
use ftpserverlib.Session.{Settings, Client, new_client_handler}
use ftpserverlib.Server.Accept.{
  FtpServer, is_closed, AcceptError, Accepted, connection, refused, Served, AcceptAnswer, stops,
  retries, serve, client_arrival, handle_accept_error, next_delay, first_delay, max_delay,
}

-- The delay after so many temporary errors in a row: doubled with each, from 5 ms up to 1 s.
abbrev pub doubled : ℕ → ℕ
doubled n = if leb (first_delay * 2 ^ n) max_delay then first_delay * 2 ^ n else max_delay

unfoldable pub backoff : ℕ → ℕ → List ℕ
backoff from zero = []
backoff from (suc n) = doubled from ∷ backoff (suc from) n

two_to_suc : (n : ℕ) → 2 ^ suc n ≡ 2 * 2 ^ n
two_to_suc n = omega arith

pow_pos : (n : ℕ) → 1 ≤ 2 ^ n
pow_pos zero = omega arith
pow_pos (suc n) = let before = pow_pos n in let twice = two_to_suc n in omega arith

next_delay-doubled : (n : ℕ) → next_delay (doubled n) ≡ doubled (suc n)
unfolding next_delay
next_delay-doubled n =
    let twice = two_to_suc n in
    let some_delay = pow_pos n in
    elim (Bool-cases (leb (first_delay * 2 ^ n) max_delay)) [
      | inl y ↦ rw (y) (ground arith)
      | inr n ↦ rw (n) (ground arith)
    ]

-- An error after which Serve tries again.
abbrev pub IsTemporary : AcceptError → Type 0
IsTemporary e = (e.temporary ≡ true) × (is_closed e.op_error ≡ false)

handle_accept_error-IsTemporary :
    (e : AcceptError) (delay : ℕ) (server : FtpServer)
    → IsTemporary e
    → handle_accept_error e delay server ≡ (retries (next_delay delay), server)
unfolding handle_accept_error
handle_accept_error-IsTemporary e delay server p = ground arith

refused-backoff :
    (settings : Settings) (from delay : ℕ) (errors : List AcceptError) (server : FtpServer)
    → next_delay delay ≡ doubled from
    → All IsTemporary errors
    → (serve settings delay (map refused errors) server).delays ≡ backoff from (length errors)
unfolding serve backoff
refused-backoff settings from delay [] server next p = refl
refused-backoff settings from delay (e ∷ errors) server next (first, others) =
    let is = handle_accept_error-IsTemporary e delay server first in
    let later =
      refused-backoff settings (suc from) (doubled from) errors server (next_delay-doubled from)
        others in
    let same : (handle_accept_error e delay server).1 ≡ server = ap (λ x. x.1) is in
    rw (serve, is, next, same) (ap (◌∷◌ (doubled from)) later)

-- From a client on, the delays that the accept loop sleeps for the temporary errors that follow
-- double with each of them, from 5 ms up to 1 s, whatever it slept before. No error says that the listener is closed.
pub serve-backoff :
    (settings : Settings) (delay now : ℕ) (is_tls : Bool) (errors : List AcceptError)
    (server : FtpServer)
    → All IsTemporary errors
    → (serve settings delay (connection now is_tls ∷ map refused errors) server).delays
      ≡ backoff 0 (length errors)
unfolding serve next_delay
serve-backoff settings delay now is_tls errors server p =
    refused-backoff settings 0 0 errors _ refl p

abbrev pub IsDelay : ℕ → Type 0
IsDelay delay = (first_delay ≤ delay) × (delay ≤ max_delay)

next_delay-IsDelay : (delay : ℕ) → (delay ≡ 0) ⊎ IsDelay delay → IsDelay (next_delay delay)
unfolding next_delay
next_delay-IsDelay delay h = ground arith

-- One refusal, with what the loop does after it.
refused-IsDelay :
    (settings : Settings) (accepts : List Accepted) (server : FtpServer) (answer : AcceptAnswer)
    → ((delay : ℕ) → answer ≡ retries delay → IsDelay delay)
    → ((delay : ℕ) → IsDelay delay → All IsDelay (serve settings delay accepts server).delays)
    → All IsDelay
        (elim answer as (λ _. Served) [
          | stops r ↦ record { clients = []; delays = []; returned = some r; server_after = server }
          | retries delay ↦ record (serve settings delay accepts server) {
            delays = delay ∷ (serve settings delay accepts server).delays;
          }
        ]).delays
refused-IsDelay settings accepts server (stops r) h rest = tt
refused-IsDelay settings accepts server (retries delay) h rest =
    (h delay refl, rest delay (h delay refl))

accept_error-IsDelay :
    (e : AcceptError) (delay later : ℕ) (server : FtpServer)
    → (delay ≡ 0) ⊎ IsDelay delay
    → (handle_accept_error e delay server).0 ≡ retries later
    → IsDelay later
unfolding handle_accept_error
accept_error-IsDelay e delay later server h is_later =
    let next = next_delay-IsDelay delay h in ground arith

-- Every delay that the accept loop sleeps is at least 5 ms and at most 1 s, if the delay that it
-- starts with is 0 or within these bounds.
pub serve-IsDelay :
    (settings : Settings) (delay : ℕ) (accepts : List Accepted) (server : FtpServer)
    → (delay ≡ 0) ⊎ IsDelay delay
    → All IsDelay (serve settings delay accepts server).delays
unfolding serve
serve-IsDelay settings delay [] server h = tt
serve-IsDelay settings delay (connection now is_tls ∷ accepts) server h =
    serve-IsDelay settings 0 accepts _ (inl refl)
serve-IsDelay settings delay (refused e ∷ accepts) server h =
    refused-IsDelay settings accepts _ _ (λ later. accept_error-IsDelay e delay later server h)
      (λ later ok. serve-IsDelay settings later accepts _ (inr ok))

-- Clients in the order of their arrival: each gets the next number of a 32-bit counter, and starts
-- in the root directory, not logged in.
abbrev pub Numbered : ℕ → List Client → Type 0
Numbered counter [] = Unit
Numbered counter (c ∷ clients) =
    (c.id ≡ (counter + 1) % 2 ^ 32)
    × (c.path ≡ b'/' ∷ [])
    × (c.driver ≡ none)
    × Numbered ((counter + 1) % 2 ^ 32) clients

refused-Numbered :
    (settings : Settings) (accepts : List Accepted) (server : FtpServer) (answer : AcceptAnswer)
    (counter : ℕ)
    → ((delay : ℕ) → Numbered counter (serve settings delay accepts server).clients)
    → Numbered counter
        (elim answer as (λ _. Served) [
          | stops r ↦ record { clients = []; delays = []; returned = some r; server_after = server }
          | retries delay ↦ record (serve settings delay accepts server) {
            delays = delay ∷ (serve settings delay accepts server).delays;
          }
        ]).clients
refused-Numbered settings accepts server (stops r) counter rest = tt
refused-Numbered settings accepts server (retries delay) counter rest = rest delay

accept_error-counter :
    (e : AcceptError) (delay : ℕ) (server : FtpServer)
    → (handle_accept_error e delay server).1.client_counter ≡ server.client_counter
unfolding handle_accept_error
accept_error-counter e delay server = ground arith

-- The accept loop numbers the clients in the order of their arrival, whatever errors come between
-- them.
pub serve-Numbered :
    (settings : Settings) (delay : ℕ) (accepts : List Accepted) (server : FtpServer)
    → Numbered server.client_counter (serve settings delay accepts server).clients
unfolding serve client_arrival new_client_handler
serve-Numbered settings delay [] server = tt
serve-Numbered settings delay (connection now is_tls ∷ accepts) server =
    (refl, refl, refl, serve-Numbered settings 0 accepts _)
serve-Numbered settings delay (refused e ∷ accepts) server =
    refused-Numbered settings accepts _ _ server.client_counter (λ later.
      subst
        (λ n.
          Numbered n (serve settings later accepts (handle_accept_error e delay server).1).clients)
        (accept_error-counter e delay server)
        (serve-Numbered settings later accepts (handle_accept_error e delay server).1))
