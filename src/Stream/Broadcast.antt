-- ===== src/Stream/Broadcast.antt =====
-- services/api/stream.py: who is left after a frame, and what ends the loop.
use airspace_conformance_pla.Base.{
  ℕ, ◌+◌, Bool, true, false, ◌&&◌, ◌||◌, not, ◌≡◌, ◌∙◌, refl, ap, Option, some, List, [], ◌∷◌, any,
  select, length, ◌==◌, ==_refl, ==_cases, nat_eq, inl, inr, arith,
}
use mathlib.Core.Path.{subst}
use airspace_conformance_pla.Stream.{
  Broadcaster, Sent, delivered, timed_out, cancelled, failed, closing, unregister, drop, after_send,
  send_all, broadcast_once, Round, asleep, reading, unread, sending, round, is_raised,
}

abbrev pub is_delivered : Sent → Bool
is_delivered delivered = true
is_delivered _ = false

abbrev pub is_closing : Sent → Bool
is_closing closing = true
is_closing _ = false

-- The client is registered.
abbrev pub has_client : ℕ → Broadcaster → Bool
has_client k b = any (λ c. c == k) b.clients

any-select_ne :
    (c k : ℕ) (cs : List ℕ)
    → any (λ x. x == k) (select (λ x. not (x == c)) cs) ≡ (not (c == k) && any (λ x. x == k) cs)
any-select_ne c k [] = ground arith
any-select_ne c k (x ∷ cs) = ground (arith, any-select_ne c k cs)

has_client-unregister :
    (c k : ℕ) (b : Broadcaster) → has_client k (unregister c b) ≡ (not (c == k) && has_client k b)
unfolding unregister
has_client-unregister c k b = any-select_ne c k b.clients

-- A client that one of the sends to it did not reach.
abbrev pub is_lost : (ℕ → Sent) → ℕ → List ℕ → Bool
is_lost send k cs = any (λ c. c == k && not (is_delivered (send c))) cs

-- What a loop over clients makes of a broadcaster, when no closing of a socket is cancelled.
abbrev IsSent : (ℕ → Sent) → List ℕ → Broadcaster → ℕ → Broadcaster × Option ℕ → Type 0
IsSent send cs b n (b', result) =
    ((k : ℕ) → has_client k b' ≡ (not (is_lost send k cs) && has_client k b))
    × (result ≡ some (n + length (select (λ c. is_delivered (send c)) cs)))

still_there : (q l h : Bool) → (not l && h) ≡ (not ((q && not true) || l) && h)
still_there q l h = ground arith

taken_off : (q l h : Bool) → (not l && (not q && h)) ≡ (not ((q && not false) || l) && h)
taken_off q l h = ground arith

-- A client that is taken off the list before the others get the frame.
off-IsSent :
    (send : ℕ → Sent) (c : ℕ) (cs : List ℕ) (b b' : Broadcaster) (n : ℕ)
    → is_delivered (send c) ≡ false
    → ((k : ℕ) → has_client k b' ≡ (not (c == k) && has_client k b))
    → ((b : Broadcaster) (n : ℕ) → IsSent send cs b n (send_all send cs b n))
    → IsSent send (c ∷ cs) b n (send_all send cs b' n)
off-IsSent send c cs b b' n lost off rest =
    let (left, count) = rest b' n in
    (
      λ k.
          left k
          ∙ ap (λ h. not (is_lost send k cs) && h) (off k)
          ∙ rw lost (taken_off (c == k) (is_lost send k cs) (has_client k b)),
      count ∙ rw lost refl,
    )

after_send-IsSent :
    (send : ℕ → Sent) (c : ℕ) (cs : List ℕ) (b : Broadcaster) (n : ℕ) (w : Sent)
    → send c ≡ w
    → is_closing w ≡ false
    → ((b : Broadcaster) (n : ℕ) → IsSent send cs b n (send_all send cs b n))
    → IsSent send (c ∷ cs) b n (after_send (send_all send cs) c w b n)
unfolding drop after_send
after_send-IsSent send c cs b n delivered e calm rest =
    let (left, count) = rest b (n + 1) in
    (
      λ k. left k ∙ rw e (still_there (c == k) (is_lost send k cs) (has_client k b)),
      count ∙ rw e (ap some (omega arith)),
    )
after_send-IsSent send c cs b n timed_out e calm rest =
    off-IsSent send c cs b (drop c b) n (ap is_delivered e)
      (λ k. has_client-unregister c k (record b { dropped = c ∷ b.dropped })) rest
after_send-IsSent send c cs b n cancelled e calm rest =
    off-IsSent send c cs b (drop c b) n (ap is_delivered e)
      (λ k. has_client-unregister c k (record b { dropped = c ∷ b.dropped })) rest
after_send-IsSent send c cs b n failed e calm rest =
    off-IsSent send c cs b (unregister c b) n (ap is_delivered e) (λ k. has_client-unregister c k b)
      rest
after_send-IsSent send c cs b n closing e calm rest = absurd (cc)

send_all-IsSent :
    (send : ℕ → Sent) (cs : List ℕ) (b : Broadcaster) (n : ℕ)
    → any (λ c. is_closing (send c)) cs ≡ false
    → IsSent send cs b n (send_all send cs b n)
unfolding send_all
send_all-IsSent send [] b n calm = ((λ k. refl), ap some (omega arith))
send_all-IsSent send (c ∷ cs) b n calm =
    let (first, later) = neither (is_closing (send c)) (any (λ x. is_closing (send x)) cs) calm in
    after_send-IsSent send c cs b n (send c) refl first
      (λ b' n'. send_all-IsSent send cs b' n' later)
  where
    neither : (x y : Bool) → (x || y) ≡ false → (x ≡ false) × (y ≡ false)
    neither x y h = ground arith

is_lost_lem :
    (send : ℕ → Sent) (k : ℕ) (cs : List ℕ)
    → is_lost send k cs ≡ (any (λ c. c == k) cs && not (is_delivered (send k)))
is_lost_lem send k [] = refl
is_lost_lem send k (c ∷ cs) = elim (==_cases c k) [
  | inl same ↦
      subst
        (λ x.
          ((c == x && not (is_delivered (send c))) || is_lost send x cs)
          ≡ ((c == x || any (λ y. y == x) cs) && not (is_delivered (send x))))
        same
        (rw (is_lost_lem send c cs, ==_refl c)
          (absorbed (not (is_delivered (send c))) (any (λ y. y == c) cs)))
  | inr other ↦ rw other (is_lost_lem send k cs)
]
  where
    absorbed : (d a : Bool) → ((true && d) || (a && d)) ≡ ((true || a) && d)
    absorbed d a = ground arith

reached : (a d : Bool) → (not (a && not d) && a) ≡ (a && d)
reached a d = ground arith

-- If no closing of a socket is cancelled: a frame raises nothing, however the sends turn out; the
-- clients left are exactly those it was delivered to, and it returns how many deliveries it made.
pub broadcast_once-IsSent :
    (send : ℕ → Sent) (b : Broadcaster)
    → any (λ c. is_closing (send c)) b.clients ≡ false
    → let (b', result) = broadcast_once send b in
      ((k : ℕ) → has_client k b' ≡ (has_client k b && is_delivered (send k)))
      × (result ≡ some (length (select (λ c. is_delivered (send c)) b.clients)))
unfolding broadcast_once
broadcast_once-IsSent send b calm =
    let (left, count) = send_all-IsSent send b.clients b 0 calm in
    (
      λ k.
          left k
          ∙ ap (λ l. not l && has_client k b) (is_lost_lem send k b.clients)
          ∙ reached (has_client k b) (is_delivered (send k)),
      count ∙ ap some (omega arith),
    )

after_send-raised :
    (rest : Broadcaster → ℕ → Broadcaster × Option ℕ) (c : ℕ) (w : Sent) (b : Broadcaster) (n : ℕ)
    (x : Bool)
    → ((b : Broadcaster) (n : ℕ) → is_raised (rest b n).1 ≡ x)
    → is_raised (after_send rest c w b n).1 ≡ (is_closing w || x)
unfolding after_send
after_send-raised rest c delivered b n x h = h b (n + 1)
after_send-raised rest c timed_out b n x h = h (drop c b) n
after_send-raised rest c cancelled b n x h = h (drop c b) n
after_send-raised rest c failed b n x h = h (unregister c b) n
after_send-raised rest c closing b n x h = refl

send_all-raised :
    (send : ℕ → Sent) (cs : List ℕ) (b : Broadcaster) (n : ℕ)
    → is_raised (send_all send cs b n).1 ≡ any (λ c. is_closing (send c)) cs
unfolding send_all
send_all-raised send [] b n = refl
send_all-raised send (c ∷ cs) b n =
    after_send-raised (send_all send cs) c (send c) b n (any (λ x. is_closing (send x)) cs)
      (send_all-raised send cs)

-- Whether a round ends the loop: a cancellation does in the sleep, in the read of a snapshot that
-- someone watches, and in the closing of a socket.
abbrev pub ends : Round → Broadcaster → Bool
ends asleep b = true
ends reading b = any (λ c. true) b.clients
ends unread b = false
ends (sending send) b = any (λ c. is_closing (send c)) b.clients

-- A round ends the loop exactly if it is cancelled in its sleep, in the read of a snapshot that
-- someone watches, or in the closing of a socket. A round that is cancelled while it sends a
-- frame goes on.
pub round-ends : (r : Round) (b : Broadcaster) → (round r b).1 ≡ ends r b
unfolding round broadcast_once
round-ends asleep b = refl
round-ends reading b = refl
round-ends unread b = refl
round-ends (sending send) b = send_all-raised send b.clients b 0
