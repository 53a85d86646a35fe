-- ===== src/Stream.antt =====
-- services/api/stream.py: `AirspaceBroadcaster`. A client is the number of its connection. What a socket
-- does with a frame, and where a cancellation finds the task, are given.
pub mod Broadcast
mod Tests
use airspace_conformance_pla.Base.{
  ℕ, ◌+◌, ◌-◌, String, Bool, true, false, not, Option, none, some, List, [], ◌∷◌, any, select, ◌==◌,
  nat_eq, or_else, if◌then◌else◌,
}
use Prim.Native.String.{compare}
use Prim.Native.Nat.{Ordering}
use airspace_conformance_pla.Contracts.{Timestamp, TrackUpdate, Alert}
use airspace_conformance_pla.Stores.{Redis, Json}
use airspace_conformance_pla.Stores.LiveTracks.{live}
use airspace_conformance_pla.Stores.LiveAlerts.{active}

-- `StreamFrame`, without the constant `live_window_s`.
pub record StreamFrame (F : Type 0) : Type 0 where
  pub generated_at : Timestamp
  pub tracks : List (TrackUpdate F)
  pub alerts : List (Alert F)

module _ {F : Type 0} where
  -- `t.callsign or t.icao24`
  abbrev pub sort_key : TrackUpdate F → String
  unfolding or_else
  sort_key t = or_else t.callsign t.icao24

  abbrev pub put_by : Ordering → List (TrackUpdate F) → List (TrackUpdate F) → List (TrackUpdate F)
  put_by Ordering.lt first later = first
  put_by _ first later = later

  -- A stable sort: a track goes behind those whose key is not greater.
  abbrev pub put_track : TrackUpdate F → List (TrackUpdate F) → List (TrackUpdate F)
  put_track t [] = t ∷ []
  put_track t (x ∷ xs) =
      put_by (compare (sort_key t) (sort_key x)) (t ∷ x ∷ xs) (x ∷ put_track t xs)

  abbrev pub sort_tracks : List (TrackUpdate F) → List (TrackUpdate F) → List (TrackUpdate F)
  sort_tracks done [] = done
  sort_tracks done (t ∷ ts) = sort_tracks (put_track t done) ts

module _ {F P Q R : Type 0} ⦃tracks_redis : Redis P R⦄ ⦃alerts_redis : Redis Q R⦄
    (track_json : Json P (TrackUpdate F)) (alert_json : Json Q (Alert F)) where
  abbrev pub with_alerts :
      Timestamp → List (TrackUpdate F) → Option (R × List (Alert F)) → Option (R × StreamFrame F)
  with_alerts now tracks none = none
  with_alerts now tracks (some (r, alerts)) =
      some (r, record { generated_at = now; tracks = sort_tracks [] tracks; alerts = alerts })

  abbrev pub with_tracks :
      Timestamp → Option (R × List (TrackUpdate F)) → Option (R × StreamFrame F)
  unfolding active
  with_tracks now none = none
  with_tracks now (some (r, tracks)) = with_alerts now tracks (active alert_json r)

  -- `none` where an entry of a store cannot be read, which raises. Times are since the epoch.
  unfoldable pub snapshot : ℕ → Timestamp → R → Option (R × StreamFrame F)
  unfolding live with_tracks
  snapshot window now r = with_tracks now (live track_json (some (now - window)) r)

-- `dropped` has, for each frame that a client was too slow for, the client.
pub record Broadcaster : Type 0 where
  pub clients : List ℕ
  pub dropped : List ℕ

-- What becomes of a frame for a client: it is sent; the send takes too long; the task is cancelled
-- while it sends; the socket raises; or the send takes too long or is cancelled, and the task is
-- cancelled while it closes the socket.
pub data Sent : Type 0 where
  delivered timed_out cancelled failed closing : Sent

unfoldable pub unregister : ℕ → Broadcaster → Broadcaster
unregister client b = record b { clients = select (λ c. not (c == client)) b.clients }

-- `client.dropped += 1` and `unregister`.
unfoldable pub drop : ℕ → Broadcaster → Broadcaster
unfolding unregister
drop client b = unregister client (record b { dropped = client ∷ b.dropped })

-- The loop of `broadcast_once` from one client on, and what it returns: `none` where it raises
-- `CancelledError`.
abbrev pub after_send :
    (Broadcaster → ℕ → Broadcaster × Option ℕ) → ℕ → Sent → Broadcaster → ℕ → Broadcaster × Option ℕ
unfolding unregister drop
after_send rest client delivered b n = rest b (n + 1)
after_send rest client timed_out b n = rest (drop client b) n
after_send rest client cancelled b n = rest (drop client b) n
after_send rest client failed b n = rest (unregister client b) n
after_send rest client closing b n = (drop client b, none)

unfoldable pub send_all : (ℕ → Sent) → List ℕ → Broadcaster → ℕ → Broadcaster × Option ℕ
unfolding after_send
send_all send [] b n = (b, some n)
send_all send (c ∷ cs) b n = after_send (send_all send cs) c (send c) b n

-- Once the snapshot is there.
unfoldable pub broadcast_once : (ℕ → Sent) → Broadcaster → Broadcaster × Option ℕ
unfolding send_all
broadcast_once send b = send_all send b.clients b 0

-- What happens to one round of `_broadcast_forever`: it is cancelled in its sleep; it is cancelled
-- while it reads the snapshot; the snapshot raises; or the frame is sent.
pub data Round : Type 0 where
  asleep reading unread : Round
  sending : (ℕ → Sent) → Round

abbrev pub is_raised : Option ℕ → Bool
is_raised none = true
is_raised (some n) = false

-- One round, which reads no snapshot if nobody is there to see it: the broadcaster, and whether the loop has ended.
unfoldable pub round : Round → Broadcaster → Broadcaster × Bool
unfolding broadcast_once
round asleep b = (b, true)
round reading b = (b, any (λ c. true) b.clients)
round unread b = (b, false)
round (sending send) b = let (b', n) = broadcast_once send b in (b', is_raised n)
