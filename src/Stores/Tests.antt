-- ===== src/Stores/Tests.antt =====
-- A Redis server and a database of two tables, and the theorems about the stores at concrete inputs.
mod RedisServer
mod SqlTables
use airspace_conformance_pla.Base.{
  map, ℕ, ◌≤◌, ◌≡◌, refl, true, false, none, some, Option, String, List, [], ◌∷◌, lookup, insert,
  delete, string_eq, All, if◌then◌else◌, any, ◌==◌,
}
use airspace_conformance_pla.Base.Whole.{ℤ, pos, whole}
use airspace_conformance_pla.Contracts.{
  Alert, TrackUpdate, Timestamp, emergency_squawk, warning, simulator, new,
}
use airspace_conformance_pla.Samples.{
  flat, settings, mayday, quiet, no_conflicts, name, quiet-IsKeyed, events, still, busy,
}
use airspace_conformance_pla.Tracks.{track_id_for}
use airspace_conformance_pla.TrackRunner.{addresses_on, TrackRunner}
use airspace_conformance_pla.Alerts.History.{is_held}
use airspace_conformance_pla.Stores.{
  Json, is_some, IsReadable, prefixed, entries_of, is_indexed, expired_of,
}
use airspace_conformance_pla.Stores.LiveAlerts as LiveAlerts
use airspace_conformance_pla.Stores.LiveTracks as LiveTracks
use airspace_conformance_pla.Stores.LiveTracks.{
  publish, forget, live, last_about, publish-forget, live_lem,
}
use airspace_conformance_pla.Stores.LiveAlerts.{
  active, swept, active_lem, apply, apply_one, IsIndexed, apply-IsIndexed,
}
use airspace_conformance_pla.Stores.ReadModel.{serve, serve-shows}
use airspace_conformance_pla.Stores.History.{TrackRow, Database}
use airspace_conformance_pla.Stores.History.Recording.{record_twice, record-newest}
use airspace_conformance_pla.Stores.Tests.RedisServer.{Server, server, server-IsRedis}
use airspace_conformance_pla.Stores.Tests.SqlTables.{Tables, tables}

-- An encoding that leaves a message as it is.
abbrev plain : {A : Type 0} → Json A A
plain = record {
  dump = λ a. a;
  parse = λ a. some a;
  IsExact = λ a. Unit;
  parse-dump = λ a exact. refl;
}

abbrev alert_json : Json (Alert ℤ) (Alert ℤ)
alert_json = plain

abbrev track_json : Json (TrackUpdate ℤ) (TrackUpdate ℤ)
track_json = plain

abbrev no_alerts : Server (Alert ℤ)
no_alerts = record { strings = []; sets = [] }

abbrev no_tracks : Server (TrackUpdate ℤ)
no_tracks = record { strings = []; sets = [] }

abbrev no_rows : Tables ℤ
no_rows = record { tracks = []; points = [] }

serve-shows_example :
    let (r', store') =
      serve no_conflicts name flat settings alert_json 300 events (quiet, no_alerts) in
    is_some (LiveAlerts.held alert_json "emergency_squawk:trk-a" store')
    ≡ is_held (lookup "emergency_squawk:trk-a" r'.manager.active)
unfolding lookup
serve-shows_example =
    serve-shows no_conflicts name flat settings alert_json server-IsRedis 300 events quiet no_alerts
      "emergency_squawk:trk-a" quiet-IsKeyed refl (all_exact _)
  where
    all_exact : (alerts : List (Alert ℤ)) → All alert_json.IsExact alerts
    all_exact [] = tt
    all_exact (a ∷ alerts) = (tt, all_exact alerts)

-- An alert of an emergency.
abbrev distress : Alert ℤ
distress = record {
  alert_id = "id";
  alert_key = "emergency_squawk:trk-a";
  kind = emergency_squawk;
  severity = warning;
  state = new;
  raised_at = 100;
  updated_at = 100;
  track_ids = "trk-a" ∷ [];
  reason_codes = [];
  summary = "mayday";
  conflict = none;
  conformance = none;
  source = simulator;
  scenario_id = none;
}

-- A store with one alert, and with a key in the index whose entry has expired.
abbrev expired : Server (Alert ℤ)
expired = record { strings = []; sets = ("acp:alerts:active", ("gone", 110) ∷ []) ∷ [] }

abbrev one_alert : Server (Alert ℤ)
unfolding apply
one_alert = apply alert_json 300 (distress ∷ []) expired

expired-IsIndexed : IsIndexed (Alert ℤ) expired
unfolding lookup
expired-IsIndexed k there = absurd (cc)

readable : (o : Option (Alert ℤ)) → IsReadable alert_json o
readable none = tt
readable (some a) = (a, refl)

active_example :
    (active alert_json one_alert ≡ some (swept alert_json one_alert, distress ∷ []))
    × ((k : String)
        → is_indexed (Alert ℤ) "acp:alerts:active" k (swept alert_json one_alert)
          ≡ is_some (server.get (prefixed "acp:alert:" k) one_alert))
unfolding apply apply_one lookup insert delete one_alert
active_example =
    active_lem alert_json server-IsRedis one_alert
      (λ k. readable (server.get (prefixed "acp:alert:" k) one_alert))
      (apply-IsIndexed alert_json server-IsRedis 300 (distress ∷ []) expired expired-IsIndexed)

abbrev other : TrackUpdate ℤ
other = record mayday { track_id = "trk-b" }

-- Two updates about one track and one about another, which is then forgotten.
publish-forget_example :
    (LiveTracks.held track_json "trk-a" (
        forget (TrackUpdate ℤ) ("trk-b" ∷ []) (
          publish track_json 120
            (mayday ∷ other ∷ record mayday { updated_at = 130 } ∷ [])
            no_tracks))
      ≡ some (record mayday { updated_at = 130 }))
    × (false ≡ true
        → is_indexed (TrackUpdate ℤ) "acp:tracks:live" "trk-a" (
            forget (TrackUpdate ℤ) ("trk-b" ∷ []) (
              publish track_json 120
                (mayday ∷ other ∷ record mayday { updated_at = 130 } ∷ [])
                no_tracks))
          ≡ false)
unfolding lookup insert
publish-forget_example =
    publish-forget track_json server-IsRedis 120
      (mayday ∷ other ∷ record mayday { updated_at = 130 } ∷ []) ("trk-b" ∷ []) no_tracks "trk-a"
      (tt, (tt, (tt, tt)))

abbrev batch : List (TrackUpdate ℤ)
batch = mayday ∷ other ∷ record mayday { updated_at = 130; last_report_at = 90 } ∷ []

exact : (us : List (TrackUpdate ℤ)) → All track_json.IsExact us
exact [] = tt
exact (u ∷ us) = (tt, exact us)

abbrev holding : TrackRunner ℤ Unit
holding = record busy { pending = mayday ∷ [] }

abbrev excluded : List String
excluded = map track_id_for (addresses_on (4 ∷ []) holding.partition_of)
