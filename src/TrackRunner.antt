-- ===== src/TrackRunner.antt =====
-- services/track/runner.py: `TrackRunner`. The lock makes each of its operations one step. What a step
-- sends to the broker and to the stores is the list of its effects; `Stores/Effects.antt` carries it out.
-- The gauges, the spans and the logs are left out.
pub mod History
pub mod Losses
pub mod Rebalance
pub mod Pruning
mod Tests
use airspace_conformance_pla.Base.{
  ℕ, ◌+◌, String, Bool, true, false, not, ◌||◌, Option, none, some, List, [], ◌∷◌, ◌++◌, map, foldl,
  length, leb, any, select, ◌==◌, nat_eq, string_eq, Dict, lookup, insert, delete, contains, keys,
  Float, if◌then◌else◌,
}
use airspace_conformance_pla.Contracts.{
  Timestamp, SurveillanceReport, TrackUpdate, TrackState, terminated,
}
use airspace_conformance_pla.Kalman.{Algebra}
use airspace_conformance_pla.Tracks.{track_id_for}
use airspace_conformance_pla.Estimator.{
  TrackEstimator, on_report, sweep, release, prune_terminated, known_addresses, state_differs,
}

-- What a step does to the world: `publisher.publish`, `history.record`, `live.publish`, `live.forget`.
-- A batch is lost where `history.record` raises on it: it has left the buffer.
pub data Effect (F : Type 0) : Type 0 where
  sent : TrackUpdate F → Effect F
  recorded : List (TrackUpdate F) → Effect F
  lost : List (TrackUpdate F) → Effect F
  shown : List (TrackUpdate F) → Effect F
  forgotten : List String → Effect F

-- How the stores take what a flush writes: both do, history raises, or the live picture raises.
pub data Write : Type 0 where
  taken unrecorded unshown : Write

-- Times of the event loop's clock are in microseconds, and `revoked` is a set.
pub record TrackRunner (F S : Type 0) : Type 0 where
  pub estimator : TrackEstimator F S
  pub batch_size : ℕ
  pub flush_interval : ℕ
  pub pending : List (TrackUpdate F)
  pub reports : ℕ
  pub published : ℕ
  pub terminated_count : ℕ
  pub released : ℕ
  pub last_flush : ℕ
  pub partition_of : Dict String ℕ
  pub revoked : List ℕ
  pub discarded : ℕ

-- A runner after a step, and the step's effects.
abbrev pub Step : Type 0 → Type 0 → Type 0
Step F S = TrackRunner F S × List (Effect F)

pub record TopicPartition : Type 0 where
  pub topic : String
  pub partition : ℕ

-- The partitions of the reports' topic.
unfoldable pub report_partitions : List TopicPartition → List ℕ
report_partitions tps =
    map (λ tp. tp.partition) (select (λ tp. tp.topic == "surveillance.reports.v1") tps)

abbrev pub is_member : ℕ → List ℕ → Bool
is_member p ps = any (λ q. q == p) ps

-- Ten minutes.
abbrev pub prune_after : ℕ
prune_after = 600000000

-- The aircraft whose reports arrive on the partitions.
abbrev pub addresses_on : List ℕ → Dict String ℕ → List String
unfolding keys
addresses_on partitions m = keys (select (λ p. is_member p.1 partitions) m)

module _ {F : Type 0} where
  abbrev pub not_excluded : List String → TrackUpdate F → Bool
  not_excluded exclude u = not (any (λ t. t == u.track_id) exclude)

  -- The live updates of a batch, if there are any.
  abbrev pub show : List (TrackUpdate F) → List (Effect F)
  show [] = []
  show (u ∷ us) = shown (u ∷ us) ∷ []

  abbrev pub write_batch : List String → List (TrackUpdate F) → List (Effect F)
  write_batch exclude [] = []
  write_batch exclude (u ∷ us) = recorded (u ∷ us) ∷ show (select (not_excluded exclude) (u ∷ us))

  abbrev pub is_empty : List (TrackUpdate F) → Bool
  is_empty [] = true
  is_empty (u ∷ us) = false

  -- Whether a flush of a batch returns. A batch that is empty is not written.
  abbrev pub returns : Write → List String → List (TrackUpdate F) → Bool
  returns taken exclude us = true
  returns unrecorded exclude us = is_empty us
  returns unshown exclude us = is_empty (select (not_excluded exclude) us)

  -- What a flush that raises has written.
  abbrev pub write_part : Write → List (TrackUpdate F) → List (Effect F)
  write_part taken us = []
  write_part unrecorded us = lost us ∷ []
  write_part unshown us = recorded us ∷ []

  abbrev pub has_ended : TrackUpdate F → Bool
  has_ended u = not (state_differs u.state terminated)

  -- `live.forget`, for the updates that say that their tracks have ended, if there are any.
  abbrev pub forget_ended : List (TrackUpdate F) → List (Effect F)
  forget_ended [] = []
  forget_ended (u ∷ us) = forgotten (map (λ w. w.track_id) (u ∷ us)) ∷ []

module _ {F S : Type 0} where
  -- `_flush`, which is over at `done`. Where a store raises, the buffer has been emptied already.
  unfoldable pub flush : Write → ℕ → List String → TrackRunner F S → Step F S
  flush write done exclude_from_live r =
      if returns write exclude_from_live r.pending
      then (record r { pending = []; last_flush = done }, write_batch exclude_from_live r.pending)
      else (record r { pending = [] }, write_part write r.pending)

  -- `release_partitions` past its first line.
  unfoldable pub give_up : Write → ℕ → List ℕ → TrackRunner F S → Step F S
  unfolding flush
  give_up write done [] r = (r, [])
  give_up write done (p ∷ ps) r =
      let addresses = addresses_on (p ∷ ps) r.partition_of in
      let exclude = map track_id_for addresses in
      let (s, effects) = flush write done exclude (record r { revoked = (p ∷ ps) ++ r.revoked }) in
      let (e, released) = release addresses s.estimator in
      let given_up = record s {
        estimator = e;
        partition_of = foldl (λ m icao24. delete icao24 m) s.partition_of addresses;
        released = s.released + released;
      } in
      if returns write exclude r.pending then (given_up, effects) else (s, effects)

  unfoldable pub release_partitions : Write → ℕ → List TopicPartition → TrackRunner F S → Step F S
  unfolding give_up report_partitions
  release_partitions write done tps r = give_up write done (report_partitions tps) r

  unfoldable pub claim_partitions : List TopicPartition → TrackRunner F S → TrackRunner F S
  unfolding report_partitions
  claim_partitions tps r =
      let partitions = report_partitions tps in
      record r { revoked = select (λ p. not (is_member p partitions)) r.revoked }

  -- `_publish`
  unfoldable pub publish : TrackUpdate F → TrackRunner F S → Step F S
  publish u r = (record r { published = r.published + 1 }, sent u ∷ [])

  unfoldable pub publish_all : List (TrackUpdate F) → TrackRunner F S → Step F S
  unfolding publish
  publish_all [] r = (r, [])
  publish_all (u ∷ us) r =
      let (s, effects) = publish u r in let (t, rest) = publish_all us s in (t, effects ++ rest)

  unfoldable pub forget_pruned : Timestamp → TrackRunner F S → TrackRunner F S
  unfolding known_addresses keys
  forget_pruned now r =
      let (e, _) = prune_terminated now prune_after r.estimator in
      let live = known_addresses e in
      let gone = select (λ a. not (any (λ k. k == a) live)) (keys r.partition_of) in
      record r {
        estimator = e;
        partition_of = foldl (λ m icao24. delete icao24 m) r.partition_of gone;
      }

  -- `sweep_now` past the sweep.
  unfoldable pub announce_sweep :
      Write → ℕ → Timestamp → List (TrackUpdate F) → TrackRunner F S → Step F S
  unfolding flush publish_all forget_pruned
  announce_sweep write done now [] r = (forget_pruned now r, [])
  announce_sweep write done now (u ∷ us) r =
      let changed = u ∷ us in
      let ended = select has_ended changed in
      let (s, effects) = publish_all changed r in
      let waiting = s.pending ++ changed in
      let (t, written) = flush write done [] (record s { pending = waiting }) in
      if returns write [] waiting
      then (
        forget_pruned now (record t { terminated_count = t.terminated_count + length ended }),
        effects ++ written ++ forget_ended ended,
      )
      else (t, effects ++ written)

module _ {F S : Type 0} ⦃float : Float F⦄ ⦃algebra : Algebra F S⦄ where
  -- `_handle`, at `now` on the loop's clock; a flush is over at `done`.
  unfoldable pub handle : Write → ℕ → ℕ → SurveillanceReport F → ℕ → TrackRunner F S → Step F S
  unfolding publish flush
  handle write now done report partition r =
      if is_member partition r.revoked
      then (record r { discarded = r.discarded + 1 }, [])
      else (let (e, u) = on_report report r.estimator in
          let (s, effects) = publish u (record r { reports = r.reports + 1; estimator = e }) in
          let t = record s { pending = s.pending ++ u ∷ [] } in
          if leb t.batch_size (length t.pending) || leb (t.last_flush + t.flush_interval) now
          then (let (t', written) = flush write done [] t in (t', effects ++ written))
          else (t, effects))

  -- The first line of the loop of `run`, which does not wait for the lock.
  unfoldable pub arrive : SurveillanceReport F → ℕ → TrackRunner F S → TrackRunner F S
  arrive report partition r = record r {
    partition_of = insert report.icao24 partition r.partition_of;
  }

  -- The body of that loop, if nothing comes between its two lines.
  unfoldable pub consume : Write → ℕ → ℕ → SurveillanceReport F → ℕ → TrackRunner F S → Step F S
  unfolding handle arrive
  consume write now done report partition r =
      handle write now done report partition (arrive report partition r)

  unfoldable pub sweep_now : Write → ℕ → Timestamp → TrackRunner F S → Step F S
  unfolding announce_sweep
  sweep_now write done now r =
      let (e, changed) = sweep now r.estimator in
      announce_sweep write done now changed (record r { estimator = e })
