-- ===== src/Stores/Effects.antt =====
-- The steps of the tracker service (services/track/runner.py) carried out on the two stores of storage/stores.py.
use airspace_conformance_pla.Base.{
  ℕ, String, ◌≡◌, refl, Option, none, some, List, [], ◌∷◌, any, ◌==◌, string_eq, if◌then◌else◌,
}
use airspace_conformance_pla.Contracts.{TrackUpdate}
use airspace_conformance_pla.TrackRunner.{
  Effect, sent, recorded, lost, shown, forgotten, TrackRunner, Step, publish_all,
}
use airspace_conformance_pla.TrackRunner as TrackRunner
use airspace_conformance_pla.Stores.{Redis, IsRedis, Json}
use airspace_conformance_pla.Stores.LiveTracks.{publish, forget, held, last_about}
use airspace_conformance_pla.Stores.History.{Database, IsDatabase, record_updates}

module _ {F P D R : Type 0} ⦃db : Database F D⦄ ⦃redis : Redis P R⦄ (json : Json P (TrackUpdate F))
    (ttl : ℕ) where
  abbrev pub with_store : R → Option D → Option (D × R)
  with_store r none = none
  with_store r (some d) = some (d, r)

  -- One effect on the database and on Redis; `none` where it raises.
  unfoldable pub execute : Effect F → D × R → Option (D × R)
  unfolding record_updates publish forget
  execute (sent u) (d, r) = some (d, r)
  execute (lost us) (d, r) = some (d, r)
  execute (recorded us) (d, r) = with_store r (record_updates us d)
  execute (shown us) (d, r) = some (d, publish json ttl us r)
  execute (forgotten ids) (d, r) = some (d, forget P ids r)

  abbrev pub then_all : (D × R → Option (D × R)) → Option (D × R) → Option (D × R)
  then_all rest none = none
  then_all rest (some s) = rest s

  unfoldable pub execute_all : List (Effect F) → D × R → Option (D × R)
  unfolding execute
  execute_all [] s = some s
  execute_all (e ∷ es) s = then_all (execute_all es) (execute e s)

module _ {F : Type 0} where
  -- What an effect leaves of a track in the live picture.
  abbrev pub left_by : String → Effect F → Option (TrackUpdate F) → Option (TrackUpdate F)
  left_by k (sent u) o = o
  left_by k (recorded us) o = o
  left_by k (lost us) o = o
  left_by k (shown us) o = last_about k us o
  left_by k (forgotten ids) o = if any (λ i. i == k) ids then none else o

  abbrev pub left_by_all :
      String → List (Effect F) → Option (TrackUpdate F) → Option (TrackUpdate F)
  left_by_all k [] o = o
  left_by_all k (e ∷ es) o = left_by_all k es (left_by k e o)

  left_by_all-publish_all :
      {S : Type 0} (k : String) (us : List (TrackUpdate F)) (r : TrackRunner F S)
      (o : Option (TrackUpdate F))
      → left_by_all k (publish_all us r).1 o ≡ o
  unfolding publish_all TrackRunner.publish
  left_by_all-publish_all k [] r o = refl
  left_by_all-publish_all k (u ∷ us) r o =
      left_by_all-publish_all k us (TrackRunner.publish u r).0 o

module _ {F P D R : Type 0} ⦃db : Database F D⦄ ⦃redis : Redis P R⦄ (json : Json P (TrackUpdate F))
    (ttl : ℕ) (tables : IsDatabase F D) (laws : IsRedis P R) where
  -- That effects can be carried out, and what the live picture is then.
  abbrev pub IsExecuted : List (Effect F) → D × R → Type 0
  IsExecuted es (d, r) =
      (s : D × R) × (execute_all json ttl es (d, r) ≡ some s)
      × ((k : String) → held json k s.1 ≡ left_by_all k es (held json k r))
