-- ===== src/Waiting.antt =====
-- common/wait_for_kafka.py and storage/wait_for_schema.py: the containers that wait for the broker and
-- for the schema. The clock, the broker's client and the database are interfaces. Times are in
-- microseconds.
pub mod Ends
mod Tests
use airspace_conformance_pla.Base.{
  ℕ, zero, suc, ◌+◌, String, Bool, true, false, Option, none, some, List, [], ◌∷◌, leb, ◌==◌,
  string_eq, if◌then◌else◌,
}

-- `time.monotonic` and `asyncio.sleep`.
pub record Clock (W : Type 0) : Type 0 where
  pub monotonic : W → ℕ
  pub sleep : ℕ → W → W

-- The calls of `AIOKafkaAdminClient`: whether each comes back without an exception.
pub record Admin (W : Type 0) : Type 0 where
  pub start : W → Bool × W
  pub list_topics : W → Bool × W
  pub close : W → W

-- What the query of `alembic_version` comes to: a row, no row, a `SQLAlchemyError` or `OSError`, or
-- another exception.
pub data Answer : Type 0 where
  version : String → Answer
  empty unreachable crashed : Answer

pub record Engine (W : Type 0) : Type 0 where
  pub query : W → Answer × W
  pub dispose : W → W

-- What a poll tells the loop.
pub data Poll : Type 0 where
  ready unready raised : Poll

pub data Ending : Type 0 where
  came_up timed_out broke : Ending

-- `POLL_INTERVAL_S`, of both modules.
abbrev pub poll_interval : ℕ
poll_interval = 2000000

module _ {W : Type 0} ⦃clock : Clock W⦄ where
  -- What the loop does once it has polled.
  abbrev pub decide : (W → Option (Ending × W)) → ℕ → Poll × W → Option (Ending × W)
  decide again deadline (ready, w) = some (came_up, w)
  decide again deadline (raised, w) = some (broke, w)
  decide again deadline (unready, w) =
      if leb deadline (clock.monotonic w)
      then some (timed_out, w)
      else again (clock.sleep poll_interval w)

  -- The loop of `wait`; `none` where the fuel is spent.
  unfoldable pub wait_loop : ℕ → (W → Poll × W) → ℕ → W → Option (Ending × W)
  wait_loop zero poll deadline w = none
  wait_loop (suc n) poll deadline w = decide (λ v. wait_loop n poll deadline v) deadline (poll w)

  unfoldable pub wait : ℕ → (W → Poll × W) → ℕ → W → Option (Ending × W)
  unfolding wait_loop
  wait fuel poll timeout w = wait_loop fuel poll (clock.monotonic w + timeout) w

abbrev pub poll_of_bool : Bool → Poll
poll_of_bool true = ready
poll_of_bool false = unready

module _ {W : Type 0} ⦃admin : Admin W⦄ where
  abbrev pub then_list : Bool × W → Bool × W
  then_list (true, w) = admin.list_topics w
  then_list (false, w) = (false, w)

  unfoldable pub broker_is_up : W → Bool × W
  broker_is_up w = let (up, v) = then_list (admin.start w) in (up, admin.close v)

  abbrev pub poll_broker : W → Poll × W
  unfolding broker_is_up
  poll_broker w = let (up, v) = broker_is_up w in (poll_of_bool up, v)

-- `heads[0]` of the only head; `none` is the exit with a message.
unfoldable pub head_revision : List String → Option String
head_revision (head ∷ []) = some head
head_revision _ = none

-- `current == expected`.
abbrev pub poll_of_answer : String → Answer → Poll
poll_of_answer expected (version v) = poll_of_bool (v == expected)
poll_of_answer expected empty = unready
poll_of_answer expected unreachable = unready
poll_of_answer expected crashed = raised

module _ {W : Type 0} ⦃engine : Engine W⦄ where
  -- `applied_revision`, and the comparison.
  unfoldable pub poll_schema : String → W → Poll × W
  poll_schema expected w =
      let (answer, v) = engine.query w in (poll_of_answer expected answer, engine.dispose v)

-- The exit status: `none` where an exception ends the program.
abbrev pub exit_status : Ending → Option ℕ
exit_status came_up = some 0
exit_status timed_out = some 1
exit_status broke = none
