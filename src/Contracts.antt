-- ===== src/Contracts.antt =====
-- common/contracts.py: the messages that travel on the topics. `F` is the type of floats. A
-- `datetime` is the number of microseconds since a fixed epoch, the resolution that Python gives it.
-- `schema_version`, which has one value, is left out.
use airspace_conformance_pla.Base.{ℕ, Bool, String, Option, List}

abbrev pub Timestamp : Type 0
Timestamp = ℕ

pub data DataSource : Type 0 where
  simulator : DataSource

pub record SurveillanceReport (F : Type 0) : Type 0 where
  pub report_id : String
  pub icao24 : String
  pub callsign : Option String
  pub observed_at : Timestamp
  pub lat : F
  pub lon : F
  pub altitude_baro_ft : Option F
  pub ground_speed_kt : Option F
  pub track_deg : Option F
  pub vertical_rate_fpm : Option F
  pub squawk : Option String
  pub on_ground : Bool
  pub source : DataSource
  pub scenario_id : Option String

pub data TrackState : Type 0 where
  initiating confirmed coasting terminated : TrackState

pub record TrackUpdate (F : Type 0) : Type 0 where
  pub track_id : String
  pub icao24 : String
  pub callsign : Option String
  pub updated_at : Timestamp
  pub last_report_at : Timestamp
  pub state : TrackState
  pub lat : F
  pub lon : F
  pub altitude_ft : F
  pub ground_speed_kt : F
  pub track_deg : F
  pub vertical_rate_fpm : F
  pub turn_rate_deg_s : F
  pub position_uncertainty_m : F
  pub update_count : ℕ
  pub innovation_nm : Option F
  pub velocity_uncertainty_kt : Option F
  pub altitude_uncertainty_ft : Option F
  pub vertical_rate_uncertainty_fpm : Option F
  pub squawk : Option String
  pub source : DataSource
  pub scenario_id : Option String

pub data AlertKind : Type 0 where
  predicted_conflict non_conformance emergency_squawk excessive_descent : AlertKind

pub data Severity : Type 0 where
  info advisory caution warning : Severity

pub data AlertState : Type 0 where
  new sustained cleared : AlertState

pub record ConflictEvidence (F : Type 0) : Type 0 where
  pub time_to_cpa_s : F
  pub min_horizontal_sep_nm : F
  pub min_vertical_sep_ft : F
  pub lookahead_s : F
  pub horizontal_standard_nm : F
  pub vertical_standard_ft : F

pub record ConformanceEvidence (F : Type 0) : Type 0 where
  pub predicted_at : Timestamp
  pub horizon_s : F
  pub error_nm : F
  pub baseline_error_nm : F
  pub threshold_nm : F
  pub predictor_version : String

pub record Alert (F : Type 0) : Type 0 where
  pub alert_id : String
  pub alert_key : String
  pub kind : AlertKind
  pub severity : Severity
  pub state : AlertState
  pub raised_at : Timestamp
  pub updated_at : Timestamp
  pub track_ids : List String
  pub reason_codes : List String
  pub summary : String
  pub conflict : Option (ConflictEvidence F)
  pub conformance : Option (ConformanceEvidence F)
  pub source : DataSource
  pub scenario_id : Option String

-- The value of a member, which is what formatting it gives.
unfoldable pub kind_value : AlertKind → String
kind_value predicted_conflict = "predicted_conflict"
kind_value non_conformance = "non_conformance"
kind_value emergency_squawk = "emergency_squawk"
kind_value excessive_descent = "excessive_descent"
