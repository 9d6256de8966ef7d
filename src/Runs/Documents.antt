-- ===== src/Runs/Documents.antt =====
-- The documents of crates/bsrs/src/event_model/documents.rs that a run's bundler composes, and
-- `TypedReading` of crates/bsrs/src/core/reading.rs.
-- `Value` is `serde_json::Value`, `Float` is `f64`: the code carries both and never looks inside.
use bsrs.Prelude.{ℕ, String, Option, none, some, List, if◌then◌else◌, str_eq}
use bsrs.Prelude.Int.{ℤ}

pub record Payload : Type 1 where
  pub Value : Type 0
  pub Float : Type 0

-- A `HashMap` with text keys.
abbrev pub Fields : Type 0 → Type 0
Fields A = List (String × A)

pub data ExitStatus : Type 0 where
  success abort fail : ExitStatus

unfoldable pub as_str : ExitStatus → String
as_str success = "success"
as_str abort = "abort"
as_str fail = "fail"

-- `from_str`; `none` is the error.
unfoldable pub from_str : String → Option ExitStatus
from_str s =
    if str_eq s "success"
    then some success
    else if str_eq s "abort"
    then some abort
    else if str_eq s "fail"
    then some fail
    else none

pub data Dtype : Type 0 where
  string number array boolean integer : Dtype

pub data DtypeNumpy : Type 0 where
  scalar : String → DtypeNumpy
  structured : List (String × String) → DtypeNumpy

pub record LimitsRange (P : Payload) : Type 0 where
  pub high : Option P.Float
  pub low : Option P.Float

pub record RdsRange (P : Payload) : Type 0 where
  pub time_difference : P.Float
  pub value_difference : P.Float

pub record Limits (P : Payload) : Type 0 where
  pub alarm : Option (LimitsRange P)
  pub control : Option (LimitsRange P)
  pub display : Option (LimitsRange P)
  pub warning : Option (LimitsRange P)
  pub hysteresis : Option P.Float
  pub rds : Option (RdsRange P)

pub record DataKey (P : Payload) : Type 0 where
  pub source : String
  pub dtype : Dtype
  pub shape : List (Option ℕ)
  pub dtype_numpy : Option DtypeNumpy
  pub external : Option String
  pub units : Option String
  pub precision : Option ℤ
  pub object_name : Option String
  pub dims : Option (List String)
  pub limits : Option (Limits P)
  pub choices : Option (List String)

pub record PerObjectHint : Type 0 where
  pub fields : Option (List String)
  pub nx_class : Option String

pub record Configuration (P : Payload) : Type 0 where
  pub «data» : Fields P.Value
  pub data_keys : Fields (DataKey P)
  pub timestamps : Fields P.Float

pub record EventDescriptor (P : Payload) : Type 0 where
  pub uid : String
  pub run_start : String
  pub time : P.Float
  pub data_keys : Fields (DataKey P)
  pub configuration : Fields (Configuration P)
  pub name : Option String
  pub hints : Option (Fields PerObjectHint)
  pub object_keys : Fields (List String)

pub record Event (P : Payload) : Type 0 where
  pub uid : String
  pub descriptor : String
  pub time : P.Float
  pub seq_num : ℕ
  pub «data» : Fields P.Value
  pub timestamps : Fields P.Float
  pub filled : Fields P.Value

pub record EventPage (P : Payload) : Type 0 where
  pub uid : List String
  pub descriptor : String
  pub time : List P.Float
  pub seq_num : List ℕ
  pub «data» : Fields (List P.Value)
  pub timestamps : Fields (List P.Float)
  pub filled : Fields (List P.Value)

pub record Datum (P : Payload) : Type 0 where
  pub datum_id : String
  pub resource : String
  pub datum_kwargs : Fields P.Value

pub record DatumPage (P : Payload) : Type 0 where
  pub datum_id : List String
  pub resource : String
  pub datum_kwargs : Fields (List P.Value)

pub record StreamResource (P : Payload) : Type 0 where
  pub uid : String
  pub data_key : String
  pub mimetype : String
  pub uri : String
  pub parameters : Fields P.Value
  pub run_start : Option String

pub record StreamRange : Type 0 where
  pub start : ℕ
  pub stop : ℕ

pub record StreamDatum : Type 0 where
  pub uid : String
  pub stream_resource : String
  pub descriptor : String
  pub indices : StreamRange
  pub seq_nums : StreamRange

pub record RunStop (P : Payload) : Type 0 where
  pub uid : String
  pub run_start : String
  pub time : P.Float
  pub exit_status : ExitStatus
  pub reason : Option String
  pub num_events : Fields ℕ
  pub data_type : Option P.Value
  pub extra : Fields P.Value

-- The two of the ten kinds of document that a bundler's `save` emits.
pub data Document (P : Payload) : Type 0 where
  descriptor_doc : EventDescriptor P → Document P
  event_doc : Event P → Document P

pub record ReadingValue (P : Payload) : Type 0 where
  pub value : P.Value
  pub timestamp : P.Float
  pub alarm_severity : Option ℤ
  pub message : Option String
