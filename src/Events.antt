-- ===== src/Events.antt =====
-- The bus events of apps/agents/shared/events.py that the modelled agents exchange. Identifiers
-- (UUIDs) are numbers; `event_type` is a constant of each class, and no modelled code reads
-- `timestamp`, so neither is a field.
use dcops.Base.{ℕ, String, Bool, Option, List}
use dcops.Value.{Value, Dict}

-- `BusEvent`
pub record BusEvent : Type 0 where
  pub event_id : ℕ
  pub site_id : String
  pub trace_id : Option ℕ
  pub parent_event_id : Option ℕ
  pub metadata : Dict

pub record Recommendation : Type 0 where
  pub bus_event : BusEvent
  pub open bus_event use *
  pub recommendation_id : ℕ
  pub kind : String
  pub target_device_ids : List String
  pub parameters : Dict
  pub estimated_impact : Dict
  pub confidence : Value
  pub requires_human_approval : Bool

-- `F` is the type of floats.
pub record ActionExecuted (F : Type 0) : Type 0 where
  pub bus_event : BusEvent
  pub open bus_event use *
  pub recommendation_id : ℕ
  pub action_id : ℕ
  pub success : Bool
  pub response_payload : Dict
  pub pre_action_kpis : List (String × F)

pub record ActionRolledBack (F : Type 0) : Type 0 where
  pub bus_event : BusEvent
  pub open bus_event use *
  pub action_id : ℕ
  pub reason : String
  pub pre_action_kpis : List (String × F)
  pub post_action_kpis : List (String × F)
