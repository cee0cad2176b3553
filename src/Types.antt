-- ===== src/Types.antt =====
-- The data contracts of src/cluxion_runtime/core/types.py.
use clx_preprocessing.Prelude.{List, String, ℕ, ℤ}

pub data AgentSurface : Type 0 where
  hermes codex claude grok_build local api : AgentSurface

-- Lower numbers run first.
pub data WorkPriority : Type 0 where
  critical high normal low : WorkPriority

-- `int(priority)`
unfoldable pub priority_int : WorkPriority → ℕ
priority_int critical = 0
priority_int high = 1
priority_int normal = 2
priority_int low = 3

pub record WorkItem : Type 0 where
  pub work_id : String
  pub prompt : String
  pub surface : AgentSurface
  pub priority : WorkPriority
  pub model_route : String
  pub expected_ram_mb : ℤ
  pub context_tokens : ℤ
  pub metadata : List (String × String)

-- A segment of a long task.
pub record QueueSegment : Type 0 where
  pub segment_id : String
  pub char_start : ℕ
  pub char_end : ℕ
  pub token_estimate : ℕ
  pub checksum : String
  pub preview : String
  pub content : String
