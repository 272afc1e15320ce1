-- ===== src/Models.antt =====
-- Enumerations of services/shared/shared/models/enums.py that several components share.
use mathlib.Core.Bool.{Bool, true, false}

-- `FallbackAction`
pub data FallbackAction : Type 0 where
  secondary_agent pbx_queue voicemail hangup : FallbackAction

-- `ResourceStatus`
pub data ResourceStatus : Type 0 where
  active disabled archived : ResourceStatus

-- `status is ResourceStatus.ACTIVE`
abbrev pub is_active : ResourceStatus → Bool
is_active active = true
is_active disabled = false
is_active archived = false
