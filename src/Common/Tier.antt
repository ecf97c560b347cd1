-- ===== src/Common/Tier.antt =====
-- `TierType` of src/common/types.h.
use any_cache.Base.{ℕ}

pub data TierType : Type 0 where
  k_memory k_ssd k_hdd : TierType

unfoldable pub TierType-discrete : Discrete TierType
TierType-discrete = hlevel

-- `static_cast<int>(t)`
abbrev pub speed : TierType → ℕ
speed k_memory = 0
speed k_ssd = 1
speed k_hdd = 2
