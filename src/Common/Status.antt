-- ===== src/Common/Status.antt =====
-- `Status` of src/common/status.h, without its message, and the results of calls that also copy
-- memory.
use any_cache.Base.{Bool, true, false}

pub data StatusCode : Type 0 where
  k_ok k_not_found k_already_exists k_invalid_argument k_io_error k_permission_denied
        k_not_implemented k_resource_exhausted k_unavailable k_internal k_cancelled
        k_deadline_exceeded :
      StatusCode

abbrev pub is_ok : StatusCode → Bool
is_ok k_ok = true
is_ok _ = false

-- A call that succeeds with a value, one that returns an error status, and one whose copy leaves
-- the bounds of its buffer, which C++ leaves undefined.
pub data Reply (A : Type 0) : Type 0 where
  done : A → Reply A
  failed : StatusCode → Reply A
  fault : Reply A
