-- ===== src/Utils/Expected.antt =====
-- utils/expected.hpp: a value or an error.
use async_sandbox.Prelude.{Bool, true, false, Option, none, some}

pub data Expected (T E : Type 0) : Type 0 where
  of_value : T → Expected T E
  unexpected : E → Expected T E

module _ {T E : Type 0} where
  abbrev pub has_value : Expected T E → Bool
  has_value (of_value t) = true
  has_value (unexpected e) = false

  abbrev pub value_or : Expected T E → T → T
  value_or (of_value t) d = t
  value_or (unexpected e) d = d

  -- `std::get` throws on the other alternative
  abbrev pub value : Expected T E → Option T
  value (of_value t) = some t
  value (unexpected e) = none

  abbrev pub error : Expected T E → Option E
  error (of_value t) = none
  error (unexpected e) = some e
