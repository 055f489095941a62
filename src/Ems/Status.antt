-- ===== src/Ems/Status.antt =====
-- include/EMS.hpp, `OrderState`, and its comparisons with one state.
use hft_learning.Prelude.{Bool, true, false}

pub data OrderState : Type 0 where
  none pending_new new partially_filled filled canceled rejected : OrderState

abbrev pub is_none : OrderState → Bool
is_none OrderState.none = true
is_none _ = false

abbrev pub is_pending_new : OrderState → Bool
is_pending_new pending_new = true
is_pending_new _ = false

abbrev pub is_canceled : OrderState → Bool
is_canceled canceled = true
is_canceled _ = false

abbrev pub is_rejected : OrderState → Bool
is_rejected rejected = true
is_rejected _ = false
