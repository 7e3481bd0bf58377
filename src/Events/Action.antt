-- ===== src/Events/Action.antt =====
-- events/active.rs, and the action that an event runs when it is resolved.
--
-- The flag of an event is shared: an action may switch the event that runs it on or off. An action is
-- a function of the time, of the flag and of the rest of the world, which it may change.
use fastsim.Common.{Bool, true, Option, none, some}

abbrev pub Action : Type 0 → Type 0 → Type 0
Action F W = F → Bool × W → Bool × W

unfoldable pub active_flag : Bool
active_flag = true

-- `if let Some(ref mut func) = self.func_act { func(t) }`
unfoldable pub run : {F W : Type 0} → Option (Action F W) → F → Bool × W → Bool × W
run none t st = st
run (some func) t st = func t st
