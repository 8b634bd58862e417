-- ===== src/Actions.antt =====
-- What buttons and wheels do: src/logid/actions.
pub mod Gesture
pub mod GestureAction
