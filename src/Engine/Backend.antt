-- ===== src/Engine/Backend.antt =====
-- What the input backend makes of what the engine tells it (the field `input` of crates/ud-engine/src/engine.rs,
-- an InputController): the last capture that was set, and the keys and buttons pressed and not released.
use uniondesk.Common.{true, false, List, [], ◌∷◌, ◌++◌, ◌==◌, if◌then◌else◌, insert_key, remove_key}
use uniondesk.Input.{MouseButton, InputEvent, button_index}
use uniondesk.Engine.State.{Engine, Effect, Backend, set_capture, inject, on_input}

-- A set of buttons, as a list without repetition.
abbrev pub remove_button : MouseButton → List MouseButton → List MouseButton
remove_button b [] = []
remove_button b (c ∷ cs) =
    let rest = remove_button b cs in if button_index b == button_index c then rest else c ∷ rest

abbrev pub insert_button : MouseButton → List MouseButton → List MouseButton
insert_button b cs = b ∷ remove_button b cs

abbrev pub injected : InputEvent → Backend → Backend
injected (InputEvent.key code true m) b = record b { keys = insert_key code b.keys }
injected (InputEvent.key code false m) b = record b { keys = remove_key code b.keys }
injected (InputEvent.button x true) b = record b { buttons = insert_button x b.buttons }
injected (InputEvent.button x false) b = record b { buttons = remove_button x b.buttons }
injected (InputEvent.move_rel dx dy) b = b
injected (InputEvent.move_abs x y) b = b
injected (InputEvent.wheel dx dy) b = b

abbrev pub effect_on : Effect → Backend → Backend
effect_on (set_capture o) b = record b { is_captured = o.mouse }
effect_on (inject event) b = injected event b
effect_on _ b = b

abbrev pub after : List Effect → Backend → Backend
after [] b = b
after (e ∷ effects) b = after effects (effect_on e b)

-- `if let Some(input) = &self.input { … }`, with calls of the controller.
abbrev pub tell_input : List Effect → Engine → Engine
tell_input effects s = record s {
  log = s.log ++ on_input s effects;
  backend = after (on_input s effects) s.backend;
}
