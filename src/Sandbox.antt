-- ===== src/Sandbox.antt =====
-- sandbox_validate.py: the test cases, the command of the container, and the driver (the
-- children). The JSON parser is a parameter, whose values are those of `Json`.
pub mod Cases
pub mod Docker
pub mod Watch
pub mod Validate
use npp_ai.Prelude.{ℕ, suc, Bool, true, false, ◌||◌, Option, none, some}
use npp_ai.Text.{Text, text_eq}

-- A value of `json.loads`. An object has each of its keys once.
mutual
  pub data Json : Type 0 where
    -- null, a boolean or a number
    plain : Json
    text : Text → Json
    array : Items → Json
    object : Members → Json

  pub data Items : Type 0 where
    no_items : Items
    item : Json → Items → Items

  pub data Members : Type 0 where
    no_members : Members
    member : Text → Json → Members → Members

abbrev pub count_items : Items → ℕ
count_items no_items = 0
count_items (item j rest) = suc (count_items rest)

-- `d[key]`
unfoldable pub find_member : Text → Members → Option Json
find_member key no_members = none
find_member key (member k j rest) = elim (text_eq k key) [
  | true ↦ some j
  | false ↦ find_member key rest
]
