-- ===== src/Json.antt =====
-- A value that encoding/json decoded into an `any`. An object is a Go map: its members in the order
-- in which a `range` visits them.
use codex_claude_monitor.Prelude.{
  String, Bool, Option, none, some, ◌==◌, if◌then◌else◌, List, [], ◌∷◌,
}
use codex_claude_monitor.Float.{Float64}

mutual
  pub data Json : Type 0 where
    null : Json
    bool : Bool → Json
    num : Float64 → Json
    text : String → Json
    arr : Items → Json
    obj : Members → Json

  pub data Items : Type 0 where
    nil : Items
    cons : Json → Items → Items

  pub data Members : Type 0 where
    end : Members
    member : String → Json → Members → Members

-- `value, ok := object[key]`
abbrev pub get : String → Members → Option Json
get key end = none
get key (member k v rest) = if k == key then some v else get key rest

-- The value of the first of the keys that is there; `null` stands for Go's nil.
abbrev pub first_value : List String → Members → Json
first_value [] object = null
first_value (key ∷ keys) object = elim (get key object) [
  | some v ↦ v
  | none ↦ first_value keys object
]

abbrev pub as_text : Json → Option String
as_text (text s) = some s
as_text _ = none

abbrev pub as_bool : Json → Option Bool
as_bool (bool b) = some b
as_bool _ = none

abbrev pub as_object : Json → Option Members
as_object (obj m) = some m
as_object _ = none
