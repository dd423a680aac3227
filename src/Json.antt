-- ===== src/Json.antt =====
-- The values that `json.loads` returns and that event payloads are built from. A Python dict with
-- text keys is the list of its fields in insertion order.
use Prim.Native.String.{String}
use text.Mathlib.Text.{◌==◌}
use risk_core.Prelude.{ℕ, Bool, false, ◌||◌, Option, none, some, Text, text_eq, if◌then◌else◌}

mutual
  pub data Json : Type 0 where
    null : Json
    bool : Bool → Json
    num : ℕ → Json
    str : Text → Json
    arr : Items → Json
    obj : Fields → Json

  pub data Items : Type 0 where
    nil : Items
    cons : Json → Items → Items

  pub data Fields : Type 0 where
    end : Fields
    field : String → Json → Fields → Fields

-- `d.get(k)`
abbrev pub get : String → Fields → Option Json
get k end = none
get k (field j v rest) = if j == k then some v else get k rest

-- `d.get(k, default)`
abbrev pub get_or : String → Json → Fields → Json
get_or k d fields = elim (get k fields) [ none ↦ d | some v ↦ v ]

-- `d[k] = v`: a key that is there keeps its place, a new one goes last.
abbrev pub put : String → Json → Fields → Fields
put k v end = field k v end
put k v (field j w rest) = if j == k then field j v rest else field j w (put k v rest)

-- `s in a`, for a text `s` and an array `a`.
abbrev pub mem_item : Text → Items → Bool
mem_item s nil = false
mem_item s (cons (str t) rest) = text_eq t s || mem_item s rest
mem_item s (cons _ rest) = mem_item s rest
