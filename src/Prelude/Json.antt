-- ===== src/Prelude/Json.antt =====
-- JSON values, as `json.loads` gives them. Numbers are signed; a float never decides anything here.
use Prim.Native.String.{String}
use mathlib.Core.Bool.{Bool}
use text.Mathlib.Text.{◌==◌}
use package.haniel.Prelude.Int.{ℤ}
use package.haniel.Prelude.Tests.{if◌then◌else◌}

mutual
  pub data Json : Type 0 where
    null : Json
    bool : Bool → Json
    num : ℤ → Json
    string : String → Json
    arr : Items → Json
    obj : Fields → Json

  pub data Items : Type 0 where
    nil : Items
    cons : Json → Items → Items

  pub data Fields : Type 0 where
    end : Fields
    field : String → Json → Fields → Fields

-- `d.get(key)` of an object's fields; an absent key reads as `None`.
unfoldable pub member : String → Fields → Json
member key end = null
member key (field k v rest) = if k == key then v else member key rest
