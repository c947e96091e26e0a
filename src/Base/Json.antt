-- ===== src/Base/Json.antt =====
-- The values of `json.loads`. A number that is negative or not whole is an `other` one.
use Prim.Native.Nat.{ℕ}
use mathlib.Core.Bool.{Bool, true, ◌&&◌, not}
use mathlib.Core.Option.{Option, none, some}
use mathlib.Core.List.{List, [], ◌∷◌}
use m365_xdr_cli.Base.Tests.{if◌then◌else◌}
use m365_xdr_cli.Base.Strings.{Text, text_eq, contains}

mutual
  pub data Json : Type 0 where
    null other : Json
    boolean : Bool → Json
    whole : ℕ → Json
    text : Text → Json
    array : Items → Json
    object : Members → Json

  pub data Items : Type 0 where
    done : Items
    item : Json → Items → Items

  pub data Members : Type 0 where
    end : Members
    member : Text → Json → Members → Members

unfoldable pub names : Members → List Text
names end = []
names (member k v rest) = k ∷ names rest

-- `value.get(key)` of an object
unfoldable pub get : Text → Members → Option Json
get key end = none
get key (member k v rest) = if text_eq key k then some v else get key rest

-- A hook that refuses repeated keys in any object of the value.
unfoldable mutual
  pub unique : Json → Bool
  unique (array xs) = unique_items xs
  unique (object ms) = unique_members ms
  unique _ = true

  pub unique_items : Items → Bool
  unique_items done = true
  unique_items (item v rest) = unique v && unique_items rest

  pub unique_members : Members → Bool
  unique_members end = true
  unique_members (member k v rest) =
      not (contains k (names rest)) && (unique v && unique_members rest)
