-- ===== src/Base/Json.antt =====
-- JSON values as Python holds them, and the safe readings that the program makes of them.
use Prim.Native.Nat.{ℕ}
use Prim.Native.String.{String}
use mathlib.Core.Bool.{Bool, true, false}
use mathlib.Core.List.{List, [], ◌∷◌}
use pay_ops.Base.Tests.{◌==◌, string_eq, if◌then◌else◌, ltb, nat_beq}

-- Python's `int`, with `negsuc n` for -(n + 1).
pub data ℤ : Type 0 where
  pos negsuc : ℕ → ℤ

abbrev pub ltz : ℤ → ℤ → Bool
ltz (pos a) (pos b) = ltb a b
ltz (pos a) (negsuc b) = false
ltz (negsuc a) (pos b) = true
ltz (negsuc a) (negsuc b) = ltb b a

abbrev pub is_zero : ℤ → Bool
is_zero (pos n) = nat_beq n 0
is_zero (negsuc n) = false

mutual
  -- `real` has the bits of a binary64 number.
  pub data Json : Type 0 where
    null : Json
    boolean : Bool → Json
    integer : ℤ → Json
    real : ℕ → Json
    text : String → Json
    array : Items → Json
    object : Members → Json

  pub data Items : Type 0 where
    nil : Items
    item : Json → Items → Items

  pub data Members : Type 0 where
    empty : Members
    member : String → Json → Members → Members

-- `d.get(key)`: a missing key reads as null.
abbrev pub lookup : String → Members → Json
lookup key empty = null
lookup key (member k value rest) = if k == key then value else lookup key rest

abbrev pub has_key : String → Members → Bool
has_key key empty = false
has_key key (member k value rest) = if k == key then true else has_key key rest

-- The members of an object, and none of anything else.
abbrev pub members_of : Json → Members
members_of (object m) = m
members_of _ = empty

abbrev pub object_items : Items → List Members
object_items nil = []
object_items (item (object m) rest) = m ∷ object_items rest
object_items (item _ rest) = object_items rest

-- The objects of an array, and none of anything else.
abbrev pub objects_of : Json → List Members
objects_of (array xs) = object_items xs
objects_of _ = []

-- `value == s` for a text `s`.
abbrev pub is_text : String → Json → Bool
is_text s (text t) = t == s
is_text s _ = false

-- `value is True`, `value is False`
abbrev pub is_true : Json → Bool
is_true (boolean true) = true
is_true _ = false

abbrev pub is_false : Json → Bool
is_false (boolean false) = true
is_false _ = false

-- `bool(value)`; the bits of 0.0 and of -0.0 are those of false numbers.
abbrev pub is_truthy : Json → Bool
is_truthy null = false
is_truthy (boolean b) = b
is_truthy (integer n) = if is_zero n then false else true
is_truthy (real bits) =
    if nat_beq bits 0 then false else if nat_beq bits 9223372036854775808 then false else true
is_truthy (text t) = if t == "" then false else true
is_truthy (array nil) = false
is_truthy (array (item _ _)) = true
is_truthy (object empty) = false
is_truthy (object (member _ _ _)) = true
