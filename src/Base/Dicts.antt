-- ===== src/Base/Dicts.antt =====
-- Python dictionaries of JSON values: subscripts, assignment to a key, and the checked readings of the
-- adapters.
use mathlib.Core.Path.{◌≡◌, refl}
use mathlib.Core.List.{List, [], ◌∷◌}
use Prim.Native.String.{String}
use native.Mathlib.Omega.{arith}
use pay_ops.Base.Tests.{◌==◌, string_eq, if◌then◌else◌, Bool-cases}
use mathlib.Core.Logic.{inl, inr}
use pay_ops.Base.Result.{Result, ok, err, value_error, key_error, ◌>>=◌}
use pay_ops.Base.Json.{
  Json, array, object, Items, nil, item, Members, empty, member, lookup, has_key,
}

-- `d[key]`
abbrev pub at_key : String → Members → Result Json
at_key key m = if has_key key m then ok (lookup key m) else err key_error

-- `d.get(key, default)`
abbrev pub get_or : String → Json → Members → Json
get_or key default m = if has_key key m then lookup key m else default

-- `d[key] = value`
abbrev pub set_member : String → Json → Members → Members
set_member key value empty = member key value empty
set_member key value (member k old rest) =
    if k == key then member k value rest else member k old (set_member key value rest)

-- Every member but `key`.
abbrev pub erase : String → Members → Members
erase key empty = empty
erase key (member k value rest) =
    if k == key then erase key rest else member k value (erase key rest)

-- `object_value`
abbrev pub object_value : Json → Result Members
object_value (object m) = ok m
object_value _ = err value_error

abbrev pub objects : Items → Result (List Members)
objects nil = ok []
objects (item value rest) = object_value value >>= λ m. (objects rest >>= λ ms. ok (m ∷ ms))

-- `object_items`
abbrev pub object_list : Json → Result (List Members)
object_list (array xs) = objects xs
object_list _ = err value_error

pub lookup-set_member :
    (key : String) (value : Json) (m : Members) → lookup key (set_member key value m) ≡ value
lookup-set_member key value empty = rw ((string_eq.beq_iff key key).1 refl) refl
lookup-set_member key value (member k old rest) = ground (arith, lookup-set_member key value rest)

pub erase-set_member :
    (key : String) (value : Json) (m : Members) → erase key (set_member key value m) ≡ erase key m
erase-set_member key value empty = rw ((string_eq.beq_iff key key).1 refl) refl
erase-set_member key value (member k old rest) = elim (Bool-cases (k == key)) [
  | inl e ↦ rw (e, e) refl
  | inr e ↦ ground (arith, e, erase-set_member key value rest)
]
