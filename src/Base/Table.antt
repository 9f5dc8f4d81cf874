-- ===== src/Base/Table.antt =====
-- A SQL table whose rows are a text key and a payload of JSON text: lookup by primary key, and the
-- update of one row.
use mathlib.Core.Path.{◌≡◌, refl}
use mathlib.Core.Logic.{◌≢◌}
use mathlib.Core.Option.{Option, none, some}
use mathlib.Core.List.{List, [], ◌∷◌}
use Prim.Native.String.{String}
use native.Mathlib.Omega.{arith}
use pay_ops.Base.Tests.{◌==◌, string_eq, if◌then◌else◌}

-- pydantic's JSON writer and reader for a record type, before the validators of the source.
pub record Codec (A Text : Type 0) : Type 0 where
  pub write : A → Text
  pub read : Text → Option A
  pub read-write : (a : A) → read (write a) ≡ some a

module _ {Text : Type 0} where
  -- `session.get(Row, key)`
  abbrev pub find_row : String → List (String × Text) → Option Text
  find_row id [] = none
  find_row id ((key, payload) ∷ rows) = if key == id then some payload else find_row id rows

  -- The update of the row that a conditional `UPDATE` matched.
  abbrev pub set_row : String → Text → List (String × Text) → List (String × Text)
  set_row id text [] = []
  set_row id text ((key, payload) ∷ rows) =
      if key == id then (key, text) ∷ rows else (key, payload) ∷ set_row id text rows

  pub find_row-set_row_self :
      (id : String) (text old : Text) (rows : List (String × Text))
      → find_row id rows ≡ some old
      → find_row id (set_row id text rows) ≡ some text
  find_row-set_row_self id text old [] h = cc
  find_row-set_row_self id text old ((key, payload) ∷ rows) h =
      ground (arith, find_row-set_row_self id text old rows)

  pub find_row-set_row_ne :
      (id j : String) (text : Text) (rows : List (String × Text))
      → id ≢ j
      → find_row j (set_row id text rows) ≡ find_row j rows
  find_row-set_row_ne id j text [] h = refl
  find_row-set_row_ne id j text ((key, payload) ∷ rows) h = ground (
    arith,
    string_eq.beq_iff key id,
    string_eq.beq_iff key j,
    find_row-set_row_ne id j text rows h,
  )

  pub find_row-cons_ne :
      (id j : String) (text : Text) (rows : List (String × Text))
      → id ≢ j
      → find_row j ((id, text) ∷ rows) ≡ find_row j rows
  find_row-cons_ne id j text rows h = ground (arith, string_eq.beq_iff id j)

  pub find_row-cons_self :
      (id : String) (text : Text) (rows : List (String × Text))
      → find_row id ((id, text) ∷ rows) ≡ some text
  find_row-cons_self id text rows = ground (arith, string_eq.beq_iff id id)
