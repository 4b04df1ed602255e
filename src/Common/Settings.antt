-- ===== src/Common/Settings.antt =====
-- Blocks of names and values, each name at most once: a receiver's and a payout's settings.
pub mod Exact
use Prim.Native.String.{String}
use mathlib.Core.Bool.{not}
use mathlib.Core.Option.{Option, none, some}
use mathlib.Core.List.{List, [], ◌∷◌}
use geata.Common.Tests.{if◌then◌else◌, is_some, ◌==◌}
use geata.Common.Lists.{any}
use geata.Common.Results.{Result, ok, err, ◌>>=◌, ok_or}
use geata.Common.Map.{Map, get, insert}
use geata.Common.Text.{Text, text_Key}

-- `chunks_exact(2)`, where the number of arguments is even.
unfoldable pub pairs : List Text → Option (List (Text × Text))
pairs [] = some []
pairs (name ∷ []) = none
pairs (name ∷ value ∷ args) = elim (pairs args) [
  | none ↦ none
  | some rest ↦ some ((name, value) ∷ rest)
]

module _ (known : List Text) (unknown duplicate : String) where
  unfoldable pub fields_from : Map Text Text → List (Text × Text) → Result String (Map Text Text)
  unfolding get insert
  fields_from fields [] = ok fields
  fields_from fields ((name, value) ∷ rest) =
      let next = fields_from (insert name value fields) rest in
      if not (any (λ k. k == name) known)
      then err unknown
      else if is_some (get name fields)
      then err duplicate
      else next

unfoldable pub read_fields :
    List Text → String → String → String → List Text → Result String (Map Text Text)
unfolding pairs fields_from
read_fields known odd unknown duplicate args =
    ok_or (pairs args) odd >>= fields_from known unknown duplicate []
