-- ===== src/Prelude/Texts.antt =====
-- Functions of Go's `strings` on texts as lists of code points.
use Prim.Native.Nat.{ℕ}
use mathlib.Core.Bool.{Bool, true, false, ◌&&◌, ◌||◌}
use mathlib.Core.Option.{Option, none, some}
use mathlib.Core.List.{List, [], ◌∷◌, reverse}
use rootmote_agent.Prelude.Tests.{eqb, leb, if◌then◌else◌}
use rootmote_agent.Prelude.Keys.{Text, text_beq}
use rootmote_agent.Prelude.Lists.{exists}

-- `unicode.IsSpace`
abbrev pub is_space : ℕ → Bool
is_space c =
    (leb 9 c && leb c 13)
    || eqb c 32
    || eqb c 133
    || eqb c 160
    || eqb c 5760
    || (leb 8192 c && leb c 8202)
    || eqb c 8232
    || eqb c 8233
    || eqb c 8239
    || eqb c 8287
    || eqb c 12288

unfoldable pub trim_left : Text → Text
trim_left [] = []
trim_left (c ∷ s) = let rest = trim_left s in if is_space c then rest else c ∷ s

-- `strings.TrimSpace`
unfoldable pub trim_space : Text → Text
unfolding trim_left
trim_space s = reverse (trim_left (reverse (trim_left s)))

abbrev onto_first : ℕ → List Text → List Text
onto_first c [] = (c ∷ []) ∷ []
onto_first c (s ∷ ss) = (c ∷ s) ∷ ss

-- `strings.Split` by one character: never empty.
unfoldable pub split_by : ℕ → Text → List Text
split_by sep [] = [] ∷ []
split_by sep (c ∷ s) =
    let rest = split_by sep s in if eqb c sep then [] ∷ rest else onto_first c rest

abbrev if_full : Text → List Text → List Text
if_full [] fields = fields
if_full (c ∷ s) fields = (c ∷ s) ∷ fields

-- The fields, and the beginning of the text up to its first space.
unfoldable pub split_fields : Text → Text × List Text
split_fields [] = ([], [])
split_fields (c ∷ s) =
    let (word, fields) = split_fields s in
    if is_space c then ([], if_full word fields) else (c ∷ word, fields)

-- `strings.Fields`
unfoldable pub fields_of : Text → List Text
unfolding split_fields
fields_of s = let (word, fields) = split_fields s in if_full word fields

abbrev pub cut_more : ℕ → Option (Text × Text) → Option (Text × Text)
cut_more c none = none
cut_more c (some (before, after)) = some (c ∷ before, after)

-- `strings.Cut` by one character.
unfoldable pub cut_at : ℕ → Text → Option (Text × Text)
cut_at sep [] = none
cut_at sep (c ∷ s) = let rest = cut_at sep s in if eqb c sep then some ([], s) else cut_more c rest

abbrev pub starts_with : Text → Text → Bool
starts_with s [] = true
starts_with [] (p ∷ ps) = false
starts_with (c ∷ s) (p ∷ ps) = eqb c p && starts_with s ps

abbrev pub ends_with : Text → Text → Bool
ends_with s suffix = starts_with (reverse s) (reverse suffix)

-- `strings.TrimPrefix`, where the prefix is there.
abbrev pub drop_prefix : Text → Text → Text
drop_prefix s [] = s
drop_prefix [] (p ∷ ps) = []
drop_prefix (c ∷ s) (p ∷ ps) = drop_prefix s ps

abbrev pub trim_suffix : Text → Text → Text
trim_suffix s suffix =
    if ends_with s suffix then reverse (drop_prefix (reverse s) (reverse suffix)) else s

-- `strings.Contains`
abbrev pub contains_text : Text → Text → Bool
contains_text [] part = starts_with [] part
contains_text (c ∷ s) part = starts_with (c ∷ s) part || contains_text s part

abbrev pub is_any_of : List Text → Text → Bool
is_any_of list s = exists (λ t. text_beq t s) list
