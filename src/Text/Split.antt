-- ===== src/Text/Split.antt =====
-- Parts joined by a separator are the parts that `split` gives back.
use Prim.Native.Char.{Char, code}
use Prim.Native.String
use electa.Base.{String, ◌≡◌, refl, ap, ◌∙◌, false, List, [], ◌∷◌, arith, nat_eq, All}
use text.Mathlib.TextLemmas.{nil-append, cons-append}
use electa.Text.{split}

-- The character does not occur.
abbrev pub Lacks : Char → String → Type 0
Lacks sep String.[] = Unit
Lacks sep (String.◌∷◌ c s) = (nat_eq (code c) (code sep) ≡ false) × Lacks sep s

-- `sep.join(parts)` for parts that begin with one
abbrev pub join : Char → String → List String → String
join sep part [] = part
join sep part (next ∷ parts) = String.◌++◌ part (String.◌∷◌ sep (join sep next parts))

split-nil : (sep : Char) (s : String) → Lacks sep s → split sep s ≡ s ∷ []
unfolding split
split-nil sep String.[] h = refl
split-nil sep (String.◌∷◌ c s) h = ground (arith, split-nil sep s)

split-append :
    (sep : Char) (part rest : String)
    → Lacks sep part
    → split sep (String.◌++◌ part (String.◌∷◌ sep rest)) ≡ part ∷ split sep rest
unfolding split
split-append sep String.[] rest h = ground (arith, nil-append (String.◌∷◌ sep rest))
split-append sep (String.◌∷◌ c s) rest h =
    ground (arith, cons-append c s (String.◌∷◌ sep rest), split-append sep s rest h.1)

pub split-join :
    (sep : Char) (part : String) (parts : List String)
    → Lacks sep part
    → All (Lacks sep) parts
    → split sep (join sep part parts) ≡ part ∷ parts
split-join sep part [] h hs = split-nil sep part h
split-join sep part (next ∷ parts) h hs =
    split-append sep part (join sep next parts) h
    ∙ ap (◌∷◌ part) (split-join sep next parts hs.0 hs.1)
