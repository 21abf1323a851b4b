-- ===== src/Core/Spans.antt =====
-- The spans of entities: their order in a text.
use alfa_hackaton.Prelude.{List, [], ◌∷◌, All}
use alfa_hackaton.Prelude.Int.{◌≤ℤ◌}
use alfa_hackaton.Core.Models.{PiiEntity}

-- A span that does not end before it starts.
abbrev pub IsSpan : PiiEntity → Type 0
IsSpan e = e.start ≤ℤ e.end

-- `a` ends where `b` starts, or before.
abbrev pub IsBefore : PiiEntity → PiiEntity → Type 0
IsBefore a b = a.end ≤ℤ b.start

-- Every entity ends before each later one starts.
abbrev pub AreDisjoint : List PiiEntity → Type 0
AreDisjoint [] = Unit
AreDisjoint (a ∷ l) = All (IsBefore a) l × AreDisjoint l
