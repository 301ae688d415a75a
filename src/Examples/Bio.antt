-- ===== src/Examples/Bio.antt =====
-- The requests of bio.c at a buffer that lies in two pages, for a block layer that notes them.
use secondfs_module.Prelude.{ℕ, ap, true, List, [], ◌∷◌}
use secondfs_module.Bio.{Segment, Bio, BlockLayer}
use secondfs_module.Bio.Pages.{AddsTwo, Submits, submit_bio-Submits}

-- A third segment is refused.
abbrev add_to : Bio → Segment → List Segment → ℕ × Bio
add_to b s [] = (s.len, record b { segments = s ∷ [] })
add_to b s (t ∷ []) = (s.len, record b { segments = t ∷ s ∷ [] })
add_to b s (t ∷ u ∷ rest) = (0, b)

abbrev noting : BlockLayer (List Bio)
noting = record { bio_add_page = λ b s. add_to b s b.segments; submit_bio_wait = λ b s. (0, b ∷ s) }

noting-AddsTwo : AddsTwo noting
noting-AddsTwo = record {
  first = λ b s e. ap (add_to b s) e;
  second = λ b s t e. ap (add_to b t) e;
}

submit_bio-Submits_example : Submits (List Bio) noting noting-AddsTwo 200 4000 true true []
submit_bio-Submits_example =
    submit_bio-Submits (List Bio) noting noting-AddsTwo 200 4000 true true []
