-- ===== src/Ndic/Tmc/Tests.antt =====
-- Identifications with and without location codes.
use rio_t_preprocessors.Base.{none, some, ◌≡◌, refl}
use rio_t_preprocessors.Ndic.Tmc.{match_location}

matches : (match_location "TS12T345" ≡ some ("12", "345")) × (match_location "TS12T" ≡ none)
unfolding match_location
matches = (refl, refl)
