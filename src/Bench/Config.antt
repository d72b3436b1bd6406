-- ===== src/Bench/Config.antt =====
-- What a setting that is unset is taken from.
use schedbench.Base.{Text, [], ◌∷◌}

-- A setting that is unset, the empty text, is taken from the level above.
abbrev pub text_or : Text → Text → Text
text_or [] g = g
text_or (c ∷ l) g = c ∷ l
