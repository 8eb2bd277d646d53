-- ===== src/Xml/Filter/Match.antt =====
-- The expression that go-susi/xml/xml_filter.go makes of a value that is to be equal.
use limux_gosa.Base.{◌&&◌, [], ◌∷◌, ◌==◌, ◌≡◌, refl, ap}
use limux_gosa.Base.Text.{Text, text_eq, lower, to_lower}
use limux_gosa.Xml.Filter.{quote_meta, match_string}

-- The quoted value of "eq" matches exactly the texts that are equal to it without regard to case.
pub match-quote_meta :
    (v t : Text) → match_string (quote_meta v) t ≡ text_eq (to_lower v) (to_lower t)
unfolding match_string text_eq
match-quote_meta [] [] = refl
match-quote_meta [] (d ∷ t) = refl
match-quote_meta (c ∷ v) [] = refl
match-quote_meta (c ∷ v) (d ∷ t) = ap (λ b. lower c == lower d && b) (match-quote_meta v t)
