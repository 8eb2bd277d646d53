-- ===== src/Message/Address.antt =====
-- `addressRegexp` of go-susi/message/foreign_job_updates.go: an IPv4 address and a port.
use limux_gosa.Base.{
  ℕ, Bool, false, not, ◌&&◌, ◌||◌, ◌==◌, leb, length, Option, none, some, [], ◌∷◌, all,
  if◌then◌else◌,
}
use limux_gosa.Base.Text.{Text, is_digit, parse_digits}

-- What is before the first `sep`, and what is behind it.
unfoldable pub before : ℕ → Text → Text
before sep [] = []
before sep (c ∷ s) = let rest = before sep s in if c == sep then [] else c ∷ rest

unfoldable pub behind : ℕ → Text → Option Text
behind sep [] = none
behind sep (c ∷ s) = let rest = behind sep s in if c == sep then some s else rest

at_most_255 : Option ℕ → Bool
at_most_255 none = false
at_most_255 (some n) = leb n 255

-- `ip_part`: a number up to 255 without leading zeros.
unfoldable pub is_ip_part : Text → Bool
unfolding at_most_255 parse_digits
is_ip_part [] = false
is_ip_part (c ∷ s) =
    all is_digit (c ∷ s)
    && (not (c == b'0') || length s == 0)
    && leb (length s) 2
    && at_most_255 (parse_digits (c ∷ s))

-- `re_port`
unfoldable pub is_port : Text → Bool
is_port [] = false
is_port (c ∷ s) =
    all is_digit (c ∷ s)
    && ((c == b'0' && length s == 0)
        || (leb b'1' c && leb c b'6' && leb (length s) 4)
        || (leb b'7' c && leb (length s) 3))

if_behind : (Text → Bool) → Option Text → Bool
if_behind next none = false
if_behind next (some s) = next s

-- A part of the address, and what is behind the separator.
part : ℕ → (Text → Bool) → Text → Bool
part sep next s = is_ip_part (before sep s) && if_behind next (behind sep s)

-- `addressRegexp.MatchString`
unfoldable pub is_address : Text → Bool
unfolding part if_behind is_ip_part is_port before behind
is_address = part b'.' (part b'.' (part b'.' (part b':' is_port)))
