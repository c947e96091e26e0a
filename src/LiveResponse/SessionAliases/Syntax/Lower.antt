-- ===== src/LiveResponse/SessionAliases/Syntax/Lower.antt =====
-- Lower case of the machine identifiers in session_aliases.py.
use m365_xdr_cli.Base.{
  ℕ, ◌+◌, ◌≡◌, refl, true, ◌&&◌, [], ◌∷◌, Text, all, length, leb, ascii_lower, if◌then◌else◌, arith,
  &&-left, &&-right,
}
use m365_xdr_cli.Base.Decimal.{is_digit}
use m365_xdr_cli.LiveResponse.SessionAliases.Syntax.{hex_char, is_device}

pub lower-lower : (t : Text) → ascii_lower (ascii_lower t) ≡ ascii_lower t
unfolding ascii_lower
lower-lower [] = refl
lower-lower (c ∷ cs) = ground (arith, lower-lower cs)

length-lower : (t : Text) → length (ascii_lower t) ≡ length t
unfolding ascii_lower
length-lower [] = refl
length-lower (c ∷ cs) = omega (arith, length-lower cs)

hex_char-lower :
    (c : ℕ) → hex_char c ≡ true → hex_char (if leb b'A' c && leb c b'Z' then c + 32 else c) ≡ true
unfolding hex_char is_digit
hex_char-lower c h = ground arith

all-lower : (t : Text) → all hex_char t ≡ true → all hex_char (ascii_lower t) ≡ true
unfolding ascii_lower
all-lower [] h = refl
all-lower (c ∷ cs) h =
    rw (hex_char-lower c (&&-left (hex_char c) _ h), all-lower cs (&&-right (hex_char c) _ h)) refl

pub is_device-lower : (t : Text) → is_device t ≡ true → is_device (ascii_lower t) ≡ true
unfolding is_device
is_device-lower t h =
    rw (all-lower t (&&-left (all hex_char t) _ h), length-lower t) (&&-right (all hex_char t) _ h)
