-- ===== src/Login/Encoding.antt =====
-- services/oidcClient.ts: `base64Url`, on which the verifier, its challenge and the state stand.
pub mod RoundTrip
use kaims_latest.Prelude.{
  ℕ, ◌+◌, ◌-◌, ◌*◌, ◌/◌, ◌%◌, ◌≤◌, ◌<◌, ◌≡◌, refl, ap, ◌∙◌, Bool, true, false, not, ◌&&◌, ◌||◌,
  List, [], ◌∷◌, filter, length, ltb, leb, ◌==◌, if◌then◌else◌, arith, All,
}
use kaims_latest.Js.Text.{Text, replace_all, replace_unit}

-- The standard alphabet of base64: `A` to `Z`, `a` to `z`, `0` to `9`, `+` and `/`.
unfoldable pub base64_unit : ℕ → ℕ
base64_unit v =
    if ltb v 26
    then 65 + v
    else if ltb v 52
    then 71 + v
    else if ltb v 62
    then v - 4
    else if v == 62
    then 43
    else 47

-- `btoa`: three bytes are four units, and `=` fills the last four up.
unfoldable pub btoa : Text → Text
unfolding base64_unit
btoa [] = []
btoa (a ∷ []) = base64_unit (a / 4) ∷ base64_unit (a % 4 * 16) ∷ 61 ∷ 61 ∷ []
btoa (a ∷ b ∷ []) =
    base64_unit (a / 4) ∷ base64_unit (a % 4 * 16 + b / 16) ∷ base64_unit (b % 16 * 4) ∷ 61 ∷ []
btoa (a ∷ b ∷ c ∷ bytes) =
    base64_unit (a / 4)
    ∷ base64_unit (a % 4 * 16 + b / 16)
    ∷ base64_unit (b % 16 * 4 + c / 64)
    ∷ base64_unit (c % 64)
    ∷ btoa bytes

unfoldable pub base64_url : Text → Text
unfolding btoa replace_all
base64_url bytes = filter (λ u. not (u == 61)) (replace_all 47 95 (replace_all 43 45 (btoa bytes)))

-- A byte, and a unit that a URL and RFC 7636 take as it is: a letter, a digit, `-` or `_`.
abbrev pub IsByte : ℕ → Type 0
IsByte b = b < 256

abbrev pub is_unreserved : ℕ → Bool
is_unreserved u =
    leb 65 u && leb u 90 || leb 97 u && leb u 122 || leb 48 u && leb u 57 || u == 45 || u == 95
