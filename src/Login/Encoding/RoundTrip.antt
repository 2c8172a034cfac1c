-- ===== src/Login/Encoding/RoundTrip.antt =====
-- services/oidcClient.ts: a text of `base64Url` is fit for a URL, and its bytes can be read back.
use kaims_latest.Prelude.{
  ℕ, ◌+◌, ◌-◌, ◌*◌, ◌/◌, ◌%◌, ◌<◌, ◌≡◌, refl, ap, sym, subst, ◌∙◌, true, false, not, [], ◌∷◌,
  filter, length, ltb, ◌==◌, if◌then◌else◌, arith, All,
}
use kaims_latest.Js.Text.{Text, replace_all, replace_unit}
use kaims_latest.Login.Encoding.{base64_unit, btoa, base64_url, IsByte, is_unreserved}

-- The unit that stands for six bits in a text of `base64Url`.
abbrev url_unit : ℕ → ℕ
url_unit v = replace_unit 47 95 (replace_unit 43 45 (base64_unit v))

url_unit_kept : (v : ℕ) → v < 64 → (url_unit v == 61) ≡ false
unfolding base64_unit replace_unit
url_unit_kept v h = ground arith

is_unreserved-url_unit : (v : ℕ) → v < 64 → is_unreserved (url_unit v) ≡ true
unfolding base64_unit replace_unit
is_unreserved-url_unit v h = ground arith

-- What a unit of a text of `base64Url` stands for, and the bytes of such a text.
abbrev pub bits_of : ℕ → ℕ
bits_of u =
    if u == 45
    then 62
    else if u == 95
    then 63
    else if ltb u 65
    then u + 4
    else if ltb u 97
    then u - 65
    else u - 71

abbrev pub decode : Text → Text
decode [] = []
decode (p ∷ []) = []
decode (p ∷ q ∷ []) = (bits_of p * 4 + bits_of q / 16) ∷ []
decode (p ∷ q ∷ r ∷ []) =
    (bits_of p * 4 + bits_of q / 16) ∷ (bits_of q % 16 * 16 + bits_of r / 4) ∷ []
decode (p ∷ q ∷ r ∷ s ∷ units) =
    (bits_of p * 4 + bits_of q / 16)
    ∷ (bits_of q % 16 * 16 + bits_of r / 4)
    ∷ (bits_of r % 4 * 64 + bits_of s)
    ∷ decode units

bits_of-url_unit : (v : ℕ) → v < 64 → bits_of (url_unit v) ≡ v
unfolding base64_unit replace_unit
bits_of-url_unit v h = ground arith

-- The first units of a text, where no `=` stands among them.
keeps :
    (v : ℕ) (units : Text)
    → v < 64
    → filter (λ u. not (u == 61)) (url_unit v ∷ units)
      ≡ url_unit v ∷ filter (λ u. not (u == 61)) units
keeps v units h = rw (url_unit_kept v h) refl

base64_url-three :
    (a b c : ℕ) (bytes : Text)
    → IsByte a
    → IsByte b
    → IsByte c
    → base64_url (a ∷ b ∷ c ∷ bytes)
      ≡ url_unit (a / 4)
        ∷ url_unit (a % 4 * 16 + b / 16)
        ∷ url_unit (b % 16 * 4 + c / 64)
        ∷ url_unit (c % 64)
        ∷ base64_url bytes
unfolding base64_url btoa replace_all
base64_url-three a b c bytes ha hb hc =
    rw
      (
        url_unit_kept (a / 4) (omega arith),
        url_unit_kept (a % 4 * 16 + b / 16) (omega arith),
        url_unit_kept (b % 16 * 4 + c / 64) (omega arith),
        url_unit_kept (c % 64) (omega arith),
      )
      refl

base64_url-two :
    (a b : ℕ)
    → IsByte a
    → IsByte b
    → base64_url (a ∷ b ∷ [])
      ≡ url_unit (a / 4) ∷ url_unit (a % 4 * 16 + b / 16) ∷ url_unit (b % 16 * 4) ∷ []
unfolding base64_url btoa replace_all replace_unit
base64_url-two a b ha hb =
    rw
      (
        url_unit_kept (a / 4) (omega arith),
        url_unit_kept (a % 4 * 16 + b / 16) (omega arith),
        url_unit_kept (b % 16 * 4) (omega arith),
      )
      refl

base64_url-one :
    (a : ℕ) → IsByte a → base64_url (a ∷ []) ≡ url_unit (a / 4) ∷ url_unit (a % 4 * 16) ∷ []
unfolding base64_url btoa replace_all replace_unit
base64_url-one a ha =
    rw (url_unit_kept (a / 4) (omega arith), url_unit_kept (a % 4 * 16) (omega arith)) refl

-- The bits that the units of one, two or three bytes stand for make up the bytes.
first : (a rest : ℕ) → IsByte a → rest < 16 → a / 4 * 4 + (a % 4 * 16 + rest) / 16 ≡ a
first a rest h k = omega arith

second :
    (a b rest : ℕ)
    → IsByte b
    → rest < 4
    → (a % 4 * 16 + b / 16) % 16 * 16 + (b % 16 * 4 + rest) / 4 ≡ b
second a b rest h k = omega arith

first_alone : (a : ℕ) → IsByte a → a / 4 * 4 + a % 4 * 16 / 16 ≡ a
first_alone a h = omega arith

second_alone : (a b : ℕ) → IsByte b → (a % 4 * 16 + b / 16) % 16 * 16 + b % 16 * 4 / 4 ≡ b
second_alone a b h = omega arith

third : (b c : ℕ) → IsByte c → (b % 16 * 4 + c / 64) % 4 * 64 + c % 64 ≡ c
third b c h = omega arith

decode-one : (a : ℕ) → IsByte a → decode (url_unit (a / 4) ∷ url_unit (a % 4 * 16) ∷ []) ≡ a ∷ []
decode-one a ha =
    rw (bits_of-url_unit (a / 4) (omega arith), bits_of-url_unit (a % 4 * 16) (omega arith))
      (ap (λ x. x ∷ []) (first_alone a ha))

decode-two :
    (a b : ℕ)
    → IsByte a
    → IsByte b
    → decode (url_unit (a / 4) ∷ url_unit (a % 4 * 16 + b / 16) ∷ url_unit (b % 16 * 4) ∷ [])
      ≡ a ∷ b ∷ []
decode-two a b ha hb =
    rw
      (
        bits_of-url_unit (a / 4) (omega arith),
        bits_of-url_unit (a % 4 * 16 + b / 16) (omega arith),
        bits_of-url_unit (b % 16 * 4) (omega arith),
        first a (b / 16) ha (omega arith),
      )
      (ap (λ x. a ∷ x ∷ []) (second_alone a b hb))

decode-three :
    (a b c : ℕ) (units : Text)
    → IsByte a
    → IsByte b
    → IsByte c
    → decode (
        url_unit (a / 4)
        ∷ url_unit (a % 4 * 16 + b / 16)
        ∷ url_unit (b % 16 * 4 + c / 64)
        ∷ url_unit (c % 64)
        ∷ units)
      ≡ a ∷ b ∷ c ∷ decode units
decode-three a b c units ha hb hc =
    rw
      (
        bits_of-url_unit (a / 4) (omega arith),
        bits_of-url_unit (a % 4 * 16 + b / 16) (omega arith),
        bits_of-url_unit (b % 16 * 4 + c / 64) (omega arith),
        bits_of-url_unit (c % 64) (omega arith),
        first a (b / 16) ha (omega arith),
        second a b (c / 64) hb (omega arith),
        third b c hc,
      )
      refl

-- The bytes of a text that `base64Url` made are the ones it was made of, so different random bytes
-- give different verifiers and states.
pub decode-base64_url : (bytes : Text) → All IsByte bytes → decode (base64_url bytes) ≡ bytes
unfolding base64_url btoa replace_all
decode-base64_url [] h = refl
decode-base64_url (a ∷ []) h = rw (base64_url-one a h.0) (decode-one a h.0)
decode-base64_url (a ∷ b ∷ []) h = rw (base64_url-two a b h.0 h.1.0) (decode-two a b h.0 h.1.0)
decode-base64_url (a ∷ b ∷ c ∷ bytes) h =
    ap decode (base64_url-three a b c bytes h.0 h.1.0 h.1.1.0)
    ∙ decode-three a b c (base64_url bytes) h.0 h.1.0 h.1.1.0
    ∙ ap (λ t. a ∷ b ∷ c ∷ t) (decode-base64_url bytes h.1.1.1)

-- A text of `base64Url` holds letters, digits, `-` and `_` only, so it stands in a URL as it is.
pub base64_url-unreserved :
    (bytes : Text) → All IsByte bytes → All (λ u. is_unreserved u ≡ true) (base64_url bytes)
unfolding base64_url btoa replace_all
base64_url-unreserved [] h = tt
base64_url-unreserved (a ∷ []) h = rw (base64_url-one a h.0) (
  is_unreserved-url_unit (a / 4) (omega (arith, h.0)),
  (is_unreserved-url_unit (a % 4 * 16) (omega arith), tt),
)
base64_url-unreserved (a ∷ b ∷ []) h = rw (base64_url-two a b h.0 h.1.0) (
  is_unreserved-url_unit (a / 4) (omega (arith, h.0)),
  (
    is_unreserved-url_unit (a % 4 * 16 + b / 16) (omega (arith, h.1.0)),
    (is_unreserved-url_unit (b % 16 * 4) (omega arith), tt),
  ),
)
base64_url-unreserved (a ∷ b ∷ c ∷ bytes) h =
    subst (All (λ u. is_unreserved u ≡ true)) (sym (base64_url-three a b c bytes h.0 h.1.0 h.1.1.0))
      (
        is_unreserved-url_unit (a / 4) (omega (arith, h.0)),
        (
          is_unreserved-url_unit (a % 4 * 16 + b / 16) (omega (arith, h.1.0)),
          (
            is_unreserved-url_unit (b % 16 * 4 + c / 64) (omega (arith, h.1.1.0)),
            (is_unreserved-url_unit (c % 64) (omega arith), base64_url-unreserved bytes h.1.1.1),
          ),
        ),
      )

-- Three bytes are four units, with nothing to fill up.
pub length-base64_url :
    (bytes : Text) (n : ℕ)
    → All IsByte bytes
    → length bytes ≡ 3 * n
    → length (base64_url bytes) ≡ 4 * n
unfolding base64_url btoa replace_all
length-base64_url [] n h k = omega (arith, k)
length-base64_url (a ∷ []) n h k = omega (arith, k)
length-base64_url (a ∷ b ∷ []) n h k = omega (arith, k)
length-base64_url (a ∷ b ∷ c ∷ bytes) n h k =
    rw (base64_url-three a b c bytes h.0 h.1.0 h.1.1.0)
      (omega (arith, k, length-base64_url bytes (n - 1) h.1.1.1 (omega (arith, k))))
