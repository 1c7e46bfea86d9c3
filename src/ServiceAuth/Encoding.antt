-- ===== src/ServiceAuth/Encoding.antt =====
-- The UTF-8 encoding tells texts apart (`verify_service_token`, plugshub_common/service_auth.py).
use plugshub_common.Common.{ℕ, ◌<◌, ◌≡◌, refl, sym, ◌≢◌, List, [], ◌∷◌, ◌++◌, arith, All}
use plugshub_common.Text.{Text}
use plugshub_common.ServiceAuth.{encode_char, encode}

-- Python's texts hold code points below this bound.
abbrev pub AreCodePoints : Text → Type 0
AreCodePoints = All (λ c. c < 1114112)

-- Two encodings with the same bytes start with the same code point.
encode_char_prefix :
    (c d : ℕ) (s t : List ℕ)
    → c < 1114112
    → d < 1114112
    → encode_char c ++ s ≡ encode_char d ++ t
    → (c ≡ d) × (s ≡ t)
unfolding encode_char
encode_char_prefix c d s t hc hd h = ground arith

encode_empty : (c : ℕ) (s : Text) → encode (c ∷ s) ≢ []
unfolding encode encode_char
encode_empty c s = ground arith

pub encode_injective :
    (s t : Text) → AreCodePoints s → AreCodePoints t → encode s ≡ encode t → s ≡ t
unfolding encode
encode_injective [] [] hs ht h = refl
encode_injective [] (d ∷ t) hs ht h = absurd (encode_empty d t (sym h))
encode_injective (c ∷ s) [] hs ht h = absurd (encode_empty c s h)
encode_injective (c ∷ s) (d ∷ t) (hc, hs) (hd, ht) h =
    let (e, rest) = encode_char_prefix c d (encode s) (encode t) hc hd h in
    ground (arith, e, encode_injective s t hs ht rest)
