-- ===== src/Tests/Security.antt =====
-- Two bytes as a hexadecimal text.
use liven.Prelude.{◌≡◌, refl, some, [], ◌∷◌, arith}
use liven.Error.{ok}
use liven.Security.{hex_decode, hex_encode}
use liven.Security.Hex.{hex_decode-hex_encode}

hex_decode-hex_encode_example :
    hex_decode (λ s. s) (hex_encode (255 ∷ 7 ∷ [])) ≡ some (ok (255 ∷ 7 ∷ []))
hex_decode-hex_encode_example =
    hex_decode-hex_encode (λ s. s) (255 ∷ 7 ∷ []) (λ s h. refl) (omega arith, (omega arith, tt))
