-- ===== src/Bindings/Qrcode.antt =====
-- `generate_qrcode` of extra-cpp-bindings/src/lib.rs: the picture of a QR code with a border of two light
-- modules. The crate `qrcodegen` is a parameter.
pub mod Pixels
use play_cpp_sdk.Prelude.{
  ℕ, zero, suc, ◌+◌, ◌*◌, ◌%◌, ◌^◌, Bool, Option, none, some, List, [], ◌∷◌, ◌++◌, length, ltb,
  ◌==◌, if◌then◌else◌,
}
use play_cpp_sdk.Prelude.Text.{Text, Bytes}
use play_cpp_sdk.Rust.Effect.{Result, ok, err, panic}
use play_cpp_sdk.V1.Protocol.{I64, pos, negsuc}

-- A code: the modules of a side, and whether a module is dark, at a column and a row.
pub record QrCode : Type 0 where
  pub size : ℕ
  pub get_module : I64 → I64 → Bool

pub record WalletQrcode : Type 0 where
  pub qrcode : Text
  pub image : Bytes
  pub size : ℕ

abbrev pub u32_mod : ℕ
u32_mod = 2 ^ 32

abbrev border : ℕ
border = 2

-- `x + 1`.
abbrev pub successor : I64 → I64
successor (pos n) = pos (suc n)
successor (negsuc zero) = pos 0
successor (negsuc (suc n)) = negsuc n

-- `n` numbers from one on.
abbrev pub range : I64 → ℕ → List I64
range lo zero = []
range lo (suc n) = lo ∷ range (successor lo) n

abbrev pub light_byte : Bool → ℕ
light_byte dark = if dark then 0 else 1

abbrev pub row : QrCode → I64 → List I64 → Bytes
row qr y [] = []
row qr y (x ∷ xs) = light_byte (qr.get_module x y) ∷ row qr y xs

abbrev pub rows : QrCode → List I64 → List I64 → Bytes
rows qr [] xs = []
rows qr (y ∷ ys) xs = row qr y xs ++ rows qr ys xs

-- `-border..qr.size() + border`.
abbrev pub coordinates : QrCode → List I64
coordinates qr = range (negsuc 1) (qr.size + border * 2)

-- A multiplication that leaves `u32` panics, and so does an `assert!` that fails.
unfoldable pub draw : Text → QrCode → Result (Unit {0}) WalletQrcode
draw qrcodestring qr =
    let size = (qr.size + border * 2) % u32_mod in
    let image = rows qr (coordinates qr) (coordinates qr) in
    if ltb (size * size) u32_mod
    then (if length image % u32_mod == size * size
        then ok (record { qrcode = qrcodestring; image = image; size = size })
        else panic)
    else panic

-- `QrCode::encode_text(text, QrCodeEcc::Medium)` is an argument; it fails on a text that is too long.
unfoldable pub generate_qrcode : (Text → Option QrCode) → Text → Result (Unit {0}) WalletQrcode
unfolding draw
generate_qrcode encode_text qrcodestring = drawn (encode_text qrcodestring)
  where
    drawn : Option QrCode → Result (Unit {0}) WalletQrcode
    drawn none = err tt
    drawn (some qr) = draw qrcodestring qr
