-- ===== src/Bindings/Qrcode/Pixels.antt =====
-- The pixels of the picture of a QR code.
use play_cpp_sdk.Prelude.{
  ℕ, zero, suc, ◌+◌, ◌*◌, ◌%◌, ◌≤◌, ◌<◌, ◌≡◌, refl, Option, some, List, [], ◌∷◌, ◌++◌, length,
  arith, get_elem?, ap, ◌∙◌, length-append,
}
use native.Mathlib.Nat.{mul-le-mul_left}
use play_cpp_sdk.Prelude.Text.{Text, Bytes}
use play_cpp_sdk.Rust.Effect.{ok}
use play_cpp_sdk.V1.Protocol.{I64, pos, negsuc}
use play_cpp_sdk.Bindings.Qrcode.{
  QrCode, WalletQrcode, u32_mod, successor, range, light_byte, row, rows, coordinates, draw,
  generate_qrcode,
}

-- The column or row of a pixel: the border comes first.
abbrev pub module_at : ℕ → I64
module_at zero = negsuc 1
module_at (suc zero) = negsuc 0
module_at (suc (suc n)) = pos n

successor-module_at : (i : ℕ) → successor (module_at i) ≡ module_at (suc i)
successor-module_at zero = refl
successor-module_at (suc zero) = refl
successor-module_at (suc (suc n)) = refl

square_bound : (n : ℕ) → n ≤ 181 → n * n ≤ 32761
square_bound n h = let a = mul-le-mul_left n h in omega arith

length-range : (lo : I64) (n : ℕ) → length (range lo n) ≡ n
length-range lo zero = refl
length-range lo (suc n) = ap suc (length-range (successor lo) n)

get-range :
    (start n i k : ℕ)
    → i < n
    → k ≡ start + i
    → get_elem? (range (module_at start) n) i ≡ some (module_at k)
get-range start zero i k h e = absurd (omega arith)
get-range start (suc n) zero k h e = ap (λ m. some (module_at m)) (omega arith)
get-range start (suc n) (suc i) k h e =
    rw (successor-module_at start) (get-range (suc start) n i k (omega arith) (omega arith))

module _ (qr : QrCode) where
  length-row : (y : I64) (xs : List I64) → length (row qr y xs) ≡ length xs
  length-row y [] = refl
  length-row y (x ∷ xs) = ap suc (length-row y xs)

  length-rows : (ys xs : List I64) → length (rows qr ys xs) ≡ length ys * length xs
  length-rows [] xs = omega arith
  length-rows (y ∷ ys) xs =
      let front = length-row y xs in
      let behind = length-rows ys xs in
      let joined = length-append (row qr y xs) (rows qr ys xs) in ground arith

  get-row :
      (y : I64) (xs : List I64) (i : ℕ) (x : I64)
      → get_elem? xs i ≡ some x
      → get_elem? (row qr y xs) i ≡ some (light_byte (qr.get_module x y))
  get-row y [] i x h = absurd (ground arith)
  get-row y (z ∷ xs) zero x h = ground arith
  get-row y (z ∷ xs) (suc i) x h = get-row y xs i x h

  get_row_here :
      (z : I64) (xs : List I64) (i : ℕ) (x y : I64)
      → some z ≡ some y
      → get_elem? xs i ≡ some x
      → get_elem? (row qr z xs) i ≡ some (light_byte (qr.get_module x y))
  get_row_here z xs i x y same hx =
      let at_z = get-row z xs i x hx in let e : z ≡ y = ground arith in ground arith

get-front :
    (xs ys : Bytes) (i : ℕ) (b : ℕ) → get_elem? xs i ≡ some b → get_elem? (xs ++ ys) i ≡ some b
get-front [] ys i b h = absurd (ground arith)
get-front (x ∷ xs) ys zero b h = h
get-front (x ∷ xs) ys (suc i) b h = get-front xs ys i b h

get-behind : (xs ys : Bytes) (i k : ℕ) → k ≡ length xs + i → get_elem? (xs ++ ys) k ≡ get_elem? ys i
get-behind [] ys i k e = ap (get_elem? ys) (omega arith)
get-behind (x ∷ xs) ys i zero e = absurd (omega arith)
get-behind (x ∷ xs) ys i (suc k) e = get-behind xs ys i k (omega arith)

module _ (qr : QrCode) where
  get-rows :
      (ys xs : List I64) (i j k : ℕ) (x y : I64)
      → get_elem? ys j ≡ some y
      → get_elem? xs i ≡ some x
      → k ≡ j * length xs + i
      → get_elem? (rows qr ys xs) k ≡ some (light_byte (qr.get_module x y))
  get-rows [] xs i j k x y hy hx e = absurd (ground arith)
  get-rows (z ∷ ys) xs i zero k x y hy hx e =
      let same : k ≡ i = ground arith in
      rw same (get-front (row qr z xs) (rows qr ys xs) i _ (get_row_here qr z xs i x y hy hx))
  get-rows (z ∷ ys) xs i (suc j) k x y hy hx e =
      let width = length-row qr z xs in
      get-behind (row qr z xs) (rows qr ys xs) (j * length xs + i) k (ground arith)
      ∙ get-rows ys xs i j (j * length xs + i) x y hy hx refl

  -- A picture is made of every code that fits its standard, 177 modules a side, without a panic; it has a
  -- byte for each pixel of a square, row by row, with two more pixels on each side than the code has
  -- modules. The byte is 0 where the module two further left and two further up is dark,
  -- and 1 else.
  pub generate_qrcode_pixels :
      (encode_text : Text → Option QrCode) (qrcodestring : Text)
      → encode_text qrcodestring ≡ some qr
      → qr.size ≤ 177
      → (code : WalletQrcode) × (generate_qrcode encode_text qrcodestring ≡ ok code)
        × (code.qrcode ≡ qrcodestring)
        × (code.size ≡ qr.size + 4)
        × (length code.image ≡ code.size * code.size)
        × ((x y : ℕ)
            → x < code.size
            → y < code.size
            → get_elem? code.image (y * code.size + x)
              ≡ some (light_byte (qr.get_module (module_at x) (module_at y))))
  unfolding generate_qrcode draw
  generate_qrcode_pixels encode_text qrcodestring encoded small =
      let side = length-range (negsuc 1) (qr.size + 4) in
      let area = length-rows qr (coordinates qr) (coordinates qr) in
      (
        record {
          qrcode = qrcodestring;
          image = rows qr (coordinates qr) (coordinates qr);
          size = qr.size + 4;
        },
        drawn (ground arith) (square_bound (qr.size + 4) (omega arith)),
        refl,
        refl,
        ground arith,
        λ x y hx hy.
            get-rows (coordinates qr) (coordinates qr) x y _ (module_at x) (module_at y)
              (get-range 0 (qr.size + 4) y y hy (omega arith))
              (get-range 0 (qr.size + 4) x x hx (omega arith)) (ground arith),
      )
    where
      drawn :
          length (rows qr (coordinates qr) (coordinates qr)) ≡ (qr.size + 4) * (qr.size + 4)
          → (qr.size + 4) * (qr.size + 4) ≤ 32761
          → generate_qrcode encode_text qrcodestring
            ≡ ok (record {
              qrcode = qrcodestring;
              image = rows qr (coordinates qr) (coordinates qr);
              size = qr.size + 4;
            })
      drawn area bound =
          let fits : (qr.size + 4) % u32_mod ≡ qr.size + 4 = omega arith in
          let whole : (qr.size + 4) * (qr.size + 4) % u32_mod ≡ (qr.size + 4) * (qr.size + 4) =
            ground arith in
          rw encoded (rw fits (rw area (ground arith)))
