-- ===== src/Opack/Limits.antt =====
-- Arrays that do not come back: `encodeArray` counts 15 items into the marker, which is then the
-- marker of an array that a null ends; and a null inside such an array ends it.
use appium_ios_remotexpc.Prelude.{
  ℕ, zero, suc, ◌≤◌, ◌<◌, ◌≡◌, refl, sym, ap, ◌∙◌, ◌≢◌, [], ◌∷◌, ◌++◌, append_assoc, arith, ◌==◌,
  gt→leb, ne→==, length, length-append,
}
use appium_ios_remotexpc.Prelude.Result.{Result, ok, err, stuck, ◌>>=◌, guard}
use appium_ios_remotexpc.Prelude.Bytes.{Bytes}
use appium_ios_remotexpc.Opack.Value.{
  Platform, IsPlatform, Value, Items, null, arr, nil, cons, count, Error, unexpected_end,
  trailing_bytes,
}
use appium_ios_remotexpc.Opack.Encode.{encode, encode_items, dumps, wrap_items}
use appium_ios_remotexpc.Opack.Decode.{
  decode_variable_items, classify, decode_marked, decode, loads,
}
use appium_ios_remotexpc.Opack.Plain.{depth_items, NoNulls, ArePlain}
use appium_ios_remotexpc.Opack.ItemsRound.{Round, ItemsRound, is_null-false}
use appium_ios_remotexpc.Opack.RoundTrip.{value-Round, items_round}

abbrev pub append_items : {T N : Type 0} → Items T N → Items T N → Items T N
append_items nil ws = ws
append_items (cons v vs) ws = cons v (append_items vs ws)

module _ (p : Platform) where
  open p use {Text, Number}

  error_step :
      (dec : Bytes → Result Error (Value Text Number × Bytes)) (g : ℕ) (v : Value Text Number)
      (b b' : Bytes)
      → dec b ≡ ok (v, b')
      → v ≢ null
      → decode_variable_items p dec g b' ≡ err unexpected_end
      → decode_variable_items p dec (suc g) b ≡ err unexpected_end
  unfolding decode_variable_items
  error_step dec g v b b' e ne h = ground (arith, is_null-false p v ne)

  end_step : (f g : ℕ) → decode_variable_items p (decode p (suc f)) (suc g) [] ≡ err unexpected_end
  unfolding decode_variable_items decode
  end_step f g = refl

  -- Items with nothing behind them: the loop reads them all and then past the end.
  Unended : Items Text Number → Type 0
  Unended vs =
      (b : Bytes) × (encode_items p vs ≡ ok b)
      × (count vs ≤ length b)
      × (depth_items vs ≤ suc (length b))
      × ((f g : ℕ)
          → depth_items vs ≤ f
          → count vs < g
          → decode_variable_items p (decode p f) g b ≡ err unexpected_end)

  unended : IsPlatform p → (vs : Items Text Number) → ArePlain p vs → NoNulls vs → Unended vs
  unfolding Unended ArePlain depth_items encode_items Round
  unended laws nil a n = ([], refl, omega arith, omega arith, last)
    where
      last :
          (f g : ℕ) → 1 ≤ f → 0 < g → decode_variable_items p (decode p f) g [] ≡ err unexpected_end
      last zero g h k = absurd (omega arith)
      last (suc f) zero h k = absurd (omega arith)
      last (suc f) (suc g) h k = end_step f g
  unended laws (cons v vs) a n =
      let (b, e, d, l, r) = value-Round p laws v a.0 in
      let (bs, es, ls, ds, rs) = unended laws vs a.1 n.1 in
      (
        b ++ bs,
        rw (e, es),
        omega (arith, length-append {0} b bs),
        omega (arith, length-append {0} b bs),
        λ f g h k.
            let (g', eg) = pred_of g (omega arith) in
            rw eg (
              error_step (decode p f) g' v (b ++ bs) bs (r f bs (omega arith)) n.0
                (rs f g' (omega arith) (omega arith))),
      )
    where
      pred_of : (g : ℕ) → 0 < g → (h : ℕ) × (g ≡ suc h)
      pred_of zero h = absurd (omega arith)
      pred_of (suc g) h = (g, refl)

  -- `dumps` writes an array of 15 items, each plain and none of them null, and `loads` then throws:
  -- the payload ends where the loop looks for the null that ends the array.
  pub loads-dumps_fifteen :
      IsPlatform p
      → (vs : Items Text Number) → count vs ≡ 15
      → ArePlain p vs
      → NoNulls vs
      → (b : Bytes) × (dumps p (arr vs) ≡ ok b) × (loads p b ≡ err unexpected_end)
  unfolding Unended dumps encode wrap_items
  loads-dumps_fifteen laws vs c a n =
      let (b, e, l, d, r) = unended laws vs a n in
      (
        0xdf ∷ b,
        rw (e, c),
        unfold loads decode decode_marked classify in
            rw (r (suc (length b)) (suc (length b)) d (omega arith)),
      )

  encode_items-append :
      (vs ws : Items Text Number)
      → encode_items p (append_items vs ws)
        ≡ (encode_items p vs >>= λ b. encode_items p ws >>= λ c. ok (b ++ c))
  unfolding encode_items
  encode_items-append nil ws = unit (encode_items p ws)
    where
      unit : (r : Result Error Bytes) → r ≡ (r >>= λ c. ok c)
      unit (ok c) = refl
      unit (err e) = refl
      unit stuck = refl
  encode_items-append (cons v vs) ws =
      rw (encode_items-append vs ws) (assoc (encode p v) (encode_items p vs) (encode_items p ws))
    where
      assoc :
          (x y z : Result Error Bytes)
          → (x >>= λ a. (y >>= λ b. z >>= λ c. ok (b ++ c)) >>= λ d. ok (a ++ d))
            ≡ ((x >>= λ a. y >>= λ b. ok (a ++ b)) >>= λ d. z >>= λ c. ok (d ++ c))
      assoc (ok a) (ok b) (ok c) = ap ok (sym (append_assoc a b c))
      assoc (ok a) (ok b) (err e) = refl
      assoc (ok a) (ok b) stuck = refl
      assoc (ok a) (err e) z = refl
      assoc (ok a) stuck z = refl
      assoc (err e) y z = refl
      assoc stuck y z = refl

  -- An array of 16 items or more with a null among them: `dumps` writes it, and `loads` throws, for
  -- it takes the first null for the end and finds bytes behind it.
  pub loads-dumps_null :
      IsPlatform p
      → (vs ws : Items Text Number) → 15 < count (append_items vs (cons null ws))
      → ArePlain p vs
      → NoNulls vs
      → ArePlain p ws
      → (b : Bytes) × (dumps p (arr (append_items vs (cons null ws))) ≡ ok b)
        × (loads p b ≡ err trailing_bytes)
  unfolding ItemsRound dumps encode wrap_items
  loads-dumps_null laws vs ws many a n w =
      let (b, e, d, l, r, q) = items_round p laws vs a in
      let (c, ec, dc, lc, rc, qc) = items_round p laws ws w in
      let rest = c ++ (3 ∷ []) in
      let whole : encode_items p (append_items vs (cons null ws)) ≡ ok (b ++ (3 ∷ c)) =
        encode_items-append vs (cons null ws) ∙ rw (e, ec) in
      let size = length-append b (3 ∷ rest) in
      (
        0xdf ∷ ((b ++ (3 ∷ c)) ++ (3 ∷ [])),
        rw (whole, gt→leb _ 15 many),
        rw append_assoc (
            unfold loads decode decode_marked classify in
            rw
              (q n (suc (length (b ++ (3 ∷ rest)))) (suc (length (b ++ (3 ∷ rest)))) rest
                (omega arith) (omega arith))
              (long c)),
      )
    where
      long :
          (c : Bytes)
          → (guard (length (c ++ (3 ∷ [])) == 0) trailing_bytes >>= λ _. ok (arr vs))
            ≡ err trailing_bytes
      long [] = refl
      long (x ∷ c) = rw (ne→== (suc (length (c ++ (3 ∷ [])))) 0 (omega arith))
