-- ===== src/Opack/Plain.antt =====
-- The values that OPACK2 brings back as they were.
use appium_ios_remotexpc.Prelude.{ℕ, suc, ◌≤◌, ◌<◌, ◌≡◌, refl, sym, ap, ◌≢◌, length}
use Prim.Native.Nat.{max}
use appium_ios_remotexpc.Opack.Value.{
  Platform, Value, Items, Fields, null, undefined, bool, num, str, buf, arr, obj, nil, cons, end,
  field, count,
}
use appium_ios_remotexpc.Opack.Headers.{IsNumber}

module _ {T N : Type 0} where
  unfoldable mutual
    pub depth : Value T N → ℕ
    depth null = 1
    depth undefined = 1
    depth (bool b) = 1
    depth (num x) = 1
    depth (str t) = 1
    depth (buf b) = 1
    depth (arr vs) = suc (depth_items vs)
    depth (obj fs) = suc (depth_fields fs)

    pub depth_items : Items T N → ℕ
    depth_items nil = 1
    depth_items (cons v vs) = max (depth v) (depth_items vs)

    pub depth_fields : Fields T N → ℕ
    depth_fields end = 1
    depth_fields (field k v fs) = max (depth v) (depth_fields fs)

  abbrev pub NoNulls : Items T N → Type 0
  NoNulls nil = Unit {0}
  NoNulls (cons v vs) = (v ≢ null) × NoNulls vs

  -- No entry has the key.
  abbrev pub Fresh : T → Fields T N → Type 0
  Fresh k end = Unit {0}
  Fresh k (field j v fs) = (j ≢ k) × Fresh k fs

  abbrev pub HasDistinctKeys : Fields T N → Type 0
  HasDistinctKeys end = Unit {0}
  HasDistinctKeys (field k v fs) = Fresh k fs × HasDistinctKeys fs

  abbrev pub append : Fields T N → Fields T N → Fields T N
  append end gs = gs
  append (field k v fs) gs = field k v (append fs gs)

  -- No key of the first is one of the second.
  abbrev pub NewIn : Fields T N → Fields T N → Type 0
  NewIn end acc = Unit {0}
  NewIn (field k v fs) acc = Fresh k acc × NewIn fs acc

  pub Fresh-append :
      (j k : T) (v : Value T N) (acc : Fields T N)
      → Fresh j acc
      → k ≢ j
      → Fresh j (append acc (field k v end))
  Fresh-append j k v end h ne = (ne, tt)
  Fresh-append j k v (field i w acc) h ne = (h.0, Fresh-append j k v acc h.1 ne)

  pub NewIn-append :
      (fs acc : Fields T N) (k : T) (v : Value T N)
      → NewIn fs acc
      → Fresh k fs
      → NewIn fs (append acc (field k v end))
  NewIn-append end acc k v h f = tt
  NewIn-append (field j w fs) acc k v h f =
      (Fresh-append j k v acc h.0 (λ e. f.0 (sym e)), NewIn-append fs acc k v h.1 f.1)

  pub append_assoc_one :
      (acc fs : Fields T N) (k : T) (v : Value T N)
      → append (append acc (field k v end)) fs ≡ append acc (field k v fs)
  append_assoc_one end fs k v = refl
  append_assoc_one (field j w acc) fs k v = ap (field j w) (append_assoc_one acc fs k v)

  pub NewIn-end : (fs : Fields T N) → NewIn fs end
  NewIn-end end = tt
  NewIn-end (field k v fs) = (tt, NewIn-end fs)

module _ (p : Platform) where
  open p use {Text, Number, to_utf8, of_utf8, to_uint, text_eq}

  -- A string without lone surrogates that a length of 32 bits can describe.
  abbrev pub IsText : Text → Type 0
  IsText t = (of_utf8 (to_utf8 t) ≡ t) × (length (to_utf8 t) ≤ 0xffff_ffff)

  -- The values that come back as they were. An array of 15 items and a null in an array of 16 or
  -- more do not (`Opack.Limits`), and `undefined` comes back as null.
  unfoldable mutual
    pub IsPlain : Value Text Number → Type 0
    IsPlain null = Unit {0}
    IsPlain undefined = ⊥
    IsPlain (bool b) = Unit {0}
    IsPlain (num x) = IsNumber p x (to_uint x)
    IsPlain (str t) = IsText t
    IsPlain (buf b) = length b ≤ 0xffff_ffff
    IsPlain (arr vs) = (count vs ≢ 15) × (15 < count vs → NoNulls vs) × ArePlain vs
    IsPlain (obj fs) = HasDistinctKeys fs × HavePlain fs

    pub ArePlain : Items Text Number → Type 0
    ArePlain nil = Unit {0}
    ArePlain (cons v vs) = IsPlain v × ArePlain vs

    pub HavePlain : Fields Text Number → Type 0
    HavePlain end = Unit {0}
    HavePlain (field k v fs) = IsText k × IsPlain v × HavePlain fs
