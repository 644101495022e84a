-- ===== src/Framing.antt =====
-- Streams of frames that begin with a header of fixed size in which their total size stands: the
-- loop that the HTTP/2 parser and the usbmux decoder run on their buffer, and what it guarantees.
use appium_ios_remotexpc.Prelude.{
  ℕ, zero, suc, ◌≤◌, ◌<◌, ◌≡◌, refl, sym, ap, ◌∙◌, ◌≢◌, Bool, true, false, ◌&&◌, List, [], ◌∷◌,
  ◌++◌, append-nil, append_assoc, arith, leb, le→leb, gt→leb, length, take, drop, concat,
  length-append, length-drop, take-append, drop-append, take-length, drop-length,
}
use appium_ios_remotexpc.Prelude.Result.{Result, ok, err, stuck, ◌>>=◌}
use appium_ios_remotexpc.Prelude.Bytes.{Bytes}
use mathlib.Core.Path.{fun_ext}

-- How the frames of a stream are found and read.
pub record Framing (E A : Type 0) : Type 0 where
  pub header_size : ℕ
  pub total_size : Bytes → ℕ
  pub read : Bytes → Result E A

-- The total size stands in the header, and a frame that can be read has bytes; reading one ends.
pub record IsFraming {E A : Type 0} (s : Framing E A) : Type 0 where
  pub total_size-append :
      (a b : Bytes) → s.header_size ≤ length a → s.total_size (a ++ b) ≡ s.total_size a
  pub some_bytes :
      (b : Bytes) (x : A) → s.read (take (s.total_size b) b) ≡ ok x → 0 < s.total_size b
  pub read-ne-stuck : (a : Bytes) → s.read a ≢ stuck

module _ {E A : Type 0} (s : Framing E A) where
  open s use {header_size, total_size, read}

  -- Whether a frame has arrived in full.
  unfoldable pub has_frame : Bytes → Bool
  has_frame b = leb header_size (length b) && leb (total_size b) (length b)

  -- The frames read, and the buffer left.
  abbrev pub Frames : Type 0
  Frames = List A × Bytes

  abbrev pub put : A → Frames → Frames
  put x (xs, rest) = (x ∷ xs, rest)

  -- A round of the loop, by whether a frame is there and what reading it gives; the rounds behind
  -- it are `continue`.
  abbrev pub round : (Bytes → Result E Frames) → Bytes → Bool → Result E A → Result E Frames
  round continue b true r = r >>= λ x. continue (drop (total_size b) b) >>= λ out. ok (put x out)
  round continue b false r = ok ([], b)

  -- The `while` loop: each round that goes on takes a byte at least.
  unfoldable pub read_frames : ℕ → Bytes → Result E Frames
  read_frames zero b = stuck
  read_frames (suc fuel) b = round (read_frames fuel) b (has_frame b) (read (take (total_size b) b))

  -- The loop on a whole buffer.
  unfoldable pub read_buffer : Bytes → Result E Frames
  read_buffer b = read_frames (suc (length b)) b

  -- A new chunk joins the buffer; and a stream of chunks.
  unfoldable pub accept : Bytes → Bytes → Result E Frames
  accept buffer chunk = read_buffer (buffer ++ chunk)

  unfoldable pub accept_all : Bytes → List Bytes → Result E Frames
  accept_all buffer [] = ok ([], buffer)
  accept_all buffer (chunk ∷ chunks) = do
    (xs, rest) ← accept buffer chunk
    (ys, rest') ← accept_all rest chunks
    ok (xs ++ ys, rest')

  module _ (v : IsFraming s) where
    has_frame-take : (b : Bytes) → has_frame b ≡ true → total_size b ≤ length b
    unfolding has_frame
    has_frame-take b h = ground arith

    left_over :
        (b : Bytes) (x : A)
        → has_frame b ≡ true
        → read (take (total_size b) b) ≡ ok x
        → length (drop (total_size b) b) < length b
    left_over b x h r =
        omega (arith, length-drop {0} (total_size b) b, has_frame-take b h, v.some_bytes b x r)

    round-cong :
        (f g : Bytes → Result E Frames) (b : Bytes)
        → ((x : A)
            → has_frame b ≡ true
            → read (take (total_size b) b) ≡ ok x
            → f (drop (total_size b) b) ≡ g (drop (total_size b) b))
        → round f b (has_frame b) (read (take (total_size b) b))
          ≡ round g b (has_frame b) (read (take (total_size b) b))
    round-cong f g b h = go (has_frame b) (read (take (total_size b) b)) h
      where
        go :
            (c : Bool) (r : Result E A)
            → ((x : A)
                → c ≡ true
                → r ≡ ok x
                → f (drop (total_size b) b) ≡ g (drop (total_size b) b))
            → round f b c r ≡ round g b c r
        go true (ok x) h = ap (λ t. t >>= λ out. ok (put x out)) (h x refl refl)
        go true (err e) h = refl
        go true stuck h = refl
        go false r h = refl

    read_frames-fuel :
        (f g : ℕ) (b : Bytes) → length b < f → length b < g → read_frames f b ≡ read_frames g b
    unfolding read_frames
    read_frames-fuel zero g b hf hg = absurd (omega arith)
    read_frames-fuel (suc f) zero b hf hg = absurd (omega arith)
    read_frames-fuel (suc f) (suc g) b hf hg =
        round-cong (read_frames f) (read_frames g) b (λ x h r.
          read_frames-fuel f g (drop (total_size b) b) (omega (arith, left_over b x h r))
            (omega (arith, left_over b x h r)))

    -- The loop without fuel.
    pub read_buffer-round :
        (b : Bytes)
        → read_buffer b ≡ round read_buffer b (has_frame b) (read (take (total_size b) b))
    unfolding read_buffer read_frames
    read_buffer-round b =
        round-cong (read_frames (length b)) (λ c. read_frames (suc (length c)) c) b
          (λ x h r.
            read_frames-fuel (length b) (suc (length (drop (total_size b) b)))
              (drop (total_size b) b) (left_over b x h r) (omega arith))

    read_frames-ne-stuck : (f : ℕ) (b : Bytes) → length b < f → read_frames f b ≢ stuck
    unfolding read_frames
    read_frames-ne-stuck zero b h = absurd (omega arith)
    read_frames-ne-stuck (suc f) b h =
        go (has_frame b) (read (take (total_size b) b)) (v.read-ne-stuck _) (λ x c r.
          read_frames-ne-stuck f (drop (total_size b) b) (omega (arith, left_over b x c r)))
      where
        added : (x : A) (r : Result E Frames) → r ≢ stuck → (r >>= λ out. ok (put x out)) ≢ stuck
        added x (ok out) h e = cc
        added x (err y) h e = cc
        added x stuck h e = h refl

        go :
            (c : Bool) (r : Result E A)
            → r ≢ stuck
            → ((x : A) → c ≡ true → r ≡ ok x → read_frames f (drop (total_size b) b) ≢ stuck)
            → round (read_frames f) b c r ≢ stuck
        go true (ok x) n h = added x (read_frames f (drop (total_size b) b)) (h x refl refl)
        go true (err e) n h = λ p. cc
        go true stuck n h = λ p. n refl
        go false r n h = λ p. cc

    -- The loop ends on every buffer.
    pub read_buffer-ne-stuck : (b : Bytes) → read_buffer b ≢ stuck
    unfolding read_buffer
    read_buffer-ne-stuck b = read_frames-ne-stuck (suc (length b)) b (omega arith)

    -- What is read later comes behind what has been read.
    abbrev then_read : Bytes → Frames → Result E Frames
    then_read b (xs, rest) = read_buffer (rest ++ b) >>= λ (ys, rest'). ok (xs ++ ys, rest')

    has_frame-append : (a b : Bytes) → has_frame a ≡ true → has_frame (a ++ b) ≡ true
    unfolding has_frame
    has_frame-append a b h =
        let short : header_size ≤ length a = ground arith in
        let all : total_size a ≤ length a = has_frame-take a h in
        rw
          (
            v.total_size-append a b short,
            le→leb header_size (length (a ++ b)) (omega (arith, length-append a b)),
          )
          (le→leb (total_size a) (length (a ++ b)) (omega (arith, length-append a b)))

    has_frame-header : (b : Bytes) → has_frame b ≡ true → header_size ≤ length b
    unfolding has_frame
    has_frame-header b h = ground arith

    put_assoc :
        (b : Bytes) (x : A) (r : Result E Frames)
        → ((r >>= then_read b) >>= λ out. ok (put x out))
          ≡ ((r >>= λ out. ok (put x out)) >>= then_read b)
    put_assoc b x (ok (xs, rest)) = go (read_buffer (rest ++ b))
      where
        go :
            (r : Result E Frames)
            → ((r >>= λ (ys, rest'). ok (xs ++ ys, rest')) >>= λ out. ok (put x out))
              ≡ (r >>= λ (ys, rest'). ok (x ∷ (xs ++ ys), rest'))
        go (ok out) = refl
        go (err e) = refl
        go stuck = refl
    put_assoc b x (err e) = refl
    put_assoc b x stuck = refl

    unput : (r : Result E Frames) → r ≡ (r >>= λ (xs, rest). ok ([] ++ xs, rest))
    unput (ok out) = refl
    unput (err e) = refl
    unput stuck = refl

    -- A round on `a` with more behind it, if the theorem holds of the rest of `a`.
    Continues : Bytes → Bytes → Type 0
    Continues a b =
        length (drop (total_size a) a) < length a
        → read_buffer (drop (total_size a) a ++ b)
          ≡ (read_buffer (drop (total_size a) a) >>= then_read b)

    round-append :
        (a b : Bytes) (r : Result E A)
        → has_frame a ≡ true
        → read (take (total_size a) a) ≡ r
        → Continues a b
        → (r >>= λ x. read_buffer (drop (total_size a) a ++ b) >>= λ out. ok (put x out))
          ≡ (read_buffer a >>= then_read b)
    unfolding Continues
    round-append a b r e p ih = go r p ∙ sym (ap (λ t. t >>= then_read b) whole)
      where
        whole : read_buffer a ≡ round read_buffer a true r
        whole = read_buffer-round a ∙ rw (e, p)

        go :
            (r : Result E A)
            → read (take (total_size a) a) ≡ r
            → (r >>= λ x. read_buffer (drop (total_size a) a ++ b) >>= λ out. ok (put x out))
              ≡ (round read_buffer a true r >>= then_read b)
        go (ok x) p =
            ap (λ t. t >>= λ out. ok (put x out)) (ih (left_over a x e p))
            ∙ put_assoc b x (read_buffer (drop (total_size a) a))
        go (err y) p = refl
        go stuck p = refl

    read_buffer-append :
        (k : ℕ) (a b : Bytes)
        → length a < k
        → read_buffer (a ++ b) ≡ (read_buffer a >>= then_read b)
    unfolding Continues
    read_buffer-append zero a b h = absurd (omega arith)
    read_buffer-append (suc k) a b h =
        go (has_frame a) refl (λ l. read_buffer-append k (drop (total_size a) a) b (omega arith))
      where
        go :
            (c : Bool)
            → has_frame a ≡ c
            → Continues a b
            → read_buffer (a ++ b) ≡ (read_buffer a >>= then_read b)
        go false e ih = unput (read_buffer (a ++ b)) ∙ rw (read_buffer-round a, e)
        go true e ih =
            read_buffer-round (a ++ b)
            ∙ rw
                (
                  has_frame-append a b e,
                  v.total_size-append a b (has_frame-header a e),
                  take-append (total_size a) a b (has_frame-take a e),
                  drop-append (total_size a) a b (has_frame-take a e),
                )
                (round-append a b (read (take (total_size a) a)) e refl ih)

    append_nothing : (r : Result E Frames) → (r >>= λ (xs, rest). ok (xs ++ [], rest)) ≡ r
    append_nothing (ok (xs, rest)) = ap (λ t. ok (t, rest)) (append-nil xs)
    append_nothing (err e) = refl
    append_nothing stuck = refl

    -- Chunk by chunk, a stream gives what it gives at once.
    pub accept_all-eq :
        (buffer chunk : Bytes) (chunks : List Bytes)
        → accept_all buffer (chunk ∷ chunks) ≡ read_buffer (buffer ++ (chunk ++ concat chunks))
    unfolding accept_all accept
    accept_all-eq buffer chunk [] = rw append-nil (append_nothing (read_buffer (buffer ++ chunk)))
    accept_all-eq buffer chunk (c ∷ chunks) =
        ap (λ f. read_buffer (buffer ++ chunk) >>= f)
          (fun_ext (λ out.
            ap (λ r. r >>= λ (ys, rest'). ok (out.0 ++ ys, rest')) (accept_all-eq out.1 c chunks)))
        ∙ sym (
            read_buffer-append (suc (length (buffer ++ chunk))) (buffer ++ chunk)
              (c ++ concat chunks) (omega arith))
        ∙ ap read_buffer (append_assoc buffer chunk (c ++ concat chunks))

    -- A frame in front of anything is read, and what is behind it only if that succeeds.
    pub read_buffer-first :
        (f rest : Bytes)
        → header_size ≤ length f
        → total_size f ≡ length f
        → read_buffer (f ++ rest) ≡ (read f >>= λ x. read_buffer rest >>= λ out. ok (put x out))
    unfolding has_frame
    read_buffer-first f rest h t =
        read_buffer-round (f ++ rest)
        ∙ rw (
          has_frame-append f rest whole,
          v.total_size-append f rest h,
          t,
          take-length (length f) f rest refl,
          drop-length (length f) f rest refl,
        )
      where
        whole : has_frame f ≡ true
        whole = rw (t, le→leb header_size (length f) h) (le→leb (length f) (length f) (omega arith))

    -- A frame that can be read is taken off.
    pub read_buffer-frame :
        (x : A) (f rest : Bytes)
        → header_size ≤ length f
        → total_size f ≡ length f
        → read f ≡ ok x
        → read_buffer (f ++ rest) ≡ (read_buffer rest >>= λ out. ok (put x out))
    read_buffer-frame x f rest h t r = read_buffer-first f rest h t ∙ rw r

    pub read_buffer-nil : 0 < header_size → read_buffer [] ≡ ok ([], [])
    unfolding has_frame
    read_buffer-nil h = read_buffer-round [] ∙ rw (gt→leb header_size 0 h)
