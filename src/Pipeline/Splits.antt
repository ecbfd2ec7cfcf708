-- ===== src/Pipeline/Splits.antt =====
-- The loops of server/src/pipeline.rs on samples that come in two parts.
use snapcast_client.Prelude.{
  ℕ, zero, suc, ◌+◌, ◌*◌, ◌%◌, ◌≤◌, ◌<◌, ◌≡◌, refl, sym, ap, ◌∙◌, arith, List, [], ◌∷◌, ◌++◌,
  append_assoc, length, length-append, length-drop, take, drop, ℤ, pos, ◌+ℤ◌, ◌≤ℤ◌,
}
use mathlib.Core.List.{map-append}
use snapcast_client.Outcome.{Outcome, ok, err, panic, stuck, ◌>>=◌}
use snapcast_client.Bytes.{Bytes}
use snapcast_client.Bytes.Slices.{drop-drop}
use snapcast_client.Net.Writer.{EncodedChunk}
use snapcast_client.Pipeline.{Codecs, deinterleave, interleave}
use snapcast_client.Pipeline.Frames.{Spaced}
use snapcast_client.Pipeline.Chunks.{frames, payloads, encode_all}
use snapcast_client.Pipeline.Push.{resample_all}

module _ {A : Type 0} where
  take-front : (n : ℕ) (xs ys : List A) → n ≤ length xs → take n (xs ++ ys) ≡ take n xs
  take-front zero xs ys h = refl
  take-front (suc n) [] ys h = absurd (omega arith)
  take-front (suc n) (x ∷ xs) ys h = ap (λ r. x ∷ r) (take-front n xs ys (omega arith))

  drop-front : (n : ℕ) (xs ys : List A) → n ≤ length xs → drop n (xs ++ ys) ≡ drop n xs ++ ys
  drop-front zero xs ys h = refl
  drop-front (suc n) [] ys h = absurd (omega arith)
  drop-front (suc n) (x ∷ xs) ys h = drop-front n xs ys (omega arith)

  -- A call that goes on with a value has got one.
  bind_ok {ℓ} :
      {B : Type ℓ} (m : Outcome A) (f : A → Outcome B) (y : B)
      → (m >>= f) ≡ ok y
      → (x : A) × (m ≡ ok x) × (f x ≡ ok y)
  bind_ok (ok x) f y e = (x, refl, e)
  bind_ok (err x) f y e = absurd (cc)
  bind_ok panic f y e = absurd (cc)
  bind_ok stuck f y e = absurd (cc)

-- The value of a call that has one.
abbrev value_or {ℓ} : {A : Type ℓ} → A → Outcome A → A
value_or d (ok a) = a
value_or d (err e) = d
value_or d panic = d
value_or d stuck = d

ok-injective {ℓ} : {A : Type ℓ} (a b : A) → ok a ≡ ok b → a ≡ b
ok-injective a b e = ap (value_or a) e

-- One step's length more.
step_drop : {A : Type 0} (m b : ℕ) (xs : List A) → drop (m * b) (drop b xs) ≡ drop (suc m * b) xs
step_drop m b xs =
    drop-drop (m * b) b xs ∙ ap (λ n. drop n xs) (let e : b + m * b ≡ suc m * b = omega arith in e)

-- What is left after two lots, where `w` is left of `xs` after the first.
module _ {A : Type 0} (m n b b1 : ℕ) (xs ys w : List A) (same : b1 ≡ b) where
  pub drop-again :
      (v : List A)
      → m * b ≤ length xs
      → w ≡ drop (m * b) xs
      → v ≡ drop (n * b1) (w ++ ys)
      → v ≡ drop ((m + n) * b) (xs ++ ys)
  drop-again v le first second =
      second
      ∙ (λ i. drop (n * same i) (first i ++ ys))
      ∙ ap (λ l. drop (n * b) l) (sym (drop-front (m * b) xs ys le))
      ∙ drop-drop (n * b) (m * b) (xs ++ ys)
      ∙ ap (λ k. drop k (xs ++ ys)) (let e : m * b + n * b ≡ (m + n) * b = omega arith in e)

  pub length-again :
      (v : ℕ)
      → length xs ≡ m * b + length w
      → length (w ++ ys) ≡ n * b1 + v
      → length (xs ++ ys) ≡ (m + n) * b + v
  length-again v first second =
      omega
        (arith, first, second ∙ ap (λ c. n * c + v) same, length-append xs ys, length-append w ys)

pub even-again :
    {A : Type 0} (k : ℕ) (xs ys w xs' ys' w' : List A)
    → w ≡ drop k xs
    → w' ≡ drop k xs'
    → length xs ≡ length xs'
    → length (w ++ ys) ≡ length (w' ++ ys')
    → length (xs ++ ys) ≡ length (xs' ++ ys')
even-again k xs ys w xs' ys' w' e e' first second = omega (
  arith,
  first,
  second,
  ap length e,
  ap length e',
  length-drop k xs,
  length-drop k xs',
  length-append xs ys,
  length-append xs' ys',
  length-append w ys,
  length-append w' ys',
)

pub deinterleave-append :
    {S : Type 0} (xs ys : List S)
    → length xs % 2 ≡ 0
    → deinterleave (xs ++ ys)
      ≡ ((deinterleave xs).0 ++ (deinterleave ys).0, (deinterleave xs).1 ++ (deinterleave ys).1)
unfolding deinterleave
deinterleave-append [] ys h = refl
deinterleave-append (l ∷ []) ys h = absurd (omega (arith, h))
deinterleave-append (l ∷ r ∷ xs) ys h = rw (deinterleave-append xs ys (omega (arith, h))) refl

pub payloads-append : (xs ys : List EncodedChunk) → payloads (xs ++ ys) ≡ payloads xs ++ payloads ys
unfolding payloads
payloads-append xs ys = map-append (λ (ec : EncodedChunk). ec.encoded) xs ys

Spaced-earlier :
    (due later : ℤ) (gap : ℕ) (ecs : List EncodedChunk) (after : ℤ)
    → due ≤ℤ later
    → Spaced later gap ecs after
    → Spaced due gap ecs after
Spaced-earlier due later gap [] after le h = omega arith
Spaced-earlier due later gap (ec ∷ ecs) after le (us, stamped, kept, h) =
    (us, stamped, omega arith, h)

pub Spaced-append :
    (due : ℤ) (gap : ℕ) (xs : List EncodedChunk) (mid : ℤ) (ys : List EncodedChunk) (after : ℤ)
    → Spaced due gap xs mid
    → Spaced mid gap ys after
    → Spaced due gap (xs ++ ys) after
Spaced-append due gap [] mid ys after h k = Spaced-earlier due mid gap ys after h k
Spaced-append due gap (ec ∷ xs) mid ys after (us, stamped, kept, h) k =
    (us, stamped, kept, Spaced-append (us +ℤ pos gap) gap xs mid ys after h k)

module _ {S R E : Type 0} (codecs : Codecs S R E) where
  pub resample_all-append :
      (m n b : ℕ) (r r1 : R) (ls rs ys zs made_l made_r : List S) (x : R × (List S × List S))
      → m * b ≤ length ls
      → m * b ≤ length rs
      → resample_all codecs m b r ls rs ≡ ok (r1, (made_l, made_r))
      → resample_all codecs n b r1 (drop (m * b) ls ++ ys) (drop (m * b) rs ++ zs) ≡ ok x
      → resample_all codecs (m + n) b r (ls ++ ys) (rs ++ zs)
        ≡ ok (x.0, (made_l ++ x.1.0, made_r ++ x.1.1))
  unfolding resample_all
  resample_all-append zero n b r r1 ls rs ys zs made_l made_r x hl hr e1 e2 =
      (λ i.
        resample_all codecs (none_more i) b (q i).0 (drop (none i) ls ++ ys)
          (drop (none i) rs ++ zs))
      ∙ e2
      ∙ (λ i. ok (x.0, ((q i).1.0 ++ x.1.0, (q i).1.1 ++ x.1.1)))
    where
      q : ◌≡◌ {A = R × (List S × List S)} (r, ([], [])) (r1, (made_l, made_r))
      q = ok-injective _ _ e1

      none_more : 0 + n ≡ n
      none_more = omega arith

      none : 0 ≡ 0 * b
      none = omega arith
  resample_all-append (suc m) n b r r1 ls rs ys zs made_l made_r x hl hr e1 e2 =
      let (a, ea, e1') =
        bind_ok (codecs.process r (take b ls) (take b rs)) _ (r1, (made_l, made_r)) e1 in
      let (c, ec, ef) =
        bind_ok (resample_all codecs m b a.0 (drop b ls) (drop b rs)) _ (r1, (made_l, made_r))
          e1' in
      let q : ◌≡◌ {A = R × (List S × List S)} (c.0, (a.1.0 ++ c.1.0, a.1.1 ++ c.1.1))
          (r1, (made_l, made_r)) =
        ok-injective _ _ ef in
      let rest =
        resample_all-append m n b a.0 c.0 (drop b ls) (drop b rs) ys zs c.1.0 c.1.1 x
          (omega (arith, length-drop b ls)) (omega (arith, length-drop b rs)) ec
          ((λ i.
              resample_all codecs n b (q i).0 (step_drop m b ls i ++ ys) (step_drop m b rs i ++ zs))
            ∙ e2) in
      let one_more : suc m + n ≡ suc (m + n) = omega arith in
      ap (λ k. resample_all codecs k b r (ls ++ ys) (rs ++ zs)) one_more
      ∙ rw
          (
            take-front b ls ys (omega arith),
            take-front b rs zs (omega arith),
            drop-front b ls ys (omega arith),
            drop-front b rs zs (omega arith),
            ea,
            rest,
          )
          ((λ i. ok (
            x.0,
            (sym (append_assoc a.1.0 c.1.0 x.1.0) i, sym (append_assoc a.1.1 c.1.1 x.1.1) i),
          ))
            ∙ (λ i. ok (x.0, ((q i).1.0 ++ x.1.0, (q i).1.1 ++ x.1.1))))

  pub encode_all-append :
      (m n f : ℕ) (e e1 : E) (ls rs ys zs : List S) (made : List Bytes) (x : E × List Bytes)
      → m * f ≤ length ls
      → m * f ≤ length rs
      → encode_all codecs e (frames m f ls rs) ≡ ok (e1, made)
      → encode_all codecs e1 (frames n f (drop (m * f) ls ++ ys) (drop (m * f) rs ++ zs)) ≡ ok x
      → encode_all codecs e (frames (m + n) f (ls ++ ys) (rs ++ zs)) ≡ ok (x.0, made ++ x.1)
  unfolding encode_all frames
  encode_all-append zero n f e e1 ls rs ys zs made x hl hr h1 h2 =
      (λ i.
        encode_all codecs (q i).0
          (frames (none_more i) f (drop (none i) ls ++ ys) (drop (none i) rs ++ zs)))
      ∙ h2
      ∙ (λ i. ok (x.0, (q i).1 ++ x.1))
    where
      q : ◌≡◌ {A = E × List Bytes} (e, []) (e1, made)
      q = ok-injective _ _ h1

      none_more : 0 + n ≡ n
      none_more = omega arith

      none : 0 ≡ 0 * f
      none = omega arith
  encode_all-append (suc m) n f e e1 ls rs ys zs made x hl hr h1 h2 =
      let (a, ea, h1') =
        bind_ok (codecs.encode_float e (interleave (take f ls) (take f rs))) _ (e1, made) h1 in
      let (c, ec, ef) =
        bind_ok (encode_all codecs a.0 (frames m f (drop f ls) (drop f rs))) _ (e1, made) h1' in
      let q : ◌≡◌ {A = E × List Bytes} (c.0, a.1 ∷ c.1) (e1, made) = ok-injective _ _ ef in
      let rest =
        encode_all-append m n f a.0 c.0 (drop f ls) (drop f rs) ys zs c.1 x
          (omega (arith, length-drop f ls)) (omega (arith, length-drop f rs)) ec
          ((λ i.
              encode_all codecs (q i).0
                (frames n f (step_drop m f ls i ++ ys) (step_drop m f rs i ++ zs)))
            ∙ h2) in
      let one_more : suc m + n ≡ suc (m + n) = omega arith in
      ap (λ k. encode_all codecs e (frames k f (ls ++ ys) (rs ++ zs))) one_more
      ∙ rw
          (
            take-front f ls ys (omega arith),
            take-front f rs zs (omega arith),
            drop-front f ls ys (omega arith),
            drop-front f rs zs (omega arith),
            ea,
            rest,
          )
          (λ i. ok (x.0, (q i).1 ++ x.1))

  -- A resampler that gives at most `most` samples for a block.
  abbrev pub GivesAtMost : ℕ → Type 0
  GivesAtMost most =
      (r : R) (ls rs : List S) (x : R × (List S × List S))
      → codecs.process r ls rs ≡ ok x
      → length x.1.0 ≤ most

  pub resample_all_few :
      (most count b : ℕ) (r : R) (ls rs : List S) (x : R × (List S × List S))
      → GivesAtMost most
      → resample_all codecs count b r ls rs ≡ ok x
      → length x.1.0 ≤ count * most
  unfolding resample_all
  resample_all_few most zero b r ls rs x few e =
      omega (arith, ap (λ (y : R × (List S × List S)). length y.1.0) (ok-injective _ _ e))
  resample_all_few most (suc count) b r ls rs x few e =
      let (a, ea, e') = bind_ok (codecs.process r (take b ls) (take b rs)) _ x e in
      let (c, ec, ef) = bind_ok (resample_all codecs count b a.0 (drop b ls) (drop b rs)) _ x e' in
      omega (
        arith,
        few r (take b ls) (take b rs) a ea,
        resample_all_few most count b a.0 (drop b ls) (drop b rs) c few ec,
        ap (λ (y : R × (List S × List S)). length y.1.0) (ok-injective _ _ ef),
        length-append a.1.0 c.1.0,
      )

pub length-deinterleave-le : {S : Type 0} (xs : List S) → length (deinterleave xs).0 ≤ length xs
unfolding deinterleave
length-deinterleave-le [] = omega arith
length-deinterleave-le (l ∷ []) = omega arith
length-deinterleave-le (l ∷ r ∷ xs) = omega (arith, length-deinterleave-le xs)

-- A number of blocks that `n` samples make.
pub blocks_few :
    (count b n limit most : ℕ) → 0 < b → count * b ≤ n → n ≤ limit → count * most ≤ limit * most
blocks_few count b n limit most h k l = let few : count ≤ limit = grind arith in grind arith
