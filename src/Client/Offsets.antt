-- ===== src/Client/Offsets.antt =====
-- The offset buffer of `ClientMachine`: the crate circular_buffer as a parameter, the sorted copy
-- and its median.
use snapcast_client.Prelude.{
  ℕ, ◌-◌, ◌/◌, ◌≡◌, if◌then◌else◌, leb, Option, none, some, List, [], ◌∷◌, ◌++◌, length, drop,
  get_elem?,
}
use snapcast_client.Outcome.{Outcome, ok, panic, ◌>>=◌, ◌>>◌, assert}
use snapcast_client.TimeVal.{TimeVal, leb_tv}

abbrev pub latency_samples : ℕ
latency_samples = 20

-- The last `n` items of a list.
abbrev pub keep_last {ℓ} : {A : Type ℓ} → ℕ → List A → List A
keep_last n xs = drop (length xs - n) xs

-- `CircularBuffer<LATENCY_SAMPLES, TimeVal>` of the crate circular-buffer, with what it documents:
-- `push_back` appends, and drops the front item when the buffer is full; `iter` goes from front to
-- back.
pub record CircularBuffer (B : Type 0) : Type 0 where
  pub empty : B
  pub push_back : B → TimeVal → B
  pub iter : B → List TimeVal
  pub iter-empty : iter empty ≡ []
  pub iter-push_back :
      (b : B) (tv : TimeVal)
      → iter (push_back b tv) ≡ keep_last latency_samples (iter b ++ (tv ∷ []))

-- `for (i, tv) in samples.enumerate() { sorted[i] = *tv; }`; an index out of bounds panics.
unfoldable pub overwrite : List TimeVal → List TimeVal → Outcome (List TimeVal)
overwrite [] ys = ok ys
overwrite (x ∷ xs) [] = panic
overwrite (x ∷ xs) (_ ∷ ys) = do rest ← overwrite xs ys; ok (x ∷ rest)

-- `sort` of the standard library, by the derived order.
unfoldable pub insert : TimeVal → List TimeVal → List TimeVal
insert x [] = x ∷ []
insert x (y ∷ ys) = if leb_tv x y then x ∷ y ∷ ys else y ∷ insert x ys

unfoldable pub sort : List TimeVal → List TimeVal
unfolding insert
sort [] = []
sort (x ∷ xs) = insert x (sort xs)

abbrev pub or_panic : Option TimeVal → Outcome TimeVal
or_panic none = panic
or_panic (some tv) = ok tv

-- `let nz = &sorted[sorted.len() - count..]; nz[nz.len() / 2]`
unfoldable pub median : List TimeVal → ℕ → Outcome TimeVal
median sorted count = do
  assert (leb count (length sorted))
  let nz_samples = drop (length sorted - count) sorted
  or_panic (get_elem? nz_samples (length nz_samples / 2))
