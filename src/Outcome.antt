-- ===== src/Outcome.antt =====
-- What a call of the Rust code comes to: a value, an `anyhow::Error`, or a panic.
use snapcast_client.Prelude.{◌≡◌, refl, Bool, true, false, ℕ}

-- The errors that the sources raise themselves (`bail!`, `ensure!`, `?`).
pub data Error : Type 0 where
  illegal_message_type : ℕ → Error
  short_base_header payload_too_large short_time_payload : Error
  short_hello hello_length_out_of_range invalid_hello : Error
  unexpected_server_message unexpected_client_message : Error
  time_before_hello : Error
  sec_is_not_zero usec_is_negative : Error
  connection_failed unsupported_chunk_ms codec_disabled channel_closed : Error

-- `stuck` is no Rust value: a loop of the model ran out of fuel.
pub data Outcome {ℓ} (A : Type ℓ) : Type ℓ where
  ok : A → Outcome A
  err : Error → Outcome A
  panic : Outcome A
  stuck : Outcome A

infixl 5 ◌>>=◌ ◌>>◌
abbrev pub ◌>>=◌ {ℓ κ} : {A : Type ℓ} {B : Type κ} → Outcome A → (A → Outcome B) → Outcome B
ok a >>= f = f a
err e >>= f = err e
panic >>= f = panic
stuck >>= f = stuck

abbrev pub ◌>>◌ {ℓ} : {B : Type ℓ} → Outcome (Unit {0}) → Outcome B → Outcome B
m >> k = m >>= λ _. k

-- `anyhow::ensure!`
abbrev pub ensure : Bool → Error → Outcome (Unit {0})
ensure true e = ok tt
ensure false e = err e

-- `assert!`, and the bounds check of a slice.
abbrev pub assert : Bool → Outcome (Unit {0})
assert true = ok tt
assert false = panic

-- The call comes back: with a value or an error, and not with a panic.
abbrev pub Returns {ℓ} : {A : Type ℓ} → Outcome A → Type 0
Returns (ok _) = Unit
Returns (err _) = Unit
Returns panic = ⊥
Returns stuck = ⊥

-- If the call gives a value, the value has the property.
abbrev pub Ensures {ℓ κ} : {A : Type ℓ} → (A → Type κ) → Outcome A → Type κ
Ensures P (ok a) = P a
Ensures P (err _) = Unit {κ}
Ensures P panic = Unit {κ}
Ensures P stuck = Unit {κ}

pub Ensures-bind {ℓ κ} :
    {A B : Type ℓ} (P : A → Type κ) (Q : B → Type κ) (m : Outcome A) (f : A → Outcome B)
    → Ensures P m
    → ((a : A) → P a → Ensures Q (f a))
    → Ensures Q (m >>= f)
Ensures-bind P Q (ok a) f h k = k a h
Ensures-bind P Q (err e) f h k = tt
Ensures-bind P Q panic f h k = tt
Ensures-bind P Q stuck f h k = tt

-- What follows may be replaced where it agrees on the values with the property.
pub bind-congr {ℓ κ} :
    {A B : Type ℓ} (P : A → Type κ) (m : Outcome A) (f g : A → Outcome B)
    → Ensures P m
    → ((a : A) → P a → f a ≡ g a)
    → (m >>= f) ≡ (m >>= g)
bind-congr P (ok a) f g h k = k a h
bind-congr P (err e) f g h k = refl
bind-congr P panic f g h k = refl
bind-congr P stuck f g h k = refl

pub Ensures-any {ℓ} : {A : Type ℓ} (m : Outcome A) → Ensures (λ (a : A). Unit {ℓ}) m
Ensures-any (ok a) = tt
Ensures-any (err e) = tt
Ensures-any panic = tt
Ensures-any stuck = tt

pub bind_assoc {ℓ} :
    {A B D : Type ℓ} (m : Outcome A) (f : A → Outcome B) (g : B → Outcome D)
    → ((m >>= f) >>= g) ≡ (m >>= λ a. f a >>= g)
bind_assoc (ok a) f g = refl
bind_assoc (err e) f g = refl
bind_assoc panic f g = refl
bind_assoc stuck f g = refl
