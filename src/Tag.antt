-- ===== src/Tag.antt =====
-- The package tag: keys, tag maps, their mutators, and the binary wire format.
pub mod Validate
pub mod Mutators
pub mod Varint
pub mod Codec
use opencensus_go.Prelude.{
  Bytes, ℕ, ℤ, pos, negsuc, List, Bool, true, false, ◌==◌, int_eq, ◌≡◌, refl,
}

-- The errors of the package, without their texts.
pub data Error : Type 0 where
  invalid_key_name invalid_value unsupported_version invalid_key_type : Error
  unexpected_end malformed_encoding : Error

-- A Go call returns a value or an error, or panics (an index or a slice bound out of range).
-- `stuck` is no Go outcome: the loop of the model ran out of fuel.
pub data Result {ℓ} (A : Type ℓ) : Type ℓ where
  ok : A → Result A
  err : Error → Result A
  panic : Result A
  stuck : Result A

infixl 5 ◌>>=◌ ◌>>◌
abbrev pub ◌>>=◌ {ℓ κ} : {X : Type ℓ} {Y : Type κ} → Result X → (X → Result Y) → Result Y
panic >>= k = panic
stuck >>= k = stuck
err e >>= k = err e
ok x >>= k = k x

abbrev pub ◌>>◌ {κ} : {Y : Type κ} → Result (Unit {0}) → Result Y → Result Y
r >> next = r >>= λ _. next

-- `if !test { return e }`
abbrev pub guard : Bool → Error → Result (Unit {0})
guard true e = ok tt
guard false e = err e

pub ok_inj {ℓ} : {A : Type ℓ} {a b : A} → ok a ≡ ok b → a ≡ b
ok_inj h = cc

-- Inversion of a successful chain.
pub >>=-eq-ok {ℓ κ} :
    {X : Type ℓ} {Y : Type κ} (r : Result X) (k : X → Result Y) {y : Y}
    → (r >>= k) ≡ ok y
    → (x : X) × (r ≡ ok x) × (k x ≡ ok y)
>>=-eq-ok panic k h = absurd (cc)
>>=-eq-ok stuck k h = absurd (cc)
>>=-eq-ok (err e) k h = absurd (cc)
>>=-eq-ok (ok x) k h = (x, refl, h)

pub guard-eq-ok {ℓ} :
    {B : Type ℓ} (t : Bool) (e : Error) (k : Result B) {b : B}
    → (guard t e >> k) ≡ ok b
    → (t ≡ true) × (k ≡ ok b)
guard-eq-ok true e k h = (refl, h)
guard-eq-ok false e k h = absurd (cc)

-- The struct Key has the name as its only field.
abbrev pub Key : Type 0
Key = Bytes

pub record Ttl : Type 0 where
  pub ttl : ℤ

pub record Metadatas : Type 0 where
  pub ttl : Ttl

abbrev pub ttl_unlimited_propagation : Ttl
ttl_unlimited_propagation = record { ttl = negsuc 0 }

abbrev pub ttl_no_propagation : Ttl
ttl_no_propagation = record { ttl = pos 0 }

pub record TagContent : Type 0 where
  pub value : Bytes
  pub m : Metadatas

-- `map[Key]tagContent`, in an order that a loop over it may take.
abbrev pub Map : Type 0
Map = List (Key × TagContent)

-- `v.m.ttl.ttl == valueTTLUnlimitedPropagation`
abbrev pub propagates : TagContent → Bool
propagates v = v.m.ttl.ttl == negsuc 0
