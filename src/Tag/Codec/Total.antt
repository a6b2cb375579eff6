-- ===== src/Tag/Codec/Total.antt =====
-- `DecodeEach` on any input: it ends, and its handler sees valid tags only.
use mathlib.Core.Path.{subst}
use opencensus_go.Tag.{
  ok_inj, Error, Result, ok, err, panic, stuck, Key, Metadatas, Map, invalid_key_type,
  invalid_value, guard, ◌>>=◌, ◌>>◌,
}
use opencensus_go.Tag.Validate.{check_key_name, check_value, new_key}
use opencensus_go.Tag.Mutators.{upsert}
use opencensus_go.Tag.Mutators.Laws.{IsValid, insert_entry-IsValid}
use opencensus_go.Tag.Varint.{uvarint_loop, uvarint}
use opencensus_go.Tag.Codec.{
  EncoderGrpc, read_byte, read_ended, read_bytes_with_varint_len, decode_tag, decode_loop,
  decode_version, decode_each, upsert_handler, decode, decoded_metadatas, key_type_string,
  tags_version_id,
}
use opencensus_go.Prelude.{
  ℕ, zero, suc, ◌+◌, ◌*◌, ◌%◌, ◌≤◌, ◌<◌, ◌≡◌, ◌≢◌, refl, [], ◌∷◌, some, arith, Bytes, true, false,
  Bool, length, Bool-cases, inl, inr, ◌==◌, nat_eq, Option-cases, drop, get_elem?, ap, ltb, ◌⊎◌,
  bytes_eq,
}

uvarint_loop_takes : (s : Bytes) (i x m v n : ℕ) → uvarint_loop s i x m ≡ some (v, n) → i < n
unfolding uvarint_loop
uvarint_loop_takes [] i x m v n h = absurd (cc)
uvarint_loop_takes (b ∷ s) i x m v n h =
    ground (arith, uvarint_loop_takes s (i + 1) (x + b % 128 * m) (m * 128) v n)

get_elem?_lt : (s : Bytes) (i b : ℕ) → get_elem? s i ≡ some b → i < length s
get_elem?_lt [] i b h = absurd (cc)
get_elem?_lt (x ∷ s) zero b h = omega arith
get_elem?_lt (x ∷ s) (suc i) b h = omega (arith, get_elem?_lt s i b h)

uvarint_takes : (s : Bytes) (v n : ℕ) → uvarint s ≡ some (v, n) → 0 < n
unfolding uvarint
uvarint_takes s v n h = uvarint_loop_takes s 0 0 1 v n h

-- A read ends, and one that succeeds moves the reader on and leaves the buffer.
record Advances (eg eg' : EncoderGrpc) : Type 0 where
  moved : eg.read_idx < eg'.read_idx
  kept : eg'.buf ≡ eg.buf
  within : eg'.read_idx ≤ length eg'.buf

Advances-trans : {a b c : EncoderGrpc} → Advances a b → Advances b c → Advances a c
Advances-trans p q = record { moved = omega arith; kept = cc; within = q.within }

-- The call ends, and where it succeeds its result satisfies `Q`.
abbrev Ends {ℓ} : {A : Type ℓ} → (A → Type 0) → Result A → Type 0
Ends Q (ok a) = Q a
Ends Q (err e) = Unit {0}
Ends Q panic = Unit {0}
Ends Q stuck = ⊥

module _ {ℓ κ} {A : Type ℓ} {B : Type κ} (P : A → Type 0) (Q : B → Type 0) where
  Ends->>= :
      (r : Result A) (f : A → Result B)
      → Ends P r
      → ((a : A) → P a → Ends Q (f a))
      → Ends Q (r >>= f)
  Ends->>= (ok a) f h k = k a h
  Ends->>= (err e) f h k = tt
  Ends->>= panic f h k = tt
  Ends->>= stuck f h k = absurd h

Ends-guard {ℓ} :
    {A : Type ℓ} (Q : A → Type 0) (b : Bool) (e : Error) (k : Result A)
    → (b ≡ true → Ends Q k)
    → Ends Q (guard b e >> k)
Ends-guard Q true e k h = h refl
Ends-guard Q false e k h = tt

read_byte-Ends : (eg : EncoderGrpc) → Ends (λ r. Advances eg r.1) (read_byte eg)
unfolding read_byte
read_byte-Ends eg = elim (Option-cases (get_elem? eg.buf eg.read_idx)) [
  | inl n ↦ rw (n, read_byte) tt
  | inr (b, p) ↦ rw (p, read_byte) (ground (arith, get_elem?_lt eg.buf eg.read_idx b p))
]

read_bytes-Ends : (eg : EncoderGrpc) → Ends (λ r. Advances eg r.1) (read_bytes_with_varint_len eg)
unfolding read_bytes_with_varint_len
read_bytes-Ends eg = elim (Bool-cases (read_ended eg)) [
  | inl e ↦ rw (e, read_bytes_with_varint_len) tt
  | inr e ↦ elim (Option-cases (uvarint (drop eg.read_idx eg.buf))) [
    | inl n ↦ rw (e, n, read_bytes_with_varint_len) tt
    | inr ((v, n), p) ↦
        rw (e, p, read_bytes_with_varint_len)
          (ground (arith, uvarint_takes (drop eg.read_idx eg.buf) v n p))
  ]
]

new_key-Ends : (name : Bytes) → Ends (λ k. check_key_name k ≡ true) (new_key name)
unfolding new_key
new_key-Ends name = elim (Bool-cases (check_key_name name)) [
  | inl e ↦ rw (e, new_key) e
  | inr e ↦ rw (e, new_key) tt
]

-- A tag that is decoded.
record IsTag (eg : EncoderGrpc) (t : Key × Bytes × EncoderGrpc) : Type 0 where
  name_valid : check_key_name t.0 ≡ true
  value_valid : check_value t.1 ≡ true
  advances : Advances eg t.2

decode_tag-Ends : (eg : EncoderGrpc) → Ends (IsTag eg) (decode_tag eg)
unfolding decode_tag
decode_tag-Ends eg =
    Ends->>= (λ r. Advances eg r.1) (IsTag eg) (read_byte eg) _ (read_byte-Ends eg)
      λ (typ, eg₁) p₁. Ends-guard (IsTag eg) (typ == key_type_string) invalid_key_type _ λ _.
        Ends->>= (λ r. Advances eg₁ r.1) (IsTag eg) (read_bytes_with_varint_len eg₁) _
          (read_bytes-Ends eg₁)
          λ (k, eg₂) p₂.
            Ends->>= (λ r. Advances eg₂ r.1) (IsTag eg) (read_bytes_with_varint_len eg₂) _
              (read_bytes-Ends eg₂)
              λ (v, eg₃) p₃.
                Ends->>= (λ k. check_key_name k ≡ true) (IsTag eg) (new_key k) _ (new_key-Ends k)
                  λ key hk. Ends-guard (IsTag eg) (check_value v) invalid_value _ λ hv. record {
                    name_valid = hk;
                    value_valid = hv;
                    advances = Advances-trans p₁ (Advances-trans p₂ p₃);
                  }

Result-cases {ℓ} :
    {A : Type ℓ} (Q : A → Type 0) (r : Result A)
    → Ends Q r
    → ((a : A) × (r ≡ ok a) × Q a) ⊎ ((e : Error) × (r ≡ err e)) ⊎ (r ≡ panic)
Result-cases Q (ok a) h = inl (a, refl, h)
Result-cases Q (err e) h = inr (inl (e, refl))
Result-cases Q panic h = inr (inr refl)
Result-cases Q stuck h = absurd h

module _ {ℓ κ} {S : Type ℓ} (fn : Key → Bytes → Metadatas → S → S) (P : S → Type κ)
    (keep : (k : Key) (v : Bytes) (s : S)
      → check_key_name k ≡ true
      → check_value v ≡ true
      → P s
      → P (fn k v decoded_metadatas s)) where
  decode_loop_inv :
      (fuel : ℕ) (eg : EncoderGrpc) (s : S)
      → eg.read_idx ≤ length eg.buf
      → length eg.buf < fuel + eg.read_idx
      → P s
      → P (decode_loop fn fuel eg s).0 × ((decode_loop fn fuel eg s).1 ≢ stuck)
  unfolding decode_loop
  decode_loop_inv zero eg s hr hf h = absurd (omega arith)
  decode_loop_inv (suc fuel) eg s hr hf h = elim (Bool-cases (read_ended eg)) [
    | inl e ↦ rw (e, decode_loop) (h, λ c. cc)
    | inr e ↦ elim (Result-cases (IsTag eg) (decode_tag eg) (decode_tag-Ends eg)) [
      | inl ((k, v, eg'), p, t) ↦
          rw (e, p, decode_loop)
            (decode_loop_inv fuel eg' (fn k v decoded_metadatas s) t.advances.within
              (omega (arith, t.advances.moved, ap length t.advances.kept))
              (keep k v s t.name_valid t.value_valid h))
      | inr (inl (x, p)) ↦ rw (e, p, decode_loop) (h, λ c. cc)
      | inr (inr p) ↦ rw (e, p, decode_loop) (h, λ c. cc)
    ]
  ]

  decode_version_inv :
      (b fuel : ℕ) (eg : EncoderGrpc) (s : S)
      → eg.read_idx ≤ length eg.buf
      → length eg.buf < fuel + eg.read_idx
      → P s
      → P (decode_version fn (ok (b, eg)) fuel s).0
        × ((decode_version fn (ok (b, eg)) fuel s).1 ≢ stuck)
  unfolding decode_version
  decode_version_inv b fuel eg s hr hf h = elim (Bool-cases (ltb tags_version_id b)) [
    | inl e ↦ rw e (h, λ c. cc)
    | inr e ↦ rw e (decode_loop_inv fuel eg s hr hf h)
  ]

  -- On any input `DecodeEach` ends (the model's fuel suffices), whatever the handler does, and an
  -- invariant of the handler on valid keys and values holds of the state that it leaves, also after
  -- an error or a panic.
  pub decode_each_inv :
      (s : Bytes) (start : S)
      → P start
      → P (decode_each fn s start).0 × ((decode_each fn s start).1 ≢ stuck)
  unfolding decode_each
  decode_each_inv [] start h = (h, λ c. cc)
  decode_each_inv (b ∷ s) start h =
      let nonempty : (suc (length s) == 0) ≡ false = ground arith in
      let eg : EncoderGrpc = record { buf = b ∷ s; write_idx = 0; read_idx = 1 } in
      rw nonempty (decode_version_inv b (suc (length s)) eg start (omega arith) (omega arith) h)

upsert-IsValid :
    (k : Key) (v : Bytes) (m : Map)
    → check_key_name k ≡ true
    → check_value v ≡ true
    → IsValid m
    → IsValid (upsert_handler k v decoded_metadatas m)
unfolding upsert
upsert-IsValid k v m hk hv h =
    insert_entry-IsValid k (record { value = v; m = decoded_metadatas }) m
      (record { name_valid = hk; value_valid = hv }) h

finish :
    (o : Result (Unit {0})) (n : Map)
    → IsValid n
    → o ≢ stuck
    → ((o >> ok n) ≢ stuck) × ((m : Map) → (o >> ok n) ≡ ok m → IsValid m)
finish (ok _) n v h = (λ c. cc, λ m e. subst IsValid (ok_inj e) v)
finish (err x) n v h = (λ c. cc, λ m e. absurd (cc))
finish panic n v h = (λ c. cc, λ m e. absurd (cc))
finish stuck n v h = absurd (h refl)

-- `Decode` ends on every input, and a map that it returns has one entry for a key, valid names and
-- valid values.
pub decode_total : (s : Bytes) → (decode s ≢ stuck) × ((m : Map) → decode s ≡ ok m → IsValid m)
unfolding decode
decode_total s =
    let (valid, ends) =
      decode_each_inv upsert_handler IsValid upsert-IsValid s []
        (record { is_map = tt; entries = tt }) in
    finish (decode_each upsert_handler s []).1 (decode_each upsert_handler s []).0 valid ends
