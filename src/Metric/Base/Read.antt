-- ===== src/Metric/Base/Read.antt =====
-- A metric whose label values are at most 254 bytes long can always be read.
use opencensus_go.Floats.{Floats}
use opencensus_go.Metric.{LabelValue, TimeSeries}
use opencensus_go.Metric.Labels.{encode_label_vals, decode_label_vals}
use opencensus_go.Metric.Labels.RoundTrip.{canonical, IsShortLabel, decode_label_vals-encode}
use opencensus_go.Metric.Base.{
  Entry, BaseMetric, read_entry, read_entries, entry_for_values, upsert_entry, change,
}
use opencensus_go.Prelude.{
  ℕ, suc, ◌≡◌, refl, ap, Bytes, bytes_eq, nat_eq, ◌==◌, List, [], ◌∷◌, ◌++◌, map, some, length,
  lookup, insert, erase, All, All-insert, All-erase, All-lookup, All-append, Member, Option-cases,
  Bool-cases, inl, inr,
}

-- A map key that stands for label values, one for each key.
abbrev pub IsKey : ℕ → Bytes → Type 0
IsKey keys s =
    (vs : List LabelValue) × (length vs ≡ keys) × All IsShortLabel vs × (s ≡ encode_label_vals vs)

module _ {F : Type 0} where
  -- The map keys of a metric stand for label values, and so do its constant labels.
  pub record IsReadable (bm : BaseMetric F) : Type 0 where
    pub entries : All (λ e. IsKey (length bm.keys) e.0) bm.vals
    pub consts : All IsShortLabel bm.const_label_values

module _ {F : Type 0} (bm : BaseMetric F) (label_vals : List LabelValue) (new_entry : Entry F)
    (readable : IsReadable bm) (short : All IsShortLabel label_vals) where
  abbrev all : List LabelValue
  all = bm.const_label_values ++ label_vals

  short_all : All IsShortLabel all
  short_all = All-append IsShortLabel bm.const_label_values label_vals readable.consts short

  pub entry_for_values-IsReadable :
      (key : Bytes) (bm' : BaseMetric F)
      → entry_for_values bm label_vals new_entry ≡ some (key, bm')
      → IsReadable bm'
  unfolding entry_for_values
  entry_for_values-IsReadable key bm' h = elim (Bool-cases (length all == length bm.keys)) [
    | inr e ↦ absurd (let no = rw (e, entry_for_values) at h in cc)
    | inl e ↦ elim (Option-cases (lookup (encode_label_vals all) bm.vals)) [
      | inr (old, f) ↦
          let same = rw (e, f, entry_for_values) at h in
          let unchanged : bm ≡ bm' = cc in rw (← unchanged) readable
      | inl f ↦
          let same = rw (e, f, entry_for_values) at h in
          let changed : record bm { vals = insert (encode_label_vals all) new_entry bm.vals }
              ≡ bm' =
            cc in
          rw (← changed) (record {
            entries =
                All-insert (λ (e : Bytes × Entry F). IsKey (length bm.keys) e.0)
                  (encode_label_vals all) new_entry bm.vals readable.entries
                  (all, (nat_eq.beq_iff (length all) (length bm.keys)).0 e, short_all, refl);
            consts = readable.consts;
          })
    ]
  ]

  pub upsert_entry-IsReadable :
      (bm' : BaseMetric F) → upsert_entry bm label_vals new_entry ≡ some bm' → IsReadable bm'
  unfolding upsert_entry
  upsert_entry-IsReadable bm' h = elim (Bool-cases (length all == length bm.keys)) [
    | inr e ↦ absurd (let no = rw (e, upsert_entry) at h in cc)
    | inl e ↦
        let same = rw (e, upsert_entry) at h in
        let rest = erase (encode_label_vals all) bm.vals in
        let changed : record bm { vals = insert (encode_label_vals all) new_entry rest } ≡ bm' =
          cc in
        rw (← changed) (record {
          entries =
              All-insert (λ (e : Bytes × Entry F). IsKey (length bm.keys) e.0)
                (encode_label_vals all) new_entry rest
                (All-erase (λ (e : Bytes × Entry F). IsKey (length bm.keys) e.0)
                  (encode_label_vals all) bm.vals readable.entries)
                (all, (nat_eq.beq_iff (length all) (length bm.keys)).0 e, short_all, refl);
          consts = readable.consts;
        })
  ]

module _ {F : Type 0} where
  pub change-IsReadable :
      (f : Entry F → Entry F) (bm : BaseMetric F) (key : Bytes)
      → IsReadable bm
      → IsReadable (change f bm key)
  change-IsReadable f bm key r = elim (Option-cases (lookup key bm.vals)) [
    | inl e ↦ rw (e, change) r
    | inr (old, e) ↦
        rw (e, change)
          (record {
            entries =
                All-insert (λ (e : Bytes × Entry F). IsKey (length bm.keys) e.0) key (f old) bm.vals
                  r.entries
                  (All-lookup (λ (e : Bytes × Entry F). IsKey (length bm.keys) e.0) key old bm.vals
                    r.entries e);
            consts = r.consts;
          })
  ]

module _ {F : Type 0} (floats : Floats F) (keys start now : ℕ) where
  -- The time series of an entry.
  abbrev pub series_of : List LabelValue → Entry F → TimeSeries F
  series_of vs e = record {
    points = read_entry floats e now ∷ [];
    label_values = map canonical vs;
    start_time = start;
  }

  decoded_key :
      (s : Bytes) (vs : List LabelValue)
      → length vs ≡ keys
      → All IsShortLabel vs
      → s ≡ encode_label_vals vs
      → decode_label_vals keys s ≡ some (map canonical vs)
  decoded_key s vs size short e = rw (e, ← size) (decode_label_vals-encode vs short)

  pub read_entries_lem :
      (vals : List (Bytes × Entry F))
      → All (λ e. IsKey keys e.0) vals
      → (series : List (TimeSeries F)) × (read_entries floats keys start now vals ≡ some series)
        × (length series ≡ length vals)
        × ((vs : List LabelValue) (e : Entry F)
            → length vs ≡ keys
            → All IsShortLabel vs
            → lookup (encode_label_vals vs) vals ≡ some e
            → Member (series_of vs e) series)
  unfolding read_entries
  read_entries_lem [] h = ([], refl, refl, λ vs e size short found. absurd (cc))
  read_entries_lem ((s, entry) ∷ vals) ((us, size, short, same), h) =
      let (rest, run, count, each) = read_entries_lem vals h in
      let first = decoded_key s us size short same in
      (
        series_of us entry ∷ rest,
        rw (first, run, read_entries) refl,
        ap suc count,
        λ vs e size' short' found. elim (Bool-cases (s == encode_label_vals vs)) [
          | inl t ↦
              let key = (bytes_eq.beq_iff s (encode_label_vals vs)).0 t in
              let entry_same : some entry ≡ some e = rw t at found in
              let again = decoded_key s vs size' short' key in
              let labels : map canonical vs ≡ map canonical us = cc in
              let value : e ≡ entry = cc in inl (rw (labels, value) refl)
          | inr t ↦ inr (each vs e size' short' (rw t at found))
        ],
      )
