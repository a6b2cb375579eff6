-- ===== src/Stats/Collector/Tags.antt =====
-- The signature of a sample: the values of the view's keys, written and read back.
use opencensus_go.Tag.{Key, Map, TagContent}
use opencensus_go.Tag.Mutators.{value}
use opencensus_go.TagEncoding.{Values, read_value, read_all}
use opencensus_go.TagEncoding.Laws.{read_all-write_all, IsShort, present}
use opencensus_go.Stats.Collector.{
  TagValue, required, values_of, encode_with_keys, read_tags, sort_tags, decode_tags,
}
use mathlib.Core.List.{Perm}
use opencensus_go.Prelude.Sorted.{IsSortedBy, sort_by-IsSortedBy, sort_by-Perm}
use opencensus_go.Prelude.{
  suc, Bytes, bytes_eq, lookup, Option, ◌≡◌, refl, ap, List, [], ◌∷◌, none, some, map, length, All,
  Option-cases, inl, inr,
}

-- The text of a tag that is there and not empty.
abbrev text_of : Option TagContent → Option Bytes
text_of none = none
text_of (some content) = present content.value

-- The tags of a map under the keys. A key without a tag is left out, and so is a tag of the empty
-- value.
pub tags_of : Map → List Key → List TagValue
tags_of m [] = []
tags_of m (k ∷ keys) = elim (text_of (lookup k m)) [
  | none ↦ tags_of m keys
  | some text ↦ record { key = k; value = text } ∷ tags_of m keys
]

present-value : (m : Map) (k : Key) → present (value m k).0 ≡ text_of (lookup k m)
unfolding value
present-value m k = elim (Option-cases (lookup k m)) [
  | inl e ↦ rw (e, value) refl
  | inr (c, e) ↦ rw (e, value) refl
]

length-values_of : (m : Map) (keys : List Key) → length (values_of m keys) ≡ length keys
unfolding values_of
length-values_of m [] = refl
length-values_of m (k ∷ keys) = ap suc (length-values_of m keys)

read_tags-read_all :
    (m : Map) (keys : List Key) (vb end : Values)
    → read_all (length keys) vb ≡ some (map present (values_of m keys), end)
    → read_tags vb keys ≡ some (tags_of m keys)
unfolding read_tags read_all tags_of values_of
read_tags-read_all m [] vb end h = refl
read_tags-read_all m (k ∷ keys) vb end h = elim (Option-cases (read_value vb)) [
  | inl e ↦ absurd (let no = rw (e, read_all) at h in cc)
  | inr (read, e) ↦ elim (Option-cases (read_all (length keys) read.1)) [
    | inl f ↦ absurd (let no = rw (e, f, read_all) at h in cc)
    | inr (rest, f) ↦
        let same = rw (e, f, read_all) at h in
        let text = present-value m k in
        let first : read.0 ≡ text_of (lookup k m) = cc in
        let others : rest.0 ≡ map present (values_of m keys) = cc in
        let run = read_tags-read_all m keys read.1 rest.1 (rw (← others) f) in
        elim (Option-cases (text_of (lookup k m))) [
          | inl p ↦ rw (e, run, first, p, read_tags, tags_of) refl
          | inr (text, p) ↦ rw (e, run, first, p, read_tags, tags_of) refl
        ]
  ]
]

-- The signature of a sample reads back as the tags of the sample under the view's keys, if all their
-- values are below 256 bytes, as those of a tag map are: the same tags, none of them before one of a
-- smaller key. A key without a tag is left out, and a tag of the empty value is lost: it reads back
-- as no tag.
pub decode_tags-encode_with_keys :
    (m : Map) (keys : List Key)
    → All IsShort (values_of m keys)
    → (tags : List TagValue) × (decode_tags (encode_with_keys m keys) keys ≡ some tags)
      × (tags ≡ sort_tags (tags_of m keys))
      × Perm tags (tags_of m keys)
      × IsSortedBy (λ (t : TagValue). t.key) tags
unfolding decode_tags encode_with_keys sort_tags
decode_tags-encode_with_keys m keys h =
    let run = read_all-write_all (required m keys) (values_of m keys) h in
    let read = read_tags-read_all m keys _ _ (rw (length-values_of m keys) at run) in
    let key : TagValue → Key = λ t. t.key in
    (
      sort_tags (tags_of m keys),
      rw (read, decode_tags) refl,
      refl,
      sort_by-Perm key (tags_of m keys),
      sort_by-IsSortedBy key (tags_of m keys),
    )
