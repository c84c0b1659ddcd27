-- ===== src/Transform/Audio/Id3.antt =====
-- crates/paschal-transform/src/lib.rs: what the strip of an ID3v2 tag leaves.
use paschal.Base.{◌+◌, ◌<◌, ◌≡◌, refl, [], inl, inr, true, length, arith, Bool-cases}
use paschal.Base.Bytes.{Bytes, IsSuffix, drop-IsSuffix, length-drop_pos}
use paschal.Transform.Audio.{id3_size, has_id3, strip_id3}

-- What is left is a suffix of the file, and is not empty if the file is not empty.
pub strip_id3-IsSuffix : (b : Bytes) → IsSuffix (strip_id3 b) b
unfolding strip_id3
strip_id3-IsSuffix b = elim (Bool-cases (has_id3 b)) [
  | inl e ↦ rw e (drop-IsSuffix (10 + id3_size b) b)
  | inr e ↦ rw e ([], refl)
]

has_id3-length : (b : Bytes) → has_id3 b ≡ true → 10 + id3_size b < length b
unfolding has_id3
has_id3-length b h = ground arith

pub length-strip_id3_pos : (b : Bytes) → 0 < length b → 0 < length (strip_id3 b)
unfolding strip_id3
length-strip_id3_pos b h = elim (Bool-cases (has_id3 b)) [
  | inl e ↦ rw e (length-drop_pos (10 + id3_size b) b (has_id3-length b e))
  | inr e ↦ rw e h
]
