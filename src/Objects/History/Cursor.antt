-- ===== src/Objects/History/Cursor.antt =====
-- The cursor of the execution history, there and back (object/http.go, `encodeCursor` and
-- `decodeCursor`).
use sdano.Base.{ℕ, ◌≡◌, refl, some, [], ◌∷◌, ◌++◌, ok, arith}
use sdano.Base.Bytes.{Bytes, count}
use sdano.Objects.{World}
use sdano.Objects.History.{split_bar, encode_cursor, decode_cursor, page_start}

-- What the code relies on: the codecs read back what they write, an empty text stands for itself,
-- and no time is written with a bar.
pub record IsCodec (w : World) : Type 0 where
  pub base64 : (s : Bytes) → w.decode_base64 (w.encode_base64 s) ≡ some s
  pub empty : w.decode_base64 [] ≡ some []
  pub time : (t : ℕ) → w.parse_time (w.format_time t) ≡ some t
  pub no_bar : (t : ℕ) → count b'|' (w.format_time t) ≡ 0
  pub uuid : (id : ℕ) → w.parse_uuid (w.format_uuid id) ≡ some id

split_bar_first : (a b : Bytes) → count b'|' a ≡ 0 → split_bar (a ++ b'|' ∷ b) ≡ some (a, b)
unfolding split_bar count
split_bar_first [] b h = refl
split_bar_first (c ∷ a) b h = ground (arith, split_bar_first a b)

module _ (w : World) (codec : IsCodec w) where
  decoded : (t id : ℕ) → decode_cursor w (encode_cursor w t id) ≡ ok (t, id)
  unfolding encode_cursor decode_cursor
  decoded t id =
      rw
        (
          codec.base64 (w.format_time t ++ b'|' ∷ w.format_uuid id),
          split_bar_first (w.format_time t) (w.format_uuid id) (codec.no_bar t),
          codec.time t,
          codec.uuid id,
        )
        refl

  not_empty :
      (a b s : Bytes) → w.encode_base64 (a ++ b'|' ∷ b) ≡ s → (c : ℕ) × (t : Bytes) × (s ≡ c ∷ t)
  not_empty a b (c ∷ t) e = (c, t, refl)
  not_empty [] b [] e = absurd (cc (codec.base64 (b'|' ∷ b), codec.empty, e))
  not_empty (x ∷ a) b [] e = absurd (cc (codec.base64 ((x ∷ a) ++ b'|' ∷ b), codec.empty, e))

  pub encoded-not_empty : (t id : ℕ) → (c : ℕ) × (s : Bytes) × (encode_cursor w t id ≡ c ∷ s)
  unfolding encode_cursor
  encoded-not_empty t id = not_empty (w.format_time t) (w.format_uuid id) _ refl

  started :
      (s : Bytes) (c : ℕ) (t : Bytes) (k : ℕ × ℕ)
      → s ≡ c ∷ t
      → decode_cursor w s ≡ ok k
      → page_start w s ≡ ok k
  started [] c t k e d = absurd (cc)
  started (x ∷ s) c t k e d = d

  -- A cursor that was handed out is read as the row that it was made of.
  pub cursor_roundtrip : (t id : ℕ) → page_start w (encode_cursor w t id) ≡ ok (t, id)
  cursor_roundtrip t id =
      let some_text = encoded-not_empty t id in
      started _ some_text.0 some_text.1 (t, id) some_text.2 (decoded t id)
