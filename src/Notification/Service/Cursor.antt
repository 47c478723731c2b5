-- ===== src/Notification/Service/Cursor.antt =====
-- A cursor of the member feed is read back as it was written.
use Prim.Native.Char.{Char}
use text.Mathlib.TextLemmas.{nil-append, cons-append, cons≢nil}
use match_mate_dating_web.Base.{
  ◌≡◌, refl, Bool, true, false, Option, some, [], ◌∷◌, String, arith, ◌==◌, string_eq, Bool-cases,
  inl, inr, eq_iff,
}
use match_mate_dating_web.Base.Numerals.{format_int, fits}
use match_mate_dating_web.Base.Numerals.RoundTrip.{
  has_no_bar, parse_int-format_int, format_int-has_no_bar,
}
use match_mate_dating_web.Base.Result.{ok}
use match_mate_dating_web.Base.Text.{◌<>◌, trim_space}
use match_mate_dating_web.Notification.Domain.{FeedCursor}
use match_mate_dating_web.Notification.Service.{
  split_bars, read_parts, decode_cursor, encode_cursor,
}

split_bars-single : (s : String) → has_no_bar s ≡ true → split_bars s ≡ s ∷ []
unfolding split_bars has_no_bar
split_bars-single String.[] h = refl
split_bars-single (String.◌∷◌ c s) h = ground (arith, h, split_bars-single s)

-- A text without a bar is the first part of what is split.
split_bars-first :
    (s t : String) → has_no_bar s ≡ true → split_bars (s <> "|" <> t) ≡ s ∷ split_bars t
unfolding split_bars has_no_bar
split_bars-first String.[] t h = rw (nil-append ("|" <> t), cons-append "|" "" t, nil-append t) refl
split_bars-first (String.◌∷◌ c s) t h =
    rw (cons-append c s ("|" <> t)) (ground (arith, h, split_bars-first s t))

pub cons_is_full : (c : Char) (s : String) → (String.◌∷◌ c s == "") ≡ false
cons_is_full c s = elim (Bool-cases (String.◌∷◌ c s == "")) [
  | inl t ↦ absurd (cons≢nil ((eq_iff (String.◌∷◌ c s) "").0 t))
  | inr e ↦ e
]

behind_is_full : (s t : String) → ((s <> "|" <> t) == "") ≡ false
behind_is_full String.[] t =
    rw (nil-append ("|" <> t), cons-append "|" "" t) (cons_is_full "|" ("" <> t))
behind_is_full (String.◌∷◌ c s) t = rw (cons-append c s ("|" <> t)) (cons_is_full c (s <> "|" <> t))

module _ (is_uuid : String → Bool) (base64_encode : String → String)
    (base64_decode : String → Option String) where
  -- For a base64 coding that decodes what it encodes, and whose texts are blank only for the empty
  -- text, the cursor of a time that fits an `int64` and of a UUID without a bar is read back from
  -- its text.
  pub decode_cursor-encode_cursor :
      (c : FeedCursor)
      → ((s : String) → base64_decode (base64_encode s) ≡ some s)
      → ((s : String) → (trim_space (base64_encode s) == "") ≡ (s == ""))
      → fits c.created_at ≡ true
      → is_uuid c.id ≡ true
      → has_no_bar c.id ≡ true
      → decode_cursor is_uuid base64_decode (encode_cursor base64_encode c) ≡ ok (some c)
  unfolding decode_cursor encode_cursor read_parts
  decode_cursor-encode_cursor c back blank fit known free =
      let text = format_int c.created_at <> "|" <> c.id in
      ground (
        arith,
        back text,
        blank text,
        behind_is_full (format_int c.created_at) c.id,
        split_bars-first (format_int c.created_at) c.id (format_int-has_no_bar c.created_at),
        split_bars-single c.id free,
        parse_int-format_int c.created_at fit,
        known,
      )
