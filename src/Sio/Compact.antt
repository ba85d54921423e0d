-- ===== src/Sio/Compact.antt =====
-- The texts of `sio_msg_to_str` with their blanks and line ends left out, beside a printer that writes
-- none.
use conference_go_client.Common.{
  ℕ, suc, ◌+◌, ◌==◌, ℤ, pos, ◌+ℤ◌, Bool, true, false, [], ◌++◌, ◌≡◌, refl, ◌∙◌, Bytes, codes,
  to_string, if◌then◌else◌, arith,
}
use conference_go_client.Sio.{
  Msg, absent, null, string, binary, boolean, double, integer, object, array, Fields, end, field,
  Items, nil, cons, fields_size, items_size, binary_text, line_end, sio_msg_to_str, field_lines,
  field_words, item_lines, item_words,
}
use conference_go_client.Sio.Strip.{
  strip, strip-append, strip-line_end, strip_line, strip_item, strip_word, strip_item_word,
  strip_words, strip_lines, suc-ne-zero, strip_nil, strip_absent, strip_null, strip_boolean,
  separator,
}

module _ (double_text : ℕ → Bytes) where
  -- The reference: every entry but the first after a comma, a key and its value joined by a colon.
  unfoldable mutual
    pub compact : Msg → Bytes
    compact absent = codes "<emptymsg>"
    compact null = codes "nullptr"
    compact (string s) = strip (codes "\"" ++ (s ++ codes "\""))
    compact (binary bs) = strip (binary_text bs)
    compact (boolean b) = if b then codes "true" else codes "false"
    compact (double x) = strip (double_text x)
    compact (integer n) = strip (to_string n)
    compact (object fs) = codes "{" ++ (compact_fields true fs ++ codes "}")
    compact (array vs) = codes "[" ++ (compact_items true vs ++ codes "]")

    pub compact_fields : Bool → Fields → Bytes
    compact_fields first end = []
    compact_fields first (field key value fs) =
        separator first ++ (strip key ++ (codes ":" ++ (compact value ++ compact_fields false fs)))

    pub compact_items : Bool → Items → Bytes
    compact_items first nil = []
    compact_items first (cons value vs) =
        separator first ++ (compact value ++ compact_items false vs)

module _ (double_text : ℕ → Bytes) where
  comma_fields :
      (n i : ℕ) (fs : Fields)
      → suc i + fields_size fs ≡ n
      → line_end n i ++ compact_fields double_text true fs ≡ compact_fields double_text false fs
  unfolding compact
  comma_fields n i end h = ground arith
  comma_fields n i (field k v fs) h = ground arith

  comma_items :
      (n i : ℕ) (vs : Items)
      → suc i + items_size vs ≡ n
      → line_end n i ++ compact_items double_text true vs ≡ compact_items double_text false vs
  unfolding compact
  comma_items n i nil h = ground arith
  comma_items n i (cons v vs) h = ground arith

  mutual
    unfolding sio_msg_to_str compact

    strip-str :
        (format : Bool) (ident : ℤ) (msg : Msg)
        → strip (sio_msg_to_str double_text format ident msg) ≡ compact double_text msg
    strip-str format ident absent = strip_absent
    strip-str format ident null = strip_null
    strip-str format ident (string s) = refl
    strip-str format ident (binary bs) = refl
    strip-str format ident (boolean b) = strip_boolean b
    strip-str format ident (double x) = refl
    strip-str format ident (integer n) = refl
    strip-str true ident (object fs) =
        strip_lines ident (fields_size fs) b'{' b'}'
          (field_lines double_text ident (fields_size fs) 0 fs) refl refl
        ∙ simp (strip-field_lines ident (fields_size fs) 0 fs (omega arith)) refl
    strip-str false ident (object fs) =
        strip_words b'{' b'}' (field_words double_text ident (fields_size fs) 0 fs) refl refl
        ∙ simp (strip-field_words ident (fields_size fs) 0 fs) refl
    strip-str true ident (array vs) =
        strip_lines ident (items_size vs) b'[' b']'
          (item_lines double_text ident (items_size vs) 0 vs) refl refl
        ∙ simp (strip-item_lines ident (items_size vs) 0 vs (omega arith)) refl
    strip-str false ident (array vs) =
        strip_words b'[' b']' (item_words double_text ident (items_size vs) 0 vs) refl refl
        ∙ simp (strip-item_words ident (items_size vs) 0 vs) refl

    strip-field_lines :
        (ident : ℤ) (n i : ℕ) (fs : Fields)
        → i + fields_size fs ≡ n
        → strip (field_lines double_text ident n i fs) ≡ compact_fields double_text true fs
    strip-field_lines ident n i end h = strip_nil
    strip-field_lines ident n i (field k v fs) h =
        strip_line ident k (sio_msg_to_str double_text true (ident +ℤ pos 2) v)
          (line_end n i ++ field_lines double_text ident n (suc i) fs)
        ∙ simp
            (
              strip-append,
              strip-line_end,
              strip-str true (ident +ℤ pos 2) v,
              strip-field_lines ident n (suc i) fs (omega arith),
              comma_fields n i fs (omega arith),
            )
            refl

    strip-field_words :
        (ident : ℤ) (n i : ℕ) (fs : Fields)
        → strip (field_words double_text ident n i fs) ≡ compact_fields double_text (i == 0) fs
    strip-field_words ident n i end = strip_nil
    strip-field_words ident n i (field k v fs) =
        strip_word n i k (sio_msg_to_str double_text false (ident +ℤ pos 2) v)
          (field_words double_text ident n (suc i) fs)
        ∙ simp
            (
              strip-str false (ident +ℤ pos 2) v,
              strip-field_words ident n (suc i) fs,
              suc-ne-zero i,
            )
            refl

    strip-item_lines :
        (ident : ℤ) (n i : ℕ) (vs : Items)
        → i + items_size vs ≡ n
        → strip (item_lines double_text ident n i vs) ≡ compact_items double_text true vs
    strip-item_lines ident n i nil h = strip_nil
    strip-item_lines ident n i (cons v vs) h =
        strip_item ident (sio_msg_to_str double_text true (ident +ℤ pos 2) v)
          (line_end n i ++ item_lines double_text ident n (suc i) vs)
        ∙ simp
            (
              strip-append,
              strip-line_end,
              strip-str true (ident +ℤ pos 2) v,
              strip-item_lines ident n (suc i) vs (omega arith),
              comma_items n i vs (omega arith),
            )
            refl

    strip-item_words :
        (ident : ℤ) (n i : ℕ) (vs : Items)
        → strip (item_words double_text ident n i vs) ≡ compact_items double_text (i == 0) vs
    strip-item_words ident n i nil = strip_nil
    strip-item_words ident n i (cons v vs) =
        strip_item_word n i (sio_msg_to_str double_text false (ident +ℤ pos 2) v)
          (item_words double_text ident n (suc i) vs)
        ∙ simp
            (strip-str false (ident +ℤ pos 2) v, strip-item_words ident n (suc i) vs, suc-ne-zero i)
            refl

-- With the blanks and the line ends left out, the text of a message is that of the compact printer,
-- whatever the indentation and whether it is written on lines or on one line.
pub sio_msg_to_str-compact :
    (double_text : ℕ → Bytes) (format : Bool) (ident : ℤ) (msg : Msg)
    → strip (sio_msg_to_str double_text format ident msg) ≡ compact double_text msg
sio_msg_to_str-compact double_text format ident msg = strip-str double_text format ident msg
