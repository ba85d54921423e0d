-- ===== src/Sio.antt =====
-- src/sio_helper.cpp: a message of socket.io and the text that `sio_msg_to_str` writes for it.
pub mod Compact
pub mod Strip
mod Tests
use conference_go_client.Common.{
  ℕ, suc, ◌==◌, ltb, ℤ, pos, pos_part, ◌+ℤ◌, Bool, true, false, not, Option, none, some, List, [],
  ◌∷◌, ◌++◌, replicate, Bytes, codes, to_string, if◌then◌else◌,
}

-- A pointer to a message, `absent` when it is null. A double is its 64 bits; the fields of an object
-- are in the order of its `std::map`.
mutual
  pub data Msg : Type 0 where
    absent null : Msg
    string : Bytes → Msg
    binary : Option Bytes → Msg
    boolean : Bool → Msg
    double : ℕ → Msg
    integer : ℤ → Msg
    object : Fields → Msg
    array : Items → Msg

  pub data Fields : Type 0 where
    end : Fields
    field : Bytes → Msg → Fields → Fields

  pub data Items : Type 0 where
    nil : Items
    cons : Msg → Items → Items

abbrev pub fields_size : Fields → ℕ
fields_size end = 0
fields_size (field k v fs) = suc (fields_size fs)

abbrev pub items_size : Items → ℕ
items_size nil = 0
items_size (cons v vs) = suc (items_size vs)

-- `std::string s_ident(std::min(std::max(ident, 0), 300), ' ')`
unfoldable pub s_ident : ℤ → Bytes
s_ident d = replicate (if ltb 300 (pos_part d) then 300 else pos_part d) b' '

abbrev pub binary_text : Option Bytes → Bytes
binary_text none = codes "b<empty>"
binary_text (some bs) = codes "b\"" ++ (bs ++ codes "\"")

-- The text after the last entry: a new line and the indentation, when there was an entry.
abbrev pub last_line : ℤ → ℕ → Bytes
last_line d n = if n == 0 then [] else 10 ∷ s_ident d

-- The text before and after entry `i` of `n` where the text is one line, and after it on lines.
abbrev pub word_start : ℕ → Bytes
word_start i = if i == 0 then codes " " else codes ", "

abbrev pub word_end : ℕ → ℕ → Bytes
word_end n i = if suc i == n then codes " " else []

abbrev pub line_end : ℕ → ℕ → Bytes
line_end n i = if suc i == n then [] else codes ","

module _ (double_text : ℕ → Bytes) where
  -- `std::to_string` of a double is a parameter; the loops count their entries as the source's do.
  unfoldable mutual
    pub sio_msg_to_str : Bool → ℤ → Msg → Bytes
    sio_msg_to_str format ident absent = codes "<empty msg>"
    sio_msg_to_str format ident null = codes "nullptr"
    sio_msg_to_str format ident (string s) = codes "\"" ++ (s ++ codes "\"")
    sio_msg_to_str format ident (binary bs) = binary_text bs
    sio_msg_to_str format ident (boolean b) = if b then codes "true" else codes "false"
    sio_msg_to_str format ident (double x) = double_text x
    sio_msg_to_str format ident (integer n) = to_string n
    sio_msg_to_str true ident (object fs) =
        codes "{"
        ++ (field_lines ident (fields_size fs) 0 fs
            ++ (last_line ident (fields_size fs) ++ codes "}"))
    sio_msg_to_str false ident (object fs) =
        codes "{" ++ (field_words ident (fields_size fs) 0 fs ++ codes "}")
    sio_msg_to_str true ident (array vs) =
        codes "["
        ++ (item_lines ident (items_size vs) 0 vs ++ (last_line ident (items_size vs) ++ codes "]"))
    sio_msg_to_str false ident (array vs) =
        codes "[" ++ (item_words ident (items_size vs) 0 vs ++ codes "]")

    pub field_lines : ℤ → ℕ → ℕ → Fields → Bytes
    field_lines ident n i end = []
    field_lines ident n i (field key value fs) =
        (10 ∷ s_ident ident)
        ++ (codes "  "
            ++ (key
                ++ (codes ": "
                    ++ (sio_msg_to_str true (ident +ℤ pos 2) value
                        ++ (line_end n i ++ field_lines ident n (suc i) fs)))))

    pub field_words : ℤ → ℕ → ℕ → Fields → Bytes
    field_words ident n i end = []
    field_words ident n i (field key value fs) =
        word_start i
        ++ (key
            ++ (codes ": "
                ++ (sio_msg_to_str false (ident +ℤ pos 2) value
                    ++ (word_end n i ++ field_words ident n (suc i) fs))))

    pub item_lines : ℤ → ℕ → ℕ → Items → Bytes
    item_lines ident n i nil = []
    item_lines ident n i (cons value vs) =
        (10 ∷ s_ident ident)
        ++ (codes "  "
            ++ (sio_msg_to_str true (ident +ℤ pos 2) value
                ++ (line_end n i ++ item_lines ident n (suc i) vs)))

    pub item_words : ℤ → ℕ → ℕ → Items → Bytes
    item_words ident n i nil = []
    item_words ident n i (cons value vs) =
        word_start i
        ++ (sio_msg_to_str false (ident +ℤ pos 2) value
            ++ (word_end n i ++ item_words ident n (suc i) vs))
