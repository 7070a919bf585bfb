-- ===== src/Console.antt =====
-- The console of the kernel's state of 29 June 2023, in Kernel/backup/20230629: the keys and their
-- characters (src/Input/KeyCode.cpp), and the modifiers and the cursor (src/Input/ConsoleImpl.cpp).
pub mod Screen
mod Tests
use nite_os_project.Common.{
  ℕ, zero, suc, ◌+◌, ◌-◌, ◌%◌, ◌^◌, ◌<◌, bit_and, bit_or, Bool, true, false, not, leb, ◌==◌, ◌||◌,
  if◌then◌else◌, List, [], ◌∷◌, ◌++◌,
}

-- The members of `Key` that the code treats by themselves. `letter n` is `A + n` and `num n` is
-- `Num0 + n`; `other` is any further one.
pub data Key : Type 0 where
  letter num : ℕ → Key
  caps_lock l_shift r_shift l_ctrl r_ctrl l_alt r_alt f5 enter space backspace : Key
  backtick minus equals left_bracket right_bracket backslash semicolon quote comma period slash :
      Key
  other : Key

-- `KeyModifiers`.
abbrev pub key_alt : ℕ
key_alt = 0x01

abbrev pub key_shift : ℕ
key_shift = 0x02

abbrev pub key_ctrl : ℕ
key_ctrl = 0x04

abbrev pub key_caps_lock : ℕ
key_caps_lock = 0x08

abbrev pub has : ℕ → ℕ → Bool
has modifiers modifier = not (bit_and modifiers modifier == 0)

-- `ApplyModifiers`; 0 is no character.
pub apply_modifiers : Key → ℕ → ℕ
apply_modifiers (letter n) m =
    let capslock = if has m key_shift then not (has m key_caps_lock) else has m key_caps_lock in
    (if capslock then 65 else 97) + n
apply_modifiers (num n) m =
    if has m key_shift
    then if n == 1
      then 33
      else if n == 2
      then 64
      else if n == 3
      then 35
      else if n == 4
      then 36
      else if n == 5
      then 37
      else if n == 6
      then 94
      else if n == 7
      then 38
      else if n == 8
      then 42
      else if n == 9
      then 40
      else if n == 0
      then 41
      else 0
    else 48 + n
apply_modifiers backtick m = if has m key_shift then 126 else 96
apply_modifiers minus m = if has m key_shift then 95 else 45
apply_modifiers equals m = if has m key_shift then 43 else 61
apply_modifiers left_bracket m = if has m key_shift then 123 else 91
apply_modifiers right_bracket m = if has m key_shift then 125 else 93
apply_modifiers backslash m = if has m key_shift then 124 else 92
apply_modifiers semicolon m = if has m key_shift then 58 else 59
apply_modifiers quote m = if has m key_shift then 34 else 39
apply_modifiers comma m = if has m key_shift then 60 else 44
apply_modifiers period m = if has m key_shift then 62 else 46
apply_modifiers slash m = if has m key_shift then 63 else 47
apply_modifiers _ m = 0

-- What the text presenter is told, the latest first: a character at a column and a row, or
-- characters from there on, with their colours.
pub data Drawn : Type 0 where
  text : ℕ → ℕ → ℕ → Drawn
  texts : ℕ → ℕ → List ℕ → ℕ → ℕ → Drawn
  cleared moved_up : Drawn

-- A character some times, in front of a text.
abbrev pub repeated : ℕ → ℕ → List ℕ → List ℕ
repeated c zero cs = cs
repeated c (suc n) cs = c ∷ repeated c n cs

-- `c_modifiers` and `c_split`.
abbrev pub modifiers_text : List ℕ
modifiers_text =
    67
    ∷ 97
    ∷ 112
    ∷ 115
    ∷ 76
    ∷ 111
    ∷ 99
    ∷ 107
    ∷ 58
    ∷ repeated 32 3
        (124 ∷ repeated 32 6 (124 ∷ repeated 32 7 (124 ∷ repeated 32 5 (124 ∷ repeated 32 46 []))))

abbrev pub split_text : List ℕ
split_text = repeated 45 80 []

-- `RenderModifiers`, in front of what was drawn before.
pub render_modifiers : ℕ → List Drawn → List Drawn
render_modifiers m ds =
    let on : ℕ → ℕ = λ k. if has m k then 15 else 0 in
    let off : ℕ → ℕ = λ k. if has m k then 0 else 15 in
    texts 0 1 split_text 15 0
    ∷ texts 28 0 (32 ∷ 65 ∷ 108 ∷ 116 ∷ 32 ∷ []) (off key_alt) (on key_alt)
    ∷ texts 20 0 (32 ∷ 83 ∷ 104 ∷ 105 ∷ 102 ∷ 116 ∷ 32 ∷ []) (off key_shift) (on key_shift)
    ∷ texts 13 0 (32 ∷ 67 ∷ 116 ∷ 114 ∷ 108 ∷ 32 ∷ []) (off key_ctrl) (on key_ctrl)
    ∷ texts 9 0 (32 ∷ (if has m key_caps_lock then 65 else 97) ∷ 32 ∷ []) 0 15
    ∷ texts 0 0 modifiers_text 15 0
    ∷ ds

pub record Console : Type 0 where
  pub key_modifiers : ℕ
  pub offset_x : ℕ
  pub offset_y : ℕ
  pub line_length : ℕ
  pub drawn : List Drawn

-- `Refresh` of the constructor included, which leaves `m_LineLength` as the memory has it.
pub new_console : ℕ → Console
new_console left = record {
  key_modifiers = 0;
  offset_x = 1;
  offset_y = 0;
  line_length = left;
  drawn = text 0 2 62 ∷ render_modifiers 0 (cleared ∷ []);
}

-- The next row, or the last one with the others moved up.
pub next_row : Console → Console
next_row s =
    if leb 22 s.offset_y
    then record s { drawn = render_modifiers s.key_modifiers (moved_up ∷ s.drawn) }
    else record s { offset_y = s.offset_y + 1 }

pub newline : Console → Console
newline s =
    let s = next_row (record s { line_length = 0; offset_x = 1 }) in
    record s { drawn = text 0 (s.offset_y + 2) 62 ∷ s.drawn }

pub add_char : Console → ℕ → Console
add_char s c =
    let written : Console = record s {
      drawn = text s.offset_x (2 + s.offset_y) c ∷ s.drawn;
      line_length = (s.line_length + 1) % 2 ^ 8;
      offset_x = s.offset_x + 1;
    } in
    if leb 80 written.offset_x then next_row (record written { offset_x = 0 }) else written

-- `m_KeyModifiers |= modifier` and `m_KeyModifiers &= ~(modifier)`, with the modifiers drawn anew.
pub set_modifier : Console → ℕ → Bool → Console
set_modifier s modifier true = record s {
  key_modifiers = bit_or s.key_modifiers modifier;
  drawn = render_modifiers (bit_or s.key_modifiers modifier) s.drawn;
}
set_modifier s modifier false = record s {
  key_modifiers = bit_and s.key_modifiers (255 - modifier);
  drawn = render_modifiers (bit_and s.key_modifiers (255 - modifier)) s.drawn;
}

pub toggle_caps_lock : Console → Bool → Console
toggle_caps_lock s true = set_modifier s key_caps_lock (not (has s.key_modifiers key_caps_lock))
toggle_caps_lock s false = record s { drawn = render_modifiers s.key_modifiers s.drawn }

-- The default case.
pub accept_char : Console → Key → Bool → Console
accept_char s key is_pressed =
    let code = apply_modifiers key s.key_modifiers in
    if (code == 0) || not is_pressed || (s.line_length == 255) then s else add_char s code

pub accept_key : Console → Key → Bool → Console
accept_key s caps_lock is_pressed = toggle_caps_lock s is_pressed
accept_key s l_shift is_pressed = set_modifier s key_shift is_pressed
accept_key s r_shift is_pressed = set_modifier s key_shift is_pressed
accept_key s l_ctrl is_pressed = set_modifier s key_ctrl is_pressed
accept_key s r_ctrl is_pressed = set_modifier s key_ctrl is_pressed
accept_key s l_alt is_pressed = set_modifier s key_alt is_pressed
accept_key s r_alt is_pressed = set_modifier s key_alt is_pressed
accept_key s f5 is_pressed = record s {
  drawn = render_modifiers s.key_modifiers (cleared ∷ s.drawn);
}
accept_key s enter is_pressed = if is_pressed then newline s else s
accept_key s space is_pressed = add_char s 32
accept_key s backspace is_pressed = s
accept_key s key is_pressed = accept_char s key is_pressed

-- The keys that are pressed and released over the life of a console.
pub data Keys : Console → Type 0 where
  start : (left : ℕ) → left < 2 ^ 8 → Keys (new_console left)
  next : {s : Console} (key : Key) (is_pressed : Bool) → Keys s → Keys (accept_key s key is_pressed)
