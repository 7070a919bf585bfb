-- ===== src/Console/Screen.antt =====
-- The cursor stays on the screen of 80 columns and 25 rows, and so does what is drawn.
use nite_os_project.Common.{
  ℕ, ◌+◌, ◌^◌, ◌<◌, ◌≤◌, arith, Bool, true, false, not, leb, ◌==◌, ◌||◌, List, [], ◌∷◌, length,
  Bool-cases, inl, inr,
}
use nite_os_project.Console.{
  Key, letter, num, caps_lock, l_shift, r_shift, l_ctrl, r_ctrl, l_alt, r_alt, f5, enter, space,
  backspace, backtick, minus, equals, left_bracket, right_bracket, backslash, semicolon, quote,
  comma, period, slash, other, Drawn, text, texts, cleared, moved_up, render_modifiers, Console,
  new_console, next_row, newline, add_char, set_modifier, toggle_caps_lock, accept_char, accept_key,
  Keys, start, next, apply_modifiers, key_shift, key_ctrl, key_alt, key_caps_lock,
}

abbrev pub AllInside : List Drawn → Type 0
AllInside [] = Unit
AllInside (text x y c ∷ ds) = ((x < 80) × (y < 25)) × AllInside ds
AllInside (cleared ∷ ds) = AllInside ds
AllInside (moved_up ∷ ds) = AllInside ds
AllInside (texts x y cs fore back ∷ ds) = ((x + length cs ≤ 80) × (y < 25)) × AllInside ds

render_modifiers-AllInside :
    (m : ℕ) (ds : List Drawn) → AllInside ds → AllInside (render_modifiers m ds)
unfolding render_modifiers
render_modifiers-AllInside m ds h = (
  (omega arith, omega arith),
  (
    (omega arith, omega arith),
    (
      (omega arith, omega arith),
      ((omega arith, omega arith), ((omega arith, omega arith), ((omega arith, omega arith), h))),
    ),
  ),
)

pub record IsOnScreen (s : Console) : Type 0 where
  pub column : s.offset_x < 80
  pub row : s.offset_y ≤ 22
  pub length_bound : s.line_length < 2 ^ 8
  pub inside : AllInside s.drawn

next_row-IsOnScreen : (s : Console) → IsOnScreen s → IsOnScreen (next_row s)
unfolding next_row
next_row-IsOnScreen s h = elim (Bool-cases (leb 22 s.offset_y)) [
  | inl last ↦ rw last (record {
    column = h.column;
    row = h.row;
    length_bound = h.length_bound;
    inside = render_modifiers-AllInside s.key_modifiers _ h.inside;
  })
  | inr less ↦ rw less (record {
    column = h.column;
    row = ground (arith, h.row);
    length_bound = h.length_bound;
    inside = h.inside;
  })
]

newline-IsOnScreen : (s : Console) → IsOnScreen s → IsOnScreen (newline s)
unfolding newline
newline-IsOnScreen s h =
    let from : Console = record s { line_length = 0; offset_x = 1 } in
    let n = next_row-IsOnScreen from (record {
      column = omega arith;
      row = h.row;
      length_bound = omega arith;
      inside = h.inside;
    }) in
    record {
      column = n.column;
      row = n.row;
      length_bound = n.length_bound;
      inside = ((omega arith, omega (arith, n.row)), n.inside);
    }

add_char-IsOnScreen : (s : Console) (c : ℕ) → IsOnScreen s → IsOnScreen (add_char s c)
unfolding add_char
add_char-IsOnScreen s c h = elim (Bool-cases (leb 80 (s.offset_x + 1))) [
  | inl full ↦ rw full (
      next_row-IsOnScreen _ (record {
        column = omega arith;
        row = h.row;
        length_bound = omega arith;
        inside = ((h.column, omega (arith, h.row)), h.inside);
      }))
  | inr room ↦ rw room (record {
    column = ground (arith, h.column);
    row = h.row;
    length_bound = omega arith;
    inside = ((h.column, omega (arith, h.row)), h.inside);
  })
]

set_modifier-IsOnScreen :
    (s : Console) (m : ℕ) (on : Bool) → IsOnScreen s → IsOnScreen (set_modifier s m on)
unfolding set_modifier
set_modifier-IsOnScreen s m true h = record {
  column = h.column;
  row = h.row;
  length_bound = h.length_bound;
  inside = render_modifiers-AllInside _ _ h.inside;
}
set_modifier-IsOnScreen s m false h = record {
  column = h.column;
  row = h.row;
  length_bound = h.length_bound;
  inside = render_modifiers-AllInside _ _ h.inside;
}

toggle_caps_lock-IsOnScreen :
    (s : Console) (on : Bool) → IsOnScreen s → IsOnScreen (toggle_caps_lock s on)
unfolding toggle_caps_lock
toggle_caps_lock-IsOnScreen s true h = set_modifier-IsOnScreen s key_caps_lock _ h
toggle_caps_lock-IsOnScreen s false h = record {
  column = h.column;
  row = h.row;
  length_bound = h.length_bound;
  inside = render_modifiers-AllInside _ _ h.inside;
}

accept_char-IsOnScreen :
    (s : Console) (key : Key) (is_pressed : Bool)
    → IsOnScreen s
    → IsOnScreen (accept_char s key is_pressed)
unfolding accept_char
accept_char-IsOnScreen s key is_pressed h =
    let code = apply_modifiers key s.key_modifiers in
    elim (Bool-cases ((code == 0) || not is_pressed || (s.line_length == 255))) [
      | inl ignored ↦ rw ignored h
      | inr drawn ↦ rw drawn (add_char-IsOnScreen s code h)
    ]

accept_key-IsOnScreen :
    (s : Console) (key : Key) (is_pressed : Bool)
    → IsOnScreen s
    → IsOnScreen (accept_key s key is_pressed)
unfolding accept_key
accept_key-IsOnScreen s caps_lock p h = toggle_caps_lock-IsOnScreen s p h
accept_key-IsOnScreen s l_shift p h = set_modifier-IsOnScreen s key_shift p h
accept_key-IsOnScreen s r_shift p h = set_modifier-IsOnScreen s key_shift p h
accept_key-IsOnScreen s l_ctrl p h = set_modifier-IsOnScreen s key_ctrl p h
accept_key-IsOnScreen s r_ctrl p h = set_modifier-IsOnScreen s key_ctrl p h
accept_key-IsOnScreen s l_alt p h = set_modifier-IsOnScreen s key_alt p h
accept_key-IsOnScreen s r_alt p h = set_modifier-IsOnScreen s key_alt p h
accept_key-IsOnScreen s f5 p h = record {
  column = h.column;
  row = h.row;
  length_bound = h.length_bound;
  inside = render_modifiers-AllInside _ _ h.inside;
}
accept_key-IsOnScreen s enter true h = newline-IsOnScreen s h
accept_key-IsOnScreen s enter false h = h
accept_key-IsOnScreen s space p h = add_char-IsOnScreen s 32 h
accept_key-IsOnScreen s backspace p h = h
accept_key-IsOnScreen s (letter n) p h = accept_char-IsOnScreen s (letter n) p h
accept_key-IsOnScreen s (num n) p h = accept_char-IsOnScreen s (num n) p h
accept_key-IsOnScreen s backtick p h = accept_char-IsOnScreen s backtick p h
accept_key-IsOnScreen s minus p h = accept_char-IsOnScreen s minus p h
accept_key-IsOnScreen s equals p h = accept_char-IsOnScreen s equals p h
accept_key-IsOnScreen s left_bracket p h = accept_char-IsOnScreen s left_bracket p h
accept_key-IsOnScreen s right_bracket p h = accept_char-IsOnScreen s right_bracket p h
accept_key-IsOnScreen s backslash p h = accept_char-IsOnScreen s backslash p h
accept_key-IsOnScreen s semicolon p h = accept_char-IsOnScreen s semicolon p h
accept_key-IsOnScreen s quote p h = accept_char-IsOnScreen s quote p h
accept_key-IsOnScreen s comma p h = accept_char-IsOnScreen s comma p h
accept_key-IsOnScreen s period p h = accept_char-IsOnScreen s period p h
accept_key-IsOnScreen s slash p h = accept_char-IsOnScreen s slash p h
accept_key-IsOnScreen s other p h = accept_char-IsOnScreen s other p h

-- Whatever keys are pressed and released after the console is made, its cursor stays in one of the
-- 80 columns and of the 23 rows below the two that show the modifiers, and every character it has
-- drawn was drawn within the 80 columns and 25 rows of the screen.
pub Keys-IsOnScreen : (s : Console) → Keys s → IsOnScreen s
unfolding new_console
Keys-IsOnScreen s (start left bound) = record {
  column = omega arith;
  row = omega arith;
  length_bound = bound;
  inside = ((omega arith, omega arith), render_modifiers-AllInside 0 _ tt);
}
Keys-IsOnScreen s (next {s = before} key p ks) =
    accept_key-IsOnScreen before key p (Keys-IsOnScreen before ks)
