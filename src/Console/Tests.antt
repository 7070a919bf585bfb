-- ===== src/Console/Tests.antt =====
-- A console that has been made with 7 left in its memory, and keys that are pressed on it.
use nite_os_project.Common.{◌≡◌, refl, arith, true, false, [], ◌∷◌}
use nite_os_project.Console.{
  Key, letter, space, enter, l_shift, text, cleared, render_modifiers, key_shift, Console,
  new_console, add_char, set_modifier, accept_char, accept_key, apply_modifiers, start, next,
}
use nite_os_project.Console.Screen.{IsOnScreen, Keys-IsOnScreen}

abbrev press : Console → Key → Console
press s key = accept_key (accept_key s key true) key false

two_spaces :
    (press (new_console 7) space).drawn
    ≡ text 2 2 32 ∷ text 1 2 32 ∷ text 0 2 62 ∷ render_modifiers 0 (cleared ∷ [])
unfolding new_console accept_key add_char
two_spaces = refl

shifted :
    (press (accept_key (new_console 7) l_shift true) (letter 2)).drawn
    ≡ text 1 2 67 ∷ render_modifiers key_shift (text 0 2 62 ∷ render_modifiers 0 (cleared ∷ []))
unfolding new_console accept_key accept_char add_char set_modifier apply_modifiers
shifted = refl

Keys-IsOnScreen_example :
    IsOnScreen (accept_key (accept_key (new_console 7) (letter 2) true) enter true)
Keys-IsOnScreen_example =
    Keys-IsOnScreen _ (next enter true (next (letter 2) true (start 7 (omega arith))))
