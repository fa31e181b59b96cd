-- ===== src/Keyboard/Table.antt =====
-- The enumeration `KEY` and the table `keymap` of kernel/drivers/keyboard.c.
use unos.Base.{ℕ, Bool, false, List, [], ◌∷◌}

pub data Key : Type 0 where
  key_none key_esc key_1 key_2 key_3 key_4 key_5 key_6 key_7 key_8 key_9 key_0 key_minus : Key
  key_equal key_backspace key_tab key_q key_w key_e key_r key_t key_y key_u key_i key_o key_p : Key
  key_bracket_l key_bracket_r key_enter key_ctrl_l key_a key_s key_d key_f key_g key_h key_j : Key
  key_k key_l key_semicolon key_quote key_backquote key_shift_l key_backslash key_z key_x key_c :
      Key
  key_v key_b key_n key_m key_comma key_point key_slash key_shift_r key_star key_alt_l key_space :
      Key
  key_capslock key_f1 key_f2 key_f3 key_f4 key_f5 key_f6 key_f7 key_f8 key_f9 key_f10 : Key
  key_numlock key_scrlock key_pad_7 key_pad_8 key_pad_9 key_pad_minus key_pad_4 key_pad_5 : Key
  key_pad_6 key_pad_plus key_pad_1 key_pad_2 key_pad_3 key_pad_0 key_pad_point key_54 key_55 : Key
  key_56 key_f11 key_f12 key_59 key_win_l key_win_r key_clipboard key_5d key_5e key_print_screen :
      Key

-- the value of a member of the enumeration, which is the index of its row in the table
abbrev pub code : Key → ℕ
code key_none = 0
code key_esc = 1
code key_1 = 2
code key_2 = 3
code key_3 = 4
code key_4 = 5
code key_5 = 6
code key_6 = 7
code key_7 = 8
code key_8 = 9
code key_9 = 10
code key_0 = 11
code key_minus = 12
code key_equal = 13
code key_backspace = 14
code key_tab = 15
code key_q = 16
code key_w = 17
code key_e = 18
code key_r = 19
code key_t = 20
code key_y = 21
code key_u = 22
code key_i = 23
code key_o = 24
code key_p = 25
code key_bracket_l = 26
code key_bracket_r = 27
code key_enter = 28
code key_ctrl_l = 29
code key_a = 30
code key_s = 31
code key_d = 32
code key_f = 33
code key_g = 34
code key_h = 35
code key_j = 36
code key_k = 37
code key_l = 38
code key_semicolon = 39
code key_quote = 40
code key_backquote = 41
code key_shift_l = 42
code key_backslash = 43
code key_z = 44
code key_x = 45
code key_c = 46
code key_v = 47
code key_b = 48
code key_n = 49
code key_m = 50
code key_comma = 51
code key_point = 52
code key_slash = 53
code key_shift_r = 54
code key_star = 55
code key_alt_l = 56
code key_space = 57
code key_capslock = 58
code key_f1 = 59
code key_f2 = 60
code key_f3 = 61
code key_f4 = 62
code key_f5 = 63
code key_f6 = 64
code key_f7 = 65
code key_f8 = 66
code key_f9 = 67
code key_f10 = 68
code key_numlock = 69
code key_scrlock = 70
code key_pad_7 = 71
code key_pad_8 = 72
code key_pad_9 = 73
code key_pad_minus = 74
code key_pad_4 = 75
code key_pad_5 = 76
code key_pad_6 = 77
code key_pad_plus = 78
code key_pad_1 = 79
code key_pad_2 = 80
code key_pad_3 = 81
code key_pad_0 = 82
code key_pad_point = 83
code key_54 = 84
code key_55 = 85
code key_56 = 86
code key_f11 = 87
code key_f12 = 88
code key_59 = 89
code key_win_l = 90
code key_win_r = 91
code key_clipboard = 92
code key_5d = 93
code key_5e = 94
code key_print_screen = 95

-- One row: the two characters, and the two flags that the handler writes (columns 0 to 3).
pub record Row : Type 0 where
  pub normal : ℕ
  pub shifted : ℕ
  pub down : Bool
  pub ext_down : Bool

abbrev pub inv : ℕ
inv = 0

abbrev pub key : ℕ → ℕ → Row
key a b = record { normal = a; shifted = b; down = false; ext_down = false }

unfoldable pub initial_keymap : List Row
initial_keymap =
    key inv inv
    ∷ key 0x1b 0x1b
    ∷ key b'1' 33
    ∷ key b'2' 64
    ∷ key b'3' 35
    ∷ key b'4' 36
    ∷ key b'5' 37
    ∷ key b'6' 94
    ∷ key b'7' 38
    ∷ key b'8' 42
    ∷ key b'9' 40
    ∷ key b'0' 41
    ∷ key 45 95
    ∷ key 61 43
    ∷ key 8 8
    ∷ key 9 9
    ∷ key b'q' b'Q'
    ∷ key b'w' b'W'
    ∷ key b'e' b'E'
    ∷ key b'r' b'R'
    ∷ key b't' b'T'
    ∷ key b'y' b'Y'
    ∷ key b'u' b'U'
    ∷ key b'i' b'I'
    ∷ key b'o' b'O'
    ∷ key b'p' b'P'
    ∷ key 91 123
    ∷ key 93 125
    ∷ key 10 10
    ∷ key inv inv
    ∷ key b'a' b'A'
    ∷ key b's' b'S'
    ∷ key b'd' b'D'
    ∷ key b'f' b'F'
    ∷ key b'g' b'G'
    ∷ key b'h' b'H'
    ∷ key b'j' b'J'
    ∷ key b'k' b'K'
    ∷ key b'l' b'L'
    ∷ key 59 58
    ∷ key 39 34
    ∷ key 96 126
    ∷ key inv inv
    ∷ key 92 124
    ∷ key b'z' b'Z'
    ∷ key b'x' b'X'
    ∷ key b'c' b'C'
    ∷ key b'v' b'V'
    ∷ key b'b' b'B'
    ∷ key b'n' b'N'
    ∷ key b'm' b'M'
    ∷ key 44 60
    ∷ key 46 62
    ∷ key 47 63
    ∷ key inv inv
    ∷ key 42 42
    ∷ key inv inv
    ∷ key 32 32
    ∷ key inv inv
    ∷ key inv inv
    ∷ key inv inv
    ∷ key inv inv
    ∷ key inv inv
    ∷ key inv inv
    ∷ key inv inv
    ∷ key inv inv
    ∷ key inv inv
    ∷ key inv inv
    ∷ key inv inv
    ∷ key inv inv
    ∷ key inv inv
    ∷ key b'7' inv
    ∷ key b'8' inv
    ∷ key b'9' inv
    ∷ key 45 45
    ∷ key b'4' inv
    ∷ key b'5' inv
    ∷ key b'6' inv
    ∷ key 43 43
    ∷ key b'1' inv
    ∷ key b'2' inv
    ∷ key b'3' inv
    ∷ key b'0' inv
    ∷ key 46 0x7F
    ∷ key inv inv
    ∷ key inv inv
    ∷ key inv inv
    ∷ key inv inv
    ∷ key inv inv
    ∷ key inv inv
    ∷ key inv inv
    ∷ key inv inv
    ∷ key inv inv
    ∷ key inv inv
    ∷ key inv inv
    ∷ key inv inv
    ∷ []
