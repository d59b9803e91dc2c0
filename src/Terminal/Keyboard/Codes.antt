-- ===== src/Terminal/Keyboard/Codes.antt =====
-- The key codes of kernel/src/HAL/drivers/Keyboard.hpp that kernel/src/tty/KeyboardInput.cpp names, as
-- the numbers of their enumerators.
use frosty_os_old.Common.{ℕ}

abbrev pub kc_0 : ℕ
kc_0 = 0

abbrev pub kc_1 : ℕ
kc_1 = 1

abbrev pub kc_2 : ℕ
kc_2 = 2

abbrev pub kc_3 : ℕ
kc_3 = 3

abbrev pub kc_4 : ℕ
kc_4 = 4

abbrev pub kc_5 : ℕ
kc_5 = 5

abbrev pub kc_6 : ℕ
kc_6 = 6

abbrev pub kc_7 : ℕ
kc_7 = 7

abbrev pub kc_8 : ℕ
kc_8 = 8

abbrev pub kc_9 : ℕ
kc_9 = 9

abbrev pub kc_a : ℕ
kc_a = 10

abbrev pub kc_z : ℕ
kc_z = 35

abbrev pub kc_grave : ℕ
kc_grave = 60

abbrev pub kc_minus : ℕ
kc_minus = 61

abbrev pub kc_equals : ℕ
kc_equals = 62

abbrev pub kc_backspace : ℕ
kc_backspace = 63

abbrev pub kc_tab : ℕ
kc_tab = 64

abbrev pub kc_lbracket : ℕ
kc_lbracket = 65

abbrev pub kc_rbracket : ℕ
kc_rbracket = 66

abbrev pub kc_backslash : ℕ
kc_backslash = 67

abbrev pub kc_capslock : ℕ
kc_capslock = 68

abbrev pub kc_semicolon : ℕ
kc_semicolon = 69

abbrev pub kc_apostrophe : ℕ
kc_apostrophe = 70

abbrev pub kc_enter : ℕ
kc_enter = 71

abbrev pub kc_lshift : ℕ
kc_lshift = 72

abbrev pub kc_rshift : ℕ
kc_rshift = 73

abbrev pub kc_comma : ℕ
kc_comma = 74

abbrev pub kc_period : ℕ
kc_period = 75

abbrev pub kc_slash : ℕ
kc_slash = 76

abbrev pub kc_lctrl : ℕ
kc_lctrl = 77

abbrev pub kc_rctrl : ℕ
kc_rctrl = 78

abbrev pub kc_lalt : ℕ
kc_lalt = 79

abbrev pub kc_ralt : ℕ
kc_ralt = 80

abbrev pub kc_space : ℕ
kc_space = 81

abbrev pub kc_numlock : ℕ
kc_numlock = 86

abbrev pub kc_numpad_0 : ℕ
kc_numpad_0 = 98

abbrev pub kc_numpad_9 : ℕ
kc_numpad_9 = 107

abbrev pub kc_numpad_enter : ℕ
kc_numpad_enter = 108

abbrev pub kc_numpad_plus : ℕ
kc_numpad_plus = 109

abbrev pub kc_numpad_minus : ℕ
kc_numpad_minus = 110

abbrev pub kc_numpad_asterisk : ℕ
kc_numpad_asterisk = 111

abbrev pub kc_numpad_slash : ℕ
kc_numpad_slash = 112

abbrev pub kc_numpad_period : ℕ
kc_numpad_period = 113

abbrev pub kc_esc : ℕ
kc_esc = 114

abbrev pub kc_del : ℕ
kc_del = 115
