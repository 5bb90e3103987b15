-- ===== src/Console/Keymap/Rows1.antt =====
-- Part 1 of the table `xmap` in app_console/src/st.rs: a row of six entries per key.
use mathlib.Core.List.{List, [], ◌∷◌}
use Prim.Native.String.{String}

abbrev pub xmap_2 : List String
xmap_2 =
    "comma" ∷ "question" ∷ "m" ∷ "M" ∷ "dead_acute" ∷ "dead_doubleacute" ∷ "semicolon" ∷ "period"
    ∷ "comma" ∷ "less" ∷ "horizconnector" ∷ "multiply" ∷ "colon" ∷ "slash" ∷ "period" ∷ "greater"
    ∷ "periodcentered" ∷ "division" ∷ "exclam" ∷ "section" ∷ "slash" ∷ "question" ∷ "dead_belowdot"
    ∷ "dead_abovedot" ∷ "Shift_R" ∷ "NoSymbol" ∷ "Shift_R" ∷ "" ∷ "" ∷ "" ∷ "KP_Multiply"
    ∷ "KP_Multiply" ∷ "KP_Multiply" ∷ "KP_Multiply" ∷ "KP_Multiply" ∷ "KP_Multiply" ∷ "Alt_L"
    ∷ "Meta_L" ∷ "Alt_L" ∷ "Meta_L" ∷ "" ∷ "" ∷ "space" ∷ "NoSymbol" ∷ "space" ∷ "" ∷ "" ∷ ""
    ∷ "Caps_Lock" ∷ "NoSymbol" ∷ "Caps_Lock" ∷ "" ∷ "" ∷ "" ∷ "F1" ∷ "F1" ∷ "F1" ∷ "F1" ∷ "F1"
    ∷ "F1" ∷ "F2" ∷ "F2" ∷ "F2" ∷ "F2" ∷ "F2" ∷ "F2" ∷ "F3" ∷ "F3" ∷ "F3" ∷ "F3" ∷ "F3" ∷ "F3"
    ∷ "F4" ∷ "F4" ∷ "F4" ∷ "F4" ∷ "F4" ∷ "F4" ∷ "F5" ∷ "F5" ∷ "F5" ∷ "F5" ∷ "F5" ∷ "F5" ∷ "F6"
    ∷ "F6" ∷ "F6" ∷ "F6" ∷ "F6" ∷ "F6" ∷ "F7" ∷ "F7" ∷ "F7" ∷ "F7" ∷ "F7" ∷ "F7" ∷ "F8" ∷ "F8"
    ∷ "F8" ∷ "F8" ∷ "F8" ∷ "F8" ∷ "F9" ∷ "F9" ∷ "F9" ∷ "F9" ∷ "F9" ∷ "F9" ∷ "F10" ∷ "F10" ∷ "F10"
    ∷ "F10" ∷ "F10" ∷ "F10" ∷ "Num_Lock" ∷ "NoSymbol" ∷ "Num_Lock" ∷ "" ∷ "" ∷ "" ∷ "Scroll_Lock"
    ∷ "NoSymbol" ∷ "Scroll_Lock" ∷ "" ∷ "" ∷ "" ∷ "KP_Home" ∷ "KP_7" ∷ "KP_Home" ∷ "KP_7" ∷ "" ∷ ""
    ∷ "KP_Up" ∷ "KP_8" ∷ "KP_Up" ∷ "KP_8" ∷ "" ∷ "" ∷ "KP_Prior" ∷ "KP_9" ∷ "KP_Prior" ∷ "KP_9" ∷ ""
    ∷ "" ∷ "KP_Subtract" ∷ "KP_Subtract" ∷ "KP_Subtract" ∷ "KP_Subtract" ∷ "KP_Subtract"
    ∷ "KP_Subtract" ∷ []

abbrev pub xmap_3 : List String
xmap_3 =
    "KP_Left" ∷ "KP_4" ∷ "KP_Left" ∷ "KP_4" ∷ "" ∷ "" ∷ "KP_Begin" ∷ "KP_5" ∷ "KP_Begin" ∷ "KP_5"
    ∷ "" ∷ "" ∷ "KP_Right" ∷ "KP_6" ∷ "KP_Right" ∷ "KP_6" ∷ "" ∷ "" ∷ "KP_Add" ∷ "KP_Add" ∷ "KP_Add"
    ∷ "KP_Add" ∷ "KP_Add" ∷ "KP_Add" ∷ "KP_End" ∷ "KP_1" ∷ "KP_End" ∷ "KP_1" ∷ "" ∷ "" ∷ "KP_Down"
    ∷ "KP_2" ∷ "KP_Down" ∷ "KP_2" ∷ "" ∷ "" ∷ "KP_Next" ∷ "KP_3" ∷ "KP_Next" ∷ "KP_3" ∷ "" ∷ ""
    ∷ "KP_Insert" ∷ "KP_0" ∷ "KP_Insert" ∷ "KP_0" ∷ "" ∷ "" ∷ "KP_Delete" ∷ "KP_Decimal"
    ∷ "KP_Delete" ∷ "KP_Decimal" ∷ "" ∷ "" ∷ "ISO_Level3_Shift" ∷ "NoSymbol" ∷ "ISO_Level3_Shift"
    ∷ "" ∷ "" ∷ "" ∷ "" ∷ "" ∷ "" ∷ "" ∷ "" ∷ "" ∷ "less" ∷ "greater" ∷ "less" ∷ "greater" ∷ "bar"
    ∷ "brokenbar" ∷ "F11" ∷ "F11" ∷ "F11" ∷ "F11" ∷ "F11" ∷ "F11" ∷ "F12" ∷ "F12" ∷ "F12" ∷ "F12"
    ∷ "F12" ∷ "F12" ∷ "" ∷ "" ∷ "" ∷ "" ∷ "" ∷ "" ∷ "Katakana" ∷ "NoSymbol" ∷ "Katakana" ∷ "" ∷ ""
    ∷ "" ∷ "Hiragana" ∷ "NoSymbol" ∷ "Hiragana" ∷ "" ∷ "" ∷ "" ∷ "Henkan_Mode" ∷ "NoSymbol"
    ∷ "Henkan_Mode" ∷ "" ∷ "" ∷ "" ∷ "Hiragana_Katakana" ∷ "NoSymbol" ∷ "Hiragana_Katakana" ∷ ""
    ∷ "" ∷ "" ∷ "Muhenkan" ∷ "NoSymbol" ∷ "Muhenkan" ∷ "" ∷ "" ∷ "" ∷ "" ∷ "" ∷ "" ∷ "" ∷ "" ∷ ""
    ∷ "KP_Enter" ∷ "NoSymbol" ∷ "KP_Enter" ∷ "" ∷ "" ∷ "" ∷ "Control_R" ∷ "NoSymbol" ∷ "Control_R"
    ∷ "" ∷ "" ∷ "" ∷ "KP_Divide" ∷ "KP_Divide" ∷ "KP_Divide" ∷ "KP_Divide" ∷ "KP_Divide"
    ∷ "KP_Divide" ∷ "Print" ∷ "Sys_Req" ∷ "Print" ∷ "Sys_Req" ∷ "" ∷ "" ∷ []
