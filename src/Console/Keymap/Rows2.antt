-- ===== src/Console/Keymap/Rows2.antt =====
-- Part 2 of the table `xmap` in app_console/src/st.rs: a row of six entries per key.
use mathlib.Core.List.{List, [], ◌∷◌}
use Prim.Native.String.{String}

abbrev pub xmap_4 : List String
xmap_4 =
    "ISO_Level3_Shift" ∷ "NoSymbol" ∷ "ISO_Level3_Shift" ∷ "" ∷ "" ∷ "" ∷ "Linefeed" ∷ "NoSymbol"
    ∷ "Linefeed" ∷ "" ∷ "" ∷ "" ∷ "Home" ∷ "NoSymbol" ∷ "Home" ∷ "" ∷ "" ∷ "" ∷ "Up" ∷ "NoSymbol"
    ∷ "Up" ∷ "" ∷ "" ∷ "" ∷ "Prior" ∷ "NoSymbol" ∷ "Prior" ∷ "" ∷ "" ∷ "" ∷ "Left" ∷ "NoSymbol"
    ∷ "Left" ∷ "" ∷ "" ∷ "" ∷ "Right" ∷ "NoSymbol" ∷ "Right" ∷ "" ∷ "" ∷ "" ∷ "End" ∷ "NoSymbol"
    ∷ "End" ∷ "" ∷ "" ∷ "" ∷ "Down" ∷ "NoSymbol" ∷ "Down" ∷ "" ∷ "" ∷ "" ∷ "Next" ∷ "NoSymbol"
    ∷ "Next" ∷ "" ∷ "" ∷ "" ∷ "Insert" ∷ "NoSymbol" ∷ "Insert" ∷ "" ∷ "" ∷ "" ∷ "Delete"
    ∷ "NoSymbol" ∷ "Delete" ∷ "" ∷ "" ∷ "" ∷ "" ∷ "" ∷ "" ∷ "" ∷ "" ∷ "" ∷ "XF86AudioMute"
    ∷ "NoSymbol" ∷ "XF86AudioMute" ∷ "" ∷ "" ∷ "" ∷ "XF86AudioLowerVolume" ∷ "NoSymbol"
    ∷ "XF86AudioLowerVolume" ∷ "" ∷ "" ∷ "" ∷ "XF86AudioRaiseVolume" ∷ "NoSymbol"
    ∷ "XF86AudioRaiseVolume" ∷ "" ∷ "" ∷ "" ∷ "XF86PowerOff" ∷ "NoSymbol" ∷ "XF86PowerOff" ∷ "" ∷ ""
    ∷ "" ∷ "KP_Equal" ∷ "NoSymbol" ∷ "KP_Equal" ∷ "" ∷ "" ∷ "" ∷ "plusminus" ∷ "NoSymbol"
    ∷ "plusminus" ∷ "" ∷ "" ∷ "" ∷ "Pause" ∷ "Break" ∷ "Pause" ∷ "Break" ∷ "" ∷ "" ∷ "XF86LaunchA"
    ∷ "NoSymbol" ∷ "XF86LaunchA" ∷ "" ∷ "" ∷ "" ∷ "KP_Decimal" ∷ "KP_Decimal" ∷ "KP_Decimal"
    ∷ "KP_Decimal" ∷ "" ∷ "" ∷ "Hangul" ∷ "NoSymbol" ∷ "Hangul" ∷ "" ∷ "" ∷ "" ∷ "Hangul_Hanja"
    ∷ "NoSymbol" ∷ "Hangul_Hanja" ∷ "" ∷ "" ∷ "" ∷ "" ∷ "" ∷ "" ∷ "" ∷ "" ∷ "" ∷ []

abbrev pub xmap_5 : List String
xmap_5 =
    "Super_L" ∷ "NoSymbol" ∷ "Super_L" ∷ "" ∷ "" ∷ "" ∷ "Super_R" ∷ "NoSymbol" ∷ "Super_R" ∷ "" ∷ ""
    ∷ "" ∷ "Menu" ∷ "NoSymbol" ∷ "Menu" ∷ "" ∷ "" ∷ "" ∷ "Cancel" ∷ "NoSymbol" ∷ "Cancel" ∷ "" ∷ ""
    ∷ "" ∷ "Redo" ∷ "NoSymbol" ∷ "Redo" ∷ "" ∷ "" ∷ "" ∷ "SunProps" ∷ "NoSymbol" ∷ "SunProps" ∷ ""
    ∷ "" ∷ "" ∷ "Undo" ∷ "NoSymbol" ∷ "Undo" ∷ "" ∷ "" ∷ "" ∷ "SunFront" ∷ "NoSymbol" ∷ "SunFront"
    ∷ "" ∷ "" ∷ "" ∷ "XF86Copy" ∷ "NoSymbol" ∷ "XF86Copy" ∷ "" ∷ "" ∷ "" ∷ "XF86Open" ∷ "NoSymbol"
    ∷ "XF86Open" ∷ "" ∷ "" ∷ "" ∷ "XF86Paste" ∷ "NoSymbol" ∷ "XF86Paste" ∷ "" ∷ "" ∷ "" ∷ "Find"
    ∷ "NoSymbol" ∷ "Find" ∷ "" ∷ "" ∷ "" ∷ "XF86Cut" ∷ "NoSymbol" ∷ "XF86Cut" ∷ "" ∷ "" ∷ ""
    ∷ "Help" ∷ "NoSymbol" ∷ "Help" ∷ "" ∷ "" ∷ "" ∷ "XF86MenuKB" ∷ "NoSymbol" ∷ "XF86MenuKB" ∷ ""
    ∷ "" ∷ "" ∷ "XF86Calculator" ∷ "NoSymbol" ∷ "XF86Calculator" ∷ "" ∷ "" ∷ "" ∷ "" ∷ "" ∷ "" ∷ ""
    ∷ "" ∷ "" ∷ "XF86Sleep" ∷ "NoSymbol" ∷ "XF86Sleep" ∷ "" ∷ "" ∷ "" ∷ "XF86WakeUp" ∷ "NoSymbol"
    ∷ "XF86WakeUp" ∷ "" ∷ "" ∷ "" ∷ "XF86Explorer" ∷ "NoSymbol" ∷ "XF86Explorer" ∷ "" ∷ "" ∷ ""
    ∷ "XF86Send" ∷ "NoSymbol" ∷ "XF86Send" ∷ "" ∷ "" ∷ "" ∷ "" ∷ "" ∷ "" ∷ "" ∷ "" ∷ "" ∷ "XF86Xfer"
    ∷ "NoSymbol" ∷ "XF86Xfer" ∷ "" ∷ "" ∷ "" ∷ "XF86Launch1" ∷ "NoSymbol" ∷ "XF86Launch1" ∷ "" ∷ ""
    ∷ "" ∷ "XF86Launch2" ∷ "NoSymbol" ∷ "XF86Launch2" ∷ "" ∷ "" ∷ "" ∷ []
