-- ===== src/Console/Keymap/Rows3.antt =====
-- Part 3 of the table `xmap` in app_console/src/st.rs: a row of six entries per key.
use mathlib.Core.List.{List, [], ◌∷◌}
use Prim.Native.String.{String}

abbrev pub xmap_6 : List String
xmap_6 =
    "XF86WWW" ∷ "NoSymbol" ∷ "XF86WWW" ∷ "" ∷ "" ∷ "" ∷ "XF86DOS" ∷ "NoSymbol" ∷ "XF86DOS" ∷ "" ∷ ""
    ∷ "" ∷ "XF86ScreenSaver" ∷ "NoSymbol" ∷ "XF86ScreenSaver" ∷ "" ∷ "" ∷ "" ∷ "XF86RotateWindows"
    ∷ "NoSymbol" ∷ "XF86RotateWindows" ∷ "" ∷ "" ∷ "" ∷ "XF86TaskPane" ∷ "NoSymbol" ∷ "XF86TaskPane"
    ∷ "" ∷ "" ∷ "" ∷ "XF86Mail" ∷ "NoSymbol" ∷ "XF86Mail" ∷ "" ∷ "" ∷ "" ∷ "XF86Favorites"
    ∷ "NoSymbol" ∷ "XF86Favorites" ∷ "" ∷ "" ∷ "" ∷ "XF86MyComputer" ∷ "NoSymbol" ∷ "XF86MyComputer"
    ∷ "" ∷ "" ∷ "" ∷ "XF86Back" ∷ "NoSymbol" ∷ "XF86Back" ∷ "" ∷ "" ∷ "" ∷ "XF86Forward"
    ∷ "NoSymbol" ∷ "XF86Forward" ∷ "" ∷ "" ∷ "" ∷ "" ∷ "" ∷ "" ∷ "" ∷ "" ∷ "" ∷ "XF86Eject"
    ∷ "NoSymbol" ∷ "XF86Eject" ∷ "" ∷ "" ∷ "" ∷ "XF86Eject" ∷ "XF86Eject" ∷ "XF86Eject"
    ∷ "XF86Eject" ∷ "" ∷ "" ∷ "XF86AudioNext" ∷ "NoSymbol" ∷ "XF86AudioNext" ∷ "" ∷ "" ∷ ""
    ∷ "XF86AudioPlay" ∷ "XF86AudioPause" ∷ "XF86AudioPlay" ∷ "XF86AudioPause" ∷ "" ∷ ""
    ∷ "XF86AudioPrev" ∷ "NoSymbol" ∷ "XF86AudioPrev" ∷ "" ∷ "" ∷ "" ∷ "XF86AudioStop" ∷ "XF86Eject"
    ∷ "XF86AudioStop" ∷ "XF86Eject" ∷ "" ∷ "" ∷ "XF86AudioRecord" ∷ "NoSymbol" ∷ "XF86AudioRecord"
    ∷ "" ∷ "" ∷ "" ∷ "XF86AudioRewind" ∷ "NoSymbol" ∷ "XF86AudioRewind" ∷ "" ∷ "" ∷ "" ∷ "XF86Phone"
    ∷ "NoSymbol" ∷ "XF86Phone" ∷ "" ∷ "" ∷ "" ∷ "" ∷ "" ∷ "" ∷ "" ∷ "" ∷ "" ∷ "XF86Tools"
    ∷ "NoSymbol" ∷ "XF86Tools" ∷ "" ∷ "" ∷ "" ∷ "XF86HomePage" ∷ "NoSymbol" ∷ "XF86HomePage" ∷ ""
    ∷ "" ∷ "" ∷ "XF86Reload" ∷ "NoSymbol" ∷ "XF86Reload" ∷ "" ∷ "" ∷ "" ∷ "XF86Close" ∷ "NoSymbol"
    ∷ "XF86Close" ∷ "" ∷ "" ∷ "" ∷ []

abbrev pub xmap_7 : List String
xmap_7 =
    "" ∷ "" ∷ "" ∷ "" ∷ "" ∷ "" ∷ "" ∷ "" ∷ "" ∷ "" ∷ "" ∷ "" ∷ "XF86ScrollUp" ∷ "NoSymbol"
    ∷ "XF86ScrollUp" ∷ "" ∷ "" ∷ "" ∷ "XF86ScrollDown" ∷ "NoSymbol" ∷ "XF86ScrollDown" ∷ "" ∷ ""
    ∷ "" ∷ "parenleft" ∷ "NoSymbol" ∷ "parenleft" ∷ "" ∷ "" ∷ "" ∷ "parenright" ∷ "NoSymbol"
    ∷ "parenright" ∷ "" ∷ "" ∷ "" ∷ "XF86New" ∷ "NoSymbol" ∷ "XF86New" ∷ "" ∷ "" ∷ "" ∷ "Redo"
    ∷ "NoSymbol" ∷ "Redo" ∷ "" ∷ "" ∷ "" ∷ "XF86Tools" ∷ "NoSymbol" ∷ "XF86Tools" ∷ "" ∷ "" ∷ ""
    ∷ "XF86Launch5" ∷ "NoSymbol" ∷ "XF86Launch5" ∷ "" ∷ "" ∷ "" ∷ "XF86Launch6" ∷ "NoSymbol"
    ∷ "XF86Launch6" ∷ "" ∷ "" ∷ "" ∷ "XF86Launch7" ∷ "NoSymbol" ∷ "XF86Launch7" ∷ "" ∷ "" ∷ ""
    ∷ "XF86Launch8" ∷ "NoSymbol" ∷ "XF86Launch8" ∷ "" ∷ "" ∷ "" ∷ "XF86Launch9" ∷ "NoSymbol"
    ∷ "XF86Launch9" ∷ "" ∷ "" ∷ "" ∷ "" ∷ "" ∷ "" ∷ "" ∷ "" ∷ "" ∷ "XF86AudioMicMute" ∷ "NoSymbol"
    ∷ "XF86AudioMicMute" ∷ "" ∷ "" ∷ "" ∷ "XF86TouchpadToggle" ∷ "NoSymbol" ∷ "XF86TouchpadToggle"
    ∷ "" ∷ "" ∷ "" ∷ "XF86TouchpadOn" ∷ "NoSymbol" ∷ "XF86TouchpadOn" ∷ "" ∷ "" ∷ ""
    ∷ "XF86TouchpadOff" ∷ "NoSymbol" ∷ "XF86TouchpadOff" ∷ "" ∷ "" ∷ "" ∷ "" ∷ "" ∷ "" ∷ "" ∷ ""
    ∷ "" ∷ "Mode_switch" ∷ "NoSymbol" ∷ "Mode_switch" ∷ "" ∷ "" ∷ "" ∷ "NoSymbol" ∷ "Alt_L"
    ∷ "NoSymbol" ∷ "Alt_L" ∷ "" ∷ "" ∷ "NoSymbol" ∷ "Meta_L" ∷ "NoSymbol" ∷ "Meta_L" ∷ "" ∷ ""
    ∷ "NoSymbol" ∷ "Super_L" ∷ "NoSymbol" ∷ "Super_L" ∷ "" ∷ "" ∷ "NoSymbol" ∷ "Hyper_L"
    ∷ "NoSymbol" ∷ "Hyper_L" ∷ "" ∷ "" ∷ []
