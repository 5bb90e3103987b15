-- ===== src/Console/Keymap/Rows4.antt =====
-- Part 4 of the table `xmap` in app_console/src/st.rs: a row of six entries per key.
use mathlib.Core.List.{List, [], ◌∷◌}
use Prim.Native.String.{String}

abbrev pub xmap_8 : List String
xmap_8 =
    "XF86AudioPlay" ∷ "NoSymbol" ∷ "XF86AudioPlay" ∷ "" ∷ "" ∷ "" ∷ "XF86AudioPause" ∷ "NoSymbol"
    ∷ "XF86AudioPause" ∷ "" ∷ "" ∷ "" ∷ "XF86Launch3" ∷ "NoSymbol" ∷ "XF86Launch3" ∷ "" ∷ "" ∷ ""
    ∷ "XF86Launch4" ∷ "NoSymbol" ∷ "XF86Launch4" ∷ "" ∷ "" ∷ "" ∷ "XF86LaunchB" ∷ "NoSymbol"
    ∷ "XF86LaunchB" ∷ "" ∷ "" ∷ "" ∷ "XF86Suspend" ∷ "NoSymbol" ∷ "XF86Suspend" ∷ "" ∷ "" ∷ ""
    ∷ "XF86Close" ∷ "NoSymbol" ∷ "XF86Close" ∷ "" ∷ "" ∷ "" ∷ "XF86AudioPlay" ∷ "NoSymbol"
    ∷ "XF86AudioPlay" ∷ "" ∷ "" ∷ "" ∷ "XF86AudioForward" ∷ "NoSymbol" ∷ "XF86AudioForward" ∷ ""
    ∷ "" ∷ "" ∷ "" ∷ "" ∷ "" ∷ "" ∷ "" ∷ "" ∷ "Print" ∷ "NoSymbol" ∷ "Print" ∷ "" ∷ "" ∷ "" ∷ ""
    ∷ "" ∷ "" ∷ "" ∷ "" ∷ "" ∷ "XF86WebCam" ∷ "NoSymbol" ∷ "XF86WebCam" ∷ "" ∷ "" ∷ ""
    ∷ "XF86AudioPreset" ∷ "NoSymbol" ∷ "XF86AudioPreset" ∷ "" ∷ "" ∷ "" ∷ "" ∷ "" ∷ "" ∷ "" ∷ ""
    ∷ "" ∷ "XF86Mail" ∷ "NoSymbol" ∷ "XF86Mail" ∷ "" ∷ "" ∷ "" ∷ "XF86Messenger" ∷ "NoSymbol"
    ∷ "XF86Messenger" ∷ "" ∷ "" ∷ "" ∷ "XF86Search" ∷ "NoSymbol" ∷ "XF86Search" ∷ "" ∷ "" ∷ ""
    ∷ "XF86Go" ∷ "NoSymbol" ∷ "XF86Go" ∷ "" ∷ "" ∷ "" ∷ "XF86Finance" ∷ "NoSymbol" ∷ "XF86Finance"
    ∷ "" ∷ "" ∷ "" ∷ "XF86Game" ∷ "NoSymbol" ∷ "XF86Game" ∷ "" ∷ "" ∷ "" ∷ "XF86Shop" ∷ "NoSymbol"
    ∷ "XF86Shop" ∷ "" ∷ "" ∷ "" ∷ "" ∷ "" ∷ "" ∷ "" ∷ "" ∷ "" ∷ "Cancel" ∷ "NoSymbol" ∷ "Cancel"
    ∷ "" ∷ "" ∷ "" ∷ "XF86MonBrightnessDown" ∷ "NoSymbol" ∷ "XF86MonBrightnessDown" ∷ "" ∷ "" ∷ ""
    ∷ []

abbrev pub xmap_9 : List String
xmap_9 =
    "XF86MonBrightnessUp" ∷ "NoSymbol" ∷ "XF86MonBrightnessUp" ∷ "" ∷ "" ∷ "" ∷ "XF86AudioMedia"
    ∷ "NoSymbol" ∷ "XF86AudioMedia" ∷ "" ∷ "" ∷ "" ∷ "XF86Display" ∷ "NoSymbol" ∷ "XF86Display" ∷ ""
    ∷ "" ∷ "" ∷ "XF86KbdLightOnOff" ∷ "NoSymbol" ∷ "XF86KbdLightOnOff" ∷ "" ∷ "" ∷ ""
    ∷ "XF86KbdBrightnessDown" ∷ "NoSymbol" ∷ "XF86KbdBrightnessDown" ∷ "" ∷ "" ∷ ""
    ∷ "XF86KbdBrightnessUp" ∷ "NoSymbol" ∷ "XF86KbdBrightnessUp" ∷ "" ∷ "" ∷ "" ∷ "XF86Send"
    ∷ "NoSymbol" ∷ "XF86Send" ∷ "" ∷ "" ∷ "" ∷ "XF86Reply" ∷ "NoSymbol" ∷ "XF86Reply" ∷ "" ∷ "" ∷ ""
    ∷ "XF86MailForward" ∷ "NoSymbol" ∷ "XF86MailForward" ∷ "" ∷ "" ∷ "" ∷ "XF86Save" ∷ "NoSymbol"
    ∷ "XF86Save" ∷ "" ∷ "" ∷ "" ∷ "XF86Documents" ∷ "NoSymbol" ∷ "XF86Documents" ∷ "" ∷ "" ∷ ""
    ∷ "XF86Battery" ∷ "NoSymbol" ∷ "XF86Battery" ∷ "" ∷ "" ∷ "" ∷ "XF86Bluetooth" ∷ "NoSymbol"
    ∷ "XF86Bluetooth" ∷ "" ∷ "" ∷ "" ∷ "XF86WLAN" ∷ "NoSymbol" ∷ "XF86WLAN" ∷ "" ∷ "" ∷ "" ∷ "" ∷ ""
    ∷ "" ∷ "" ∷ "" ∷ "" ∷ "" ∷ "" ∷ "" ∷ "" ∷ "" ∷ "" ∷ "" ∷ "" ∷ "" ∷ "" ∷ "" ∷ "" ∷ "" ∷ "" ∷ ""
    ∷ "" ∷ "" ∷ "" ∷ "XF86MonBrightnessCycle" ∷ "NoSymbol" ∷ "XF86MonBrightnessCycle" ∷ "" ∷ "" ∷ ""
    ∷ "" ∷ "" ∷ "" ∷ "" ∷ "" ∷ "" ∷ "" ∷ "" ∷ "" ∷ "" ∷ "" ∷ "" ∷ "XF86WWAN" ∷ "NoSymbol"
    ∷ "XF86WWAN" ∷ "" ∷ "" ∷ "" ∷ "XF86RFKill" ∷ "NoSymbol" ∷ "XF86RFKill" ∷ "" ∷ "" ∷ "" ∷ "" ∷ ""
    ∷ "" ∷ "" ∷ "" ∷ "" ∷ "" ∷ "" ∷ "" ∷ "" ∷ "" ∷ "" ∷ []
