-- ===== src/Console/Keymap/Rows0.antt =====
-- Part 0 of the table `xmap` in app_console/src/st.rs: a row of six entries per key.
use mathlib.Core.List.{List, [], ◌∷◌}
use Prim.Native.String.{String}

abbrev pub xmap_0 : List String
xmap_0 =
    "" ∷ "" ∷ "" ∷ "" ∷ "" ∷ "" ∷ "Escape" ∷ "NoSymbol" ∷ "Escape" ∷ "" ∷ "" ∷ "" ∷ "ampersand"
    ∷ "1" ∷ "1" ∷ "exclam" ∷ "onesuperior" ∷ "exclamdown" ∷ "eacute" ∷ "2" ∷ "2" ∷ "at"
    ∷ "asciitilde" ∷ "oneeighth" ∷ "quotedbl" ∷ "3" ∷ "3" ∷ "numbersign" ∷ "numbersign" ∷ "sterling"
    ∷ "apostrophe" ∷ "4" ∷ "4" ∷ "dollar" ∷ "braceleft" ∷ "dollar" ∷ "parenleft" ∷ "5" ∷ "5"
    ∷ "percent" ∷ "bracketleft" ∷ "threeeighths" ∷ "minus" ∷ "6" ∷ "6" ∷ "asciicircum" ∷ "bar"
    ∷ "fiveeighths" ∷ "egrave" ∷ "7" ∷ "7" ∷ "ampersand" ∷ "grave" ∷ "seveneighths" ∷ "underscore"
    ∷ "8" ∷ "8" ∷ "asterisk" ∷ "backslash" ∷ "trademark" ∷ "ccedilla" ∷ "9" ∷ "9" ∷ "parenleft"
    ∷ "asciicircum" ∷ "plusminus" ∷ "agrave" ∷ "0" ∷ "0" ∷ "parenright" ∷ "at" ∷ "degree"
    ∷ "parenright" ∷ "degree" ∷ "minus" ∷ "underscore" ∷ "bracketright" ∷ "questiondown" ∷ "equal"
    ∷ "plus" ∷ "equal" ∷ "plus" ∷ "braceright" ∷ "dead_ogonek" ∷ "BackSpace" ∷ "BackSpace"
    ∷ "BackSpace" ∷ "BackSpace" ∷ "" ∷ "" ∷ "Tab" ∷ "ISO_Left_Tab" ∷ "Tab" ∷ "ISO_Left_Tab" ∷ ""
    ∷ "" ∷ "a" ∷ "A" ∷ "q" ∷ "Q" ∷ "ae" ∷ "AE" ∷ "z" ∷ "Z" ∷ "w" ∷ "W" ∷ "guillemotleft" ∷ "less"
    ∷ "e" ∷ "E" ∷ "e" ∷ "E" ∷ "EuroSign" ∷ "cent" ∷ "r" ∷ "R" ∷ "r" ∷ "R" ∷ "paragraph"
    ∷ "registered" ∷ "t" ∷ "T" ∷ "t" ∷ "T" ∷ "tslash" ∷ "Tslash" ∷ "y" ∷ "Y" ∷ "y" ∷ "Y"
    ∷ "leftarrow" ∷ "yen" ∷ "u" ∷ "U" ∷ "u" ∷ "U" ∷ "downarrow" ∷ "uparrow" ∷ "i" ∷ "I" ∷ "i" ∷ "I"
    ∷ "rightarrow" ∷ "idotless" ∷ "o" ∷ "O" ∷ "o" ∷ "O" ∷ "oslash" ∷ "Oslash" ∷ []

abbrev pub xmap_1 : List String
xmap_1 =
    "p" ∷ "P" ∷ "p" ∷ "P" ∷ "thorn" ∷ "THORN" ∷ "dead_circumflex" ∷ "dead_diaeresis" ∷ "bracketleft"
    ∷ "braceleft" ∷ "dead_diaeresis" ∷ "dead_abovering" ∷ "dollar" ∷ "sterling" ∷ "bracketright"
    ∷ "braceright" ∷ "currency" ∷ "dead_macron" ∷ "Return" ∷ "NoSymbol" ∷ "Return" ∷ "" ∷ "" ∷ ""
    ∷ "Control_L" ∷ "NoSymbol" ∷ "Control_L" ∷ "" ∷ "" ∷ "" ∷ "q" ∷ "Q" ∷ "a" ∷ "A" ∷ "at"
    ∷ "Greek_OMEGA" ∷ "s" ∷ "S" ∷ "s" ∷ "S" ∷ "ssharp" ∷ "section" ∷ "d" ∷ "D" ∷ "d" ∷ "D" ∷ "eth"
    ∷ "ETH" ∷ "f" ∷ "F" ∷ "f" ∷ "F" ∷ "dstroke" ∷ "ordfeminine" ∷ "g" ∷ "G" ∷ "g" ∷ "G" ∷ "eng"
    ∷ "ENG" ∷ "h" ∷ "H" ∷ "h" ∷ "H" ∷ "hstroke" ∷ "Hstroke" ∷ "j" ∷ "J" ∷ "j" ∷ "J" ∷ "dead_hook"
    ∷ "dead_horn" ∷ "k" ∷ "K" ∷ "k" ∷ "K" ∷ "kra" ∷ "ampersand" ∷ "l" ∷ "L" ∷ "l" ∷ "L" ∷ "lstroke"
    ∷ "Lstroke" ∷ "m" ∷ "M" ∷ "semicolon" ∷ "colon" ∷ "mu" ∷ "masculine" ∷ "ugrave" ∷ "percent"
    ∷ "apostrophe" ∷ "quotedbl" ∷ "dead_circumflex" ∷ "dead_caron" ∷ "twosuperior" ∷ "asciitilde"
    ∷ "grave" ∷ "asciitilde" ∷ "notsign" ∷ "notsign" ∷ "Shift_L" ∷ "NoSymbol" ∷ "Shift_L" ∷ "" ∷ ""
    ∷ "" ∷ "asterisk" ∷ "mu" ∷ "backslash" ∷ "bar" ∷ "dead_grave" ∷ "dead_breve" ∷ "w" ∷ "W" ∷ "z"
    ∷ "Z" ∷ "lstroke" ∷ "Lstroke" ∷ "x" ∷ "X" ∷ "x" ∷ "X" ∷ "guillemotright" ∷ "greater" ∷ "c" ∷ "C"
    ∷ "c" ∷ "C" ∷ "cent" ∷ "copyright" ∷ "v" ∷ "V" ∷ "v" ∷ "V" ∷ "leftdoublequotemark"
    ∷ "leftsinglequotemark" ∷ "b" ∷ "B" ∷ "b" ∷ "B" ∷ "rightdoublequotemark"
    ∷ "rightsinglequotemark" ∷ "n" ∷ "N" ∷ "n" ∷ "N" ∷ "n" ∷ "N" ∷ []
