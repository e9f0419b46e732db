-- ===== src/Log/Format/Runs.antt =====
-- Runs of LogFormatter (sylar/log.cpp): tests, and the theorems applied.
use sylar_demo.Common.{ℕ, ◌≤◌, ◌≡◌, refl, false, true, List, [], ◌∷◌, ◌++◌, arith}
use sylar_demo.Log.{info}
use sylar_demo.Log.Format.Sample.{lib, event}
use sylar_demo.Log.Format.{
  Progress, loop, pattern_error, item_of, new_formatter, format, format_item, split, items_of,
}
use sylar_demo.Log.Format.Parse.{Ends, loop-Ends}
use sylar_demo.Log.Format.Pieces.{literal, Piece, plain, braced, print, meaning, is_unknown}
use sylar_demo.Log.Format.RoundTrip.{Formats, format-new_formatter, format-unclosed}

-- `50%% %m%d{%Y}`
abbrev pieces : List Piece
pieces =
    literal (b'5' ∷ b'0' ∷ b'%' ∷ b' ' ∷ [])
    ∷ plain b'm' []
    ∷ braced b'd' [] (b'%' ∷ b'Y' ∷ [])
    ∷ []

abbrev fresh : Progress
fresh = record { nstr = []; vec = []; error = false }

print_run :
    print pieces []
    ≡ b'5' ∷ b'0' ∷ b'%' ∷ b'%' ∷ b' ' ∷ b'%' ∷ b'm' ∷ b'%' ∷ b'd' ∷ b'{' ∷ b'%' ∷ b'Y' ∷ b'}' ∷ []
print_run = refl

-- `%q` is no item.
format_unknown :
    format lib (new_formatter (b'%' ∷ b'q' ∷ [])) info event
    ≡ b'<' ∷ b'<' ∷ b'e' ∷ b'r' ∷ b'r' ∷ b'o' ∷ b'r' ∷ b'_' ∷ b'f' ∷ b'o' ∷ b'r' ∷ b'm' ∷ b'a'
      ∷ b't' ∷ b' ' ∷ b' ' ∷ b'%' ∷ b'q' ∷ b'>' ∷ b'>' ∷ []
unfolding format new_formatter split items_of
format_unknown = refl

loop-Ends_example :
    (n : ℕ) × (n ≤ 2) × Ends n (b'%' ∷ b'm' ∷ []) fresh (loop 5 (b'%' ∷ b'm' ∷ []) fresh)
loop-Ends_example = loop-Ends 5 (b'%' ∷ b'm' ∷ []) fresh (omega arith)

format-new_formatter_example :
    Formats lib info event (print pieces []) (meaning lib info event pieces) (is_unknown pieces)
format-new_formatter_example =
    format-new_formatter lib info event pieces
      (tt, ((refl, tt, (refl, refl)), ((refl, tt, ((refl, refl), ((refl, refl), tt))), tt)))

format-unclosed_example :
    Formats lib info event
      (print [] (b'%' ∷ b'd' ∷ ([] ++ (b'{' ∷ b'x' ∷ []))))
      (meaning lib info event [] ++ format_item lib info event (item_of pattern_error).0)
      true
format-unclosed_example =
    format-unclosed lib info event [] b'd' [] (b'x' ∷ []) refl tt (refl, tt) tt
