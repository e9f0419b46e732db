-- ===== src/Log/Format.antt =====
-- LogFormatter of sylar/log.cpp: the pattern of a formatter, and what it makes of an event.
--
-- Characters are bytes, and `isalpha` is that of the C locale. How a stream writes a number and what
-- strftime makes of a time are a `Library`.
pub mod Parse
pub mod Directive
pub mod Pieces
pub mod RoundTrip
pub mod Sample
mod Runs
use sylar_demo.Common.{
  ℕ, zero, suc, Bool, true, false, not, ◌&&◌, ◌||◌, List, [], ◌∷◌, ◌++◌, Option, none, some, length,
  leb, ◌==◌, if◌then◌else◌,
}
use sylar_demo.Log.{LogLevel, to_string}

-- An element of `vec` in `init`: its third component is 0 for a string and 1 for an item.
pub data Part : Type 0 where
  text : List ℕ → Part
  item : List ℕ → List ℕ → Part

abbrev pub is_alpha : ℕ → Bool
is_alpha c = (leb 65 c && leb c 90) || (leb 97 c && leb c 122)

-- `<pattern_error>`
abbrev pub pattern_error : Part
pattern_error = text (
    b'<' ∷ b'p' ∷ b'a' ∷ b't' ∷ b't' ∷ b'e' ∷ b'r' ∷ b'n' ∷ b'_' ∷ b'e' ∷ b'r' ∷ b'r' ∷ b'o' ∷ b'r'
    ∷ b'>' ∷ [])

-- How the `while` loop of `init` ends: with an item and the pattern behind it, at the end of the
-- pattern behind a `{`, or at the end of the pattern otherwise.
pub data Scan : Type 0 where
  found : List ℕ → List ℕ → List ℕ → Scan
  unclosed : Scan
  at_end : Scan

-- The loop behind a `{`: `all` is what stands behind the `%`, `str` and `fmt` the two parts so far.
pub scan_fmt : List ℕ → List ℕ → List ℕ → List ℕ → Scan
scan_fmt all str fmt [] = unclosed
scan_fmt all str fmt (c ∷ cs) =
    let again = scan_fmt (all ++ (c ∷ [])) all [] cs in
    let later = scan_fmt (all ++ (c ∷ [])) str (fmt ++ (c ∷ [])) cs in
    if c == b'{' then again else if c == b'}' then found str fmt cs else later

abbrev pub is_empty : List ℕ → Bool
is_empty [] = true
is_empty (c ∷ cs) = false

-- The loop in front of it.
pub scan_name : List ℕ → List ℕ → Scan
unfolding scan_fmt
scan_name all [] = at_end
scan_name all (c ∷ cs) =
    let later = scan_name (all ++ (c ∷ [])) cs in
    if c == b'{'
    then scan_fmt (all ++ (c ∷ [])) all [] cs
    else if not (is_alpha c)
    then found all [] (c ∷ cs)
    else if is_empty cs
    then found (all ++ (c ∷ [])) [] []
    else later

-- The variables of `init`: `nstr`, `vec` and `m_error`.
pub record Progress : Type 0 where
  pub nstr : List ℕ
  pub vec : List Part
  pub error : Bool

abbrev pub push : Part → Progress → Progress
push part p = record p { vec = p.vec ++ (part ∷ []) }

abbrev pub failing : Progress → Progress
failing p = record p { vec = p.vec ++ (pattern_error ∷ []); error = true }

-- `if (!nstr.empty())`
abbrev pub flush : Progress → Progress
flush p = if is_empty p.nstr then p else record p { nstr = []; vec = p.vec ++ (text p.nstr ∷ []) }

abbrev pub after_scan : Scan → List ℕ → Progress → Progress × List ℕ
after_scan (found str fmt rest) cs p = (push (item str fmt) p, rest)
after_scan unclosed cs p = (failing p, [])
after_scan at_end cs p = (p, cs)

-- The body of the `for` loop behind a `%`, with the rest of the pattern that it leaves.
pub at_percent : List ℕ → Progress → Progress × List ℕ
unfolding scan_name
at_percent [] p = (failing p, [])
at_percent (c ∷ cs) p =
    if c == b'%'
    then (record p { nstr = p.nstr ++ (b'%' ∷ []) }, cs)
    else if not (is_alpha c)
    then (failing p, c ∷ cs)
    else after_scan (scan_name [] (c ∷ cs)) (c ∷ cs) p

-- The body of the `for` loop at the character `c`.
pub turn : ℕ → List ℕ → Progress → Progress × List ℕ
unfolding at_percent
turn c cs p =
    if not (c == b'%')
    then (record p { nstr = p.nstr ++ (c ∷ []) }, cs)
    else at_percent cs (flush p)

-- The loop, with as much fuel as there are characters.
pub loop : ℕ → List ℕ → Progress → Progress
unfolding turn
loop n [] p = p
loop zero (c ∷ cs) p = p
loop (suc n) (c ∷ cs) p = let (q, rest) = turn c cs p in loop n rest q

-- `init` up to the map of items.
pub split : List ℕ → Progress
unfolding loop
split pattern =
    flush (loop (length pattern) pattern (record { nstr = []; vec = []; error = false }))

-- The subclasses of FormatItem.
pub data FormatItem : Type 0 where
  message level elapse logger_name thread_id new_line filename line tab fiber_id : FormatItem
  thread_name : FormatItem
  date_time : List ℕ → FormatItem
  string : List ℕ → FormatItem

-- `%Y-%m-%d %H:%M:%S`
abbrev pub default_date : List ℕ
default_date =
    b'%' ∷ b'Y' ∷ b'-' ∷ b'%' ∷ b'm' ∷ b'-' ∷ b'%' ∷ b'd' ∷ b' ' ∷ b'%' ∷ b'H' ∷ b':' ∷ b'%' ∷ b'M'
    ∷ b':' ∷ b'%' ∷ b'S' ∷ []

-- `m_format_items`, for a name of one letter.
pub item_for : ℕ → List ℕ → Option FormatItem
item_for c fmt =
    if c == b'm'
    then some message
    else if c == b'p'
    then some level
    else if c == b'r'
    then some elapse
    else if c == b'c'
    then some logger_name
    else if c == b't'
    then some thread_id
    else if c == b'n'
    then some new_line
    else if c == b'd'
    then some (date_time (if is_empty fmt then default_date else fmt))
    else if c == b'f'
    then some filename
    else if c == b'l'
    then some line
    else if c == b'T'
    then some tab
    else if c == b'F'
    then some fiber_id
    else if c == b'N'
    then some thread_name
    else none

pub format_items : List ℕ → List ℕ → Option FormatItem
unfolding item_for
format_items [] fmt = none
format_items (c ∷ []) fmt = item_for c fmt
format_items (c ∷ d ∷ cs) fmt = none

-- `<<error_format  %xx>>`
abbrev pub error_format : List ℕ → List ℕ
error_format str =
    b'<'
    ∷ b'<'
    ∷ b'e'
    ∷ b'r'
    ∷ b'r'
    ∷ b'o'
    ∷ b'r'
    ∷ b'_'
    ∷ b'f'
    ∷ b'o'
    ∷ b'r'
    ∷ b'm'
    ∷ b'a'
    ∷ b't'
    ∷ b' '
    ∷ b' '
    ∷ b'%'
    ∷ (str ++ (b'>' ∷ b'>' ∷ []))

-- The last loop of `init`: the item of each part, and whether it is an error.
abbrev pub or_error : List ℕ → Option FormatItem → FormatItem × Bool
or_error str none = (string (error_format str), true)
or_error str (some i) = (i, false)

pub item_of : Part → FormatItem × Bool
unfolding format_items
item_of (text s) = (string s, false)
item_of (item str fmt) = or_error str (format_items str fmt)

pub items_of : List Part → List FormatItem × Bool
unfolding item_of
items_of [] = ([], false)
items_of (p ∷ ps) = let (i, e) = item_of p in let (is, es) = items_of ps in (i ∷ is, e || es)

-- `LogFormatter`
pub record LogFormatter : Type 0 where
  pub pattern : List ℕ
  pub items : List FormatItem
  pub error : Bool

pub new_formatter : List ℕ → LogFormatter
unfolding split items_of
new_formatter pattern =
    let p = split pattern in
    let (items, error) = items_of p.vec in
    record { pattern = pattern; items = items; error = p.error || error }

-- What the items read of an event.
pub record LogEvent : Type 0 where
  pub content : List ℕ
  pub elapse : ℕ
  pub logger : List ℕ
  pub thread_id : ℕ
  pub fiber_id : ℕ
  pub thread_name : List ℕ
  pub time : ℕ
  pub file : List ℕ
  pub line : ℕ

pub record Library : Type 0 where
  pub decimal : ℕ → List ℕ
  pub date : List ℕ → ℕ → List ℕ

-- The `format` of each subclass.
pub format_item : Library → LogLevel → LogEvent → FormatItem → List ℕ
unfolding to_string
format_item lib l e message = e.content
format_item lib l e level = to_string l
format_item lib l e elapse = lib.decimal e.elapse
format_item lib l e logger_name = e.logger
format_item lib l e thread_id = lib.decimal e.thread_id
format_item lib l e new_line = b'\n' ∷ []
format_item lib l e filename = e.file
format_item lib l e line = lib.decimal e.line
format_item lib l e tab = b'\t' ∷ []
format_item lib l e fiber_id = lib.decimal e.fiber_id
format_item lib l e thread_name = e.thread_name
format_item lib l e (date_time fmt) = lib.date fmt e.time
format_item lib l e (string s) = s

-- `LogFormatter::format`
abbrev pub format_all : Library → LogLevel → LogEvent → List FormatItem → List ℕ
unfolding format_item
format_all lib l e [] = []
format_all lib l e (i ∷ is) = format_item lib l e i ++ format_all lib l e is

pub format : Library → LogFormatter → LogLevel → LogEvent → List ℕ
unfolding format_item
format lib f l e = format_all lib l e f.items
