-- ===== src/Log/Format/Pieces.antt =====
-- A pattern of LogFormatter (sylar/log.cpp) as its pieces, and what has been read of it so far.
use mathlib.Core.Bool.{or-false, or_assoc}
use mathlib.Core.List.{append_assoc, append-nil}
use sylar_demo.Common.{
  ℕ, ◌≡◌, refl, sym, ap, ◌∙◌, Bool, true, false, ◌||◌, List, [], ◌∷◌, ◌++◌, All, ◌==◌,
  if◌then◌else◌,
}
use sylar_demo.Log.{LogLevel}
use sylar_demo.Log.Format.{
  Part, text, item, pattern_error, Progress, push, failing, flush, item_of, items_of, LogEvent,
  Library, format_item, format_all,
}
use sylar_demo.Log.Format.Directive.{IsAlpha, IsPlain, Ends}

-- A piece of a pattern: a text, in which each `%` is written twice; `%name`, with the letters of the
-- name; `%name{fmt}`.
pub data Piece : Type 0 where
  literal : List ℕ → Piece
  plain : ℕ → List ℕ → Piece
  braced : ℕ → List ℕ → List ℕ → Piece

abbrev pub escape : List ℕ → List ℕ
escape [] = []
escape (c ∷ cs) = if c == b'%' then b'%' ∷ b'%' ∷ escape cs else c ∷ escape cs

-- The pieces, in front of the rest of a pattern.
abbrev pub print_piece : Piece → List ℕ → List ℕ
print_piece (literal s) rest = escape s ++ rest
print_piece (plain c cs) rest = b'%' ∷ c ∷ (cs ++ rest)
print_piece (braced c cs fmt) rest = b'%' ∷ c ∷ (cs ++ (b'{' ∷ (fmt ++ (b'}' ∷ rest))))

abbrev pub print : List Piece → List ℕ → List ℕ
print [] rest = rest
print (p ∷ ps) rest = print_piece p (print ps rest)

abbrev pub IsPiece : Piece → List ℕ → Type 0
IsPiece (literal s) rest = Unit
IsPiece (plain c cs) rest = IsAlpha c × All IsAlpha cs × Ends rest
IsPiece (braced c cs fmt) rest = IsAlpha c × All IsAlpha cs × All IsPlain fmt

-- A name is of letters, there is no brace in a `fmt`, and behind a name with no `fmt` stands neither a
-- letter nor a `{`.
abbrev pub IsPattern : List Piece → List ℕ → Type 0
IsPattern [] rest = Unit
IsPattern (p ∷ ps) rest = IsPiece p (print ps rest) × IsPattern ps rest

-- The item of a piece, and whether its name is unknown.
abbrev pub part_of : Piece → Part
part_of (literal s) = text s
part_of (plain c cs) = item (c ∷ cs) []
part_of (braced c cs fmt) = item (c ∷ cs) fmt

abbrev pub is_unknown : List Piece → Bool
is_unknown [] = false
is_unknown (p ∷ ps) = (item_of (part_of p)).1 || is_unknown ps

module _ (lib : Library) (l : LogLevel) (e : LogEvent) where
  abbrev pub meaning : List Piece → List ℕ
  meaning [] = []
  meaning (p ∷ ps) = format_item lib l e (item_of (part_of p)).0 ++ meaning ps

  -- What has been read so far: the text that it makes, and whether there is an error.
  unfoldable pub spell : List Part → List ℕ
  spell v = format_all lib l e (items_of v).0

  unfoldable pub wrong : List Part → Bool
  wrong v = (items_of v).1

  unfoldable pub one : Part → List ℕ
  one x = format_item lib l e (item_of x).0

  spell-snoc : (v : List Part) (x : Part) → spell (v ++ (x ∷ [])) ≡ spell v ++ one x
  unfolding spell one items_of format_all format_item
  spell-snoc [] x = append-nil (one x)
  spell-snoc (y ∷ ys) x =
      ap (λ t. one y ++ t) (spell-snoc ys x) ∙ sym (append_assoc (one y) (spell ys) (one x))

  wrong-snoc : (v : List Part) (x : Part) → wrong (v ++ (x ∷ [])) ≡ (wrong v || (item_of x).1)
  unfolding wrong items_of
  wrong-snoc [] x = or-false (item_of x).1
  wrong-snoc (y ∷ ys) x =
      ap (λ b. (item_of y).1 || b) (wrong-snoc ys x)
      ∙ sym (or_assoc (item_of y).1 (wrong ys) (item_of x).1)

  pub record Shows (out : List ℕ) (bad : Bool) (p : Progress) : Type 0 where
    pub text_is : spell p.vec ++ p.nstr ≡ out
    pub error_is : (p.error || wrong p.vec) ≡ bad

  flush_at :
      (out : List ℕ) (bad : Bool) (n : List ℕ) (v : List Part) (b : Bool)
      → (let p : Progress = record { nstr = n; vec = v; error = b } in
          Shows out bad p → Shows out bad (flush p) × ((flush p).nstr ≡ []))
  unfolding format_item one item_of
  flush_at out bad [] v b s = (s, refl)
  flush_at out bad (c ∷ cs) v b s = (
    record {
      text_is = append-nil _ ∙ spell-snoc v (text (c ∷ cs)) ∙ s.text_is;
      error_is = ap (λ x. b || x) (wrong-snoc v (text (c ∷ cs)) ∙ or-false (wrong v)) ∙ s.error_is;
    },
    refl,
  )

  pub flush-Shows :
      (out : List ℕ) (bad : Bool) (p : Progress)
      → Shows out bad p
      → Shows out bad (flush p) × ((flush p).nstr ≡ [])
  flush-Shows out bad p s = flush_at out bad p.nstr p.vec p.error s

  pub char-Shows :
      (out : List ℕ) (bad : Bool) (c : ℕ) (p : Progress)
      → Shows out bad p
      → Shows (out ++ (c ∷ [])) bad (record p { nstr = p.nstr ++ (c ∷ []) })
  char-Shows out bad c p s = record {
    text_is = sym (append_assoc (spell p.vec) p.nstr (c ∷ [])) ∙ ap (λ t. t ++ (c ∷ [])) s.text_is;
    error_is = s.error_is;
  }

  pub item-Shows :
      (out : List ℕ) (bad : Bool) (x : Part) (p : Progress)
      → p.nstr ≡ []
      → Shows out bad p
      → Shows (out ++ one x) (bad || (item_of x).1) (push x p)
  item-Shows out bad x p n s = record {
    text_is =
        ap (λ t. spell (p.vec ++ (x ∷ [])) ++ t) n
        ∙ append-nil _
        ∙ spell-snoc p.vec x
        ∙ ap (λ t. t ++ one x)
            (sym (append-nil _) ∙ ap (λ t. spell p.vec ++ t) (sym n) ∙ s.text_is);
    error_is =
        ap (λ b. p.error || b) (wrong-snoc p.vec x)
        ∙ sym (or_assoc p.error (wrong p.vec) (item_of x).1)
        ∙ ap (λ b. b || (item_of x).1) s.error_is;
  }

  pub failing-Shows :
      (out : List ℕ) (bad : Bool) (p : Progress)
      → p.nstr ≡ []
      → Shows out bad p
      → Shows (out ++ one pattern_error) true (failing p)
  failing-Shows out bad p n s = record {
    text_is = (item-Shows out bad pattern_error p n s).text_is;
    error_is = refl;
  }
