-- ===== src/Log/Format/RoundTrip.antt =====
-- The pattern of a LogFormatter (sylar/log.cpp) as its pieces, and what the formatter makes of it.
use mathlib.Core.Bool.{or-false, or_assoc}
use mathlib.Core.List.{append_assoc, append-nil}
use mathlib.Core.Path.{subst, subst₂}
use sylar_demo.Common.{
  ℕ, not, ==_iff, ◌≡◌, refl, sym, ap, ◌∙◌, Bool, true, false, ◌||◌, List, [], ◌∷◌, ◌++◌, All,
  Bool-cases, inl, inr, ◌==◌, if◌then◌else◌,
}
use sylar_demo.Log.{LogLevel}
use sylar_demo.Log.Format.{
  Part, item, pattern_error, Progress, push, failing, flush, turn, at_percent, loop, split, item_of,
  items_of, new_formatter, LogEvent, Library, format_item, format_all, format,
}
use sylar_demo.Log.Format.Parse.{run, run-turn}
use sylar_demo.Log.Format.Directive.{
  IsAlpha, IsOpen, at_percent-plain, at_percent-braced, at_percent-unclosed,
}
use sylar_demo.Log.Format.Pieces.{
  Piece, literal, plain, braced, escape, print_piece, print, IsPiece, IsPattern, part_of,
  is_unknown, meaning, spell, wrong, one, Shows, flush-Shows, char-Shows, item-Shows, failing-Shows,
}

module _ (lib : Library) (l : LogLevel) (e : LogEvent) where
  -- The loop over `from` comes to `rest`, with `more` made of what is between, and `worse` for its
  -- errors.
  abbrev Reads : List ℕ → Progress → List ℕ → List ℕ → Bool → Type 0
  Reads from p rest out bad = (q : Progress) × (run from p ≡ run rest q) × Shows lib l e out bad q

  Reads-turn :
      (c : ℕ) (cs rest out : List ℕ) (bad : Bool) (p q : Progress) (r : List ℕ)
      → turn c cs p ≡ (q, r)
      → Reads r q rest out bad
      → Reads (c ∷ cs) p rest out bad
  Reads-turn c cs rest out bad p q r t (last, u, h) =
      (last, run-turn c cs p ∙ ap (λ x. run x.1 x.0) t ∙ u, h)

  turn_char :
      (c : ℕ) (cs : List ℕ) (p : Progress)
      → (c == b'%') ≡ false
      → turn c cs p ≡ (record p { nstr = p.nstr ++ (c ∷ []) }, cs)
  unfolding turn
  turn_char c cs p n =
      ap
        (λ b.
          if not b then (record p { nstr = p.nstr ++ (c ∷ []) }, cs) else at_percent cs (flush p))
        n

  turn_two :
      (cs : List ℕ) (p : Progress)
      → turn b'%' (b'%' ∷ cs) p ≡ (record (flush p) { nstr = (flush p).nstr ++ (b'%' ∷ []) }, cs)
  unfolding turn at_percent
  turn_two cs p = refl

  text-Reads :
      (out : List ℕ) (bad : Bool) (s rest : List ℕ) (p : Progress)
      → Shows lib l e out bad p
      → Reads (escape s ++ rest) p rest (out ++ s) bad
  text-Reads out bad [] rest p h =
      (p, refl, subst (λ t. Shows lib l e t bad p) (sym (append-nil out)) h)
  text-Reads out bad (c ∷ cs) rest p h = elim (Bool-cases (c == b'%')) [
    | inl y ↦
        let q = flush p in
        let k = char-Shows lib l e out bad c q (flush-Shows lib l e out bad p h).0 in
        let is = (==_iff c b'%').0 y in
        subst (λ t. Reads t p rest (out ++ (c ∷ cs)) bad)
          (ap (λ b. (if b then b'%' ∷ b'%' ∷ escape cs else c ∷ escape cs) ++ rest) (sym y))
          (Reads-turn b'%' (b'%' ∷ (escape cs ++ rest)) rest (out ++ (c ∷ cs)) bad p _
            (escape cs ++ rest) (turn_two (escape cs ++ rest) p)
            (subst
              (λ d.
                Reads (escape cs ++ rest) (record q { nstr = q.nstr ++ (d ∷ []) }) rest
                  (out ++ (c ∷ cs)) bad)
              is
              (subst
                (λ t. Reads (escape cs ++ rest) (record q { nstr = q.nstr ++ (c ∷ []) }) rest t bad)
                (append_assoc out (c ∷ []) cs) (text-Reads (out ++ (c ∷ [])) bad cs rest _ k))))
    | inr n ↦
        subst (λ t. Reads t p rest (out ++ (c ∷ cs)) bad)
          (ap (λ b. (if b then b'%' ∷ b'%' ∷ escape cs else c ∷ escape cs) ++ rest) (sym n))
          (Reads-turn c (escape cs ++ rest) rest (out ++ (c ∷ cs)) bad p _ (escape cs ++ rest)
            (turn_char c (escape cs ++ rest) p n)
            (subst
              (λ t. Reads (escape cs ++ rest) (record p { nstr = p.nstr ++ (c ∷ []) }) rest t bad)
              (append_assoc out (c ∷ []) cs)
              (text-Reads (out ++ (c ∷ [])) bad cs rest _ (char-Shows lib l e out bad c p h))))
  ]

  turn_percent : (cs : List ℕ) (p : Progress) → turn b'%' cs p ≡ at_percent cs (flush p)
  unfolding turn
  turn_percent cs p = refl

  item-Reads :
      (out from rest : List ℕ) (bad : Bool) (x : Part) (p : Progress)
      → at_percent from (flush p) ≡ (push x (flush p), rest)
      → Shows lib l e out bad p
      → Reads (b'%' ∷ from) p rest (out ++ one lib l e x) (bad || (item_of x).1)
  item-Reads out from rest bad x p a h =
      let (k, n) = flush-Shows lib l e out bad p h in
      Reads-turn b'%' from rest (out ++ one lib l e x) (bad || (item_of x).1) p _ rest
        (turn_percent from p ∙ a)
        (push x (flush p), refl, item-Shows lib l e out bad x (flush p) n k)

  piece-Reads :
      (out : List ℕ) (bad : Bool) (x : Piece) (rest : List ℕ) (p : Progress)
      → IsPiece x rest
      → Shows lib l e out bad p
      → Reads
          (print_piece x rest)
          p
          rest
          (out ++ one lib l e (part_of x))
          (bad || (item_of (part_of x)).1)
  unfolding one item_of format_item
  piece-Reads out bad (literal s) rest p i h =
      subst (λ b. Reads (escape s ++ rest) p rest (out ++ s) b) (sym (or-false bad))
        (text-Reads out bad s rest p h)
  piece-Reads out bad (plain c cs) rest p (a, b, e) h =
      item-Reads out (c ∷ (cs ++ rest)) rest bad (item (c ∷ cs) []) p
        (at_percent-plain c cs rest (flush p) a b e) h
  piece-Reads out bad (braced c cs fmt) rest p (a, b, f) h =
      item-Reads out (c ∷ (cs ++ (b'{' ∷ (fmt ++ (b'}' ∷ rest))))) rest bad (item (c ∷ cs) fmt) p
        (at_percent-braced c cs fmt rest (flush p) a b f) h

  Reads-print :
      (out : List ℕ) (bad : Bool) (ps : List Piece) (rest : List ℕ) (p : Progress)
      → IsPattern ps rest
      → Shows lib l e out bad p
      → Reads (print ps rest) p rest (out ++ meaning lib l e ps) (bad || is_unknown ps)
  unfolding one
  Reads-print out bad [] rest p i h =
      (p, refl, subst₂ (λ t b. Shows lib l e t b p) (sym (append-nil out)) (sym (or-false bad)) h)
  Reads-print out bad (x ∷ ps) rest p (i, is) h =
      let (q, u, k) = piece-Reads out bad x (print ps rest) p i h in
      let (r, v, m) =
        Reads-print (out ++ one lib l e (part_of x)) (bad || (item_of (part_of x)).1) ps rest q is
          k in
      (
        r,
        u ∙ v,
        subst₂ (λ t b. Shows lib l e t b r)
            (append_assoc out (one lib l e (part_of x)) (meaning lib l e ps))
            (or_assoc bad (item_of (part_of x)).1 (is_unknown ps)) m,
      )

  -- What the formatter of a pattern has read at its end.
  abbrev pub Formats : List ℕ → List ℕ → Bool → Type 0
  Formats pattern out bad =
      (format lib (new_formatter pattern) l e ≡ out) × ((new_formatter pattern).error ≡ bad)

  start : Progress
  start = record { nstr = []; vec = []; error = false }

  Shows-Formats :
      (pattern out : List ℕ) (bad : Bool)
      → Shows lib l e out bad (run pattern start)
      → Formats pattern out bad
  unfolding format new_formatter split run start spell wrong
  Shows-Formats pattern out bad h =
      let (k, n) = flush-Shows lib l e out bad (run pattern start) h in
      (
        sym (append-nil _)
            ∙ ap (λ t. spell lib l e (flush (run pattern start)).vec ++ t) (sym n)
            ∙ k.text_is,
        k.error_is,
      )

  start-Shows : Shows lib l e [] false start
  unfolding start spell wrong items_of format_all
  start-Shows = record { text_is = refl; error_is = refl }

  -- The formatter of a pattern made of texts, names and names with a text in braces writes what each
  -- of them stands for, in order, and it has an error just if one of the names is unknown. A name is
  -- of letters, there is no brace in the text behind it, and a name with no such text has neither a
  -- letter nor a `{` behind it.
  pub format-new_formatter :
      (ps : List Piece)
      → IsPattern ps []
      → Formats (print ps []) (meaning lib l e ps) (is_unknown ps)
  unfolding run loop
  format-new_formatter ps i =
      let (q, u, h) = Reads-print [] false ps [] start i start-Shows in
      Shows-Formats (print ps []) (meaning lib l e ps) (is_unknown ps)
        (subst (λ r. Shows lib l e (meaning lib l e ps) (is_unknown ps) r) (sym u) h)

  -- Where texts, names and names with a text in braces, each followed by what may follow it, stand
  -- in front of a `%name{` that no
  -- brace closes, the rest of the pattern is dropped: the formatter has an error, and writes
  -- `<pattern_error>` in its place.
  pub format-unclosed :
      (ps : List Piece) (c : ℕ) (cs rest : List ℕ)
      → IsAlpha c
      → All IsAlpha cs
      → All IsOpen rest
      → (let tail = b'%' ∷ c ∷ (cs ++ (b'{' ∷ rest)) in
          IsPattern ps tail
          → Formats
              (print ps tail)
              (meaning lib l e ps ++ format_item lib l e (item_of pattern_error).0)
              true)
  unfolding run loop one
  format-unclosed ps c cs rest a b o i =
      let tail = b'%' ∷ c ∷ (cs ++ (b'{' ∷ rest)) in
      let (q, u, h) = Reads-print [] false ps tail start i start-Shows in
      let (k, n) = flush-Shows lib l e (meaning lib l e ps) (is_unknown ps) q h in
      let (r, v, m) =
        Reads-turn b'%' (c ∷ (cs ++ (b'{' ∷ rest))) []
          (meaning lib l e ps ++ one lib l e pattern_error) true q (failing (flush q)) []
          (turn_percent (c ∷ (cs ++ (b'{' ∷ rest))) q
            ∙ at_percent-unclosed c cs rest (flush q) a b o)
          (
            failing (flush q),
            refl,
            failing-Shows lib l e (meaning lib l e ps) (is_unknown ps) (flush q) n k,
          ) in
      Shows-Formats (print ps tail) (meaning lib l e ps ++ one lib l e pattern_error) true (
        subst (λ x. Shows lib l e (meaning lib l e ps ++ one lib l e pattern_error) true x)
          (sym (u ∙ v)) m)
