-- ===== src/Log/Format/Directive.antt =====
-- What LogFormatter::init (sylar/log.cpp) reads behind a `%`: a name, and the text in braces.
use sylar_demo.Common.{
  ℕ, ◌≡◌, refl, sym, ap, ◌∙◌, Bool, true, false, List, [], ◌∷◌, ◌++◌, All, arith, ◌==◌,
  if◌then◌else◌,
}
use mathlib.Core.List.{append_assoc, append-nil}
use sylar_demo.Log.Format.{
  is_alpha, found, unclosed, scan_fmt, scan_name, Progress, item, after_scan, at_percent, push,
  failing,
}

abbrev pub IsAlpha : ℕ → Type 0
IsAlpha c = is_alpha c ≡ true

-- No brace, and no closing one.
abbrev pub IsPlain : ℕ → Type 0
IsPlain c = ((c == b'{') ≡ false) × ((c == b'}') ≡ false)

abbrev pub IsOpen : ℕ → Type 0
IsOpen c = (c == b'}') ≡ false

-- What ends a name with no braces behind it.
abbrev pub Ends : List ℕ → Type 0
Ends [] = Unit
Ends (c ∷ cs) = (is_alpha c ≡ false) × ((c == b'{') ≡ false)

alpha_brace : (c : ℕ) → IsAlpha c → (c == b'{') ≡ false
alpha_brace c a = ground arith

pub alpha_percent : (c : ℕ) → IsAlpha c → (c == b'%') ≡ false
alpha_percent c a = ground arith

snoc-append : (all : List ℕ) (c : ℕ) (l : List ℕ) → (all ++ (c ∷ [])) ++ l ≡ all ++ (c ∷ l)
snoc-append all c l = append_assoc all (c ∷ []) l

pub scan_fmt-found :
    (all str so_far fmt rest : List ℕ)
    → All IsPlain fmt
    → scan_fmt all str so_far (fmt ++ (b'}' ∷ rest)) ≡ found str (so_far ++ fmt) rest
unfolding scan_fmt
scan_fmt-found all str so_far [] rest h = ap (λ l. found str l rest) (sym (append-nil so_far))
scan_fmt-found all str so_far (c ∷ cs) rest ((o, k), h) =
    rw (o, k, scan_fmt-found (all ++ (c ∷ [])) str (so_far ++ (c ∷ [])) cs rest h)
      (ap (λ l. found str l rest) (snoc-append so_far c cs))

pub scan_fmt-unclosed :
    (all str so_far cs : List ℕ) → All IsOpen cs → scan_fmt all str so_far cs ≡ unclosed
unfolding scan_fmt
scan_fmt-unclosed all str so_far [] h = refl
scan_fmt-unclosed all str so_far (c ∷ cs) (k, h) =
    rw
      (
        scan_fmt-unclosed (all ++ (c ∷ [])) all [] cs h,
        k,
        scan_fmt-unclosed (all ++ (c ∷ [])) str (so_far ++ (c ∷ [])) cs h,
      )
      (same_both (c == b'{'))
  where
    same_both : (b : Bool) → (if b then unclosed else unclosed) ≡ unclosed
    same_both true = refl
    same_both false = refl

-- A name behind which stands what ends it.
pub scan_name-found :
    (all : List ℕ) (c : ℕ) (cs rest : List ℕ)
    → IsAlpha c
    → All IsAlpha cs
    → Ends rest
    → scan_name all (c ∷ (cs ++ rest)) ≡ found (all ++ (c ∷ cs)) [] rest
unfolding scan_name
scan_name-found all c [] [] a h e = rw (alpha_brace c a, a) refl
scan_name-found all c [] (d ∷ ds) a h (n, o) = rw (alpha_brace c a, a, o, n) refl
scan_name-found all c (d ∷ ds) rest a (b, h) e =
    rw (alpha_brace c a, a, scan_name-found (all ++ (c ∷ [])) d ds rest b h e)
      (ap (λ l. found l [] rest) (snoc-append all c (d ∷ ds)))

-- A name behind which stands a `{`.
pub scan_name-scan_fmt :
    (all cs rest : List ℕ)
    → All IsAlpha cs
    → scan_name all (cs ++ (b'{' ∷ rest))
      ≡ scan_fmt ((all ++ cs) ++ (b'{' ∷ [])) (all ++ cs) [] rest
unfolding scan_name
scan_name-scan_fmt all [] rest h =
    ap (λ l. scan_fmt (l ++ (b'{' ∷ [])) l [] rest) (sym (append-nil all))
scan_name-scan_fmt all (c ∷ []) rest (a, h) = rw (alpha_brace c a, a) refl
scan_name-scan_fmt all (c ∷ d ∷ ds) rest (a, h) =
    rw (alpha_brace c a, a, scan_name-scan_fmt (all ++ (c ∷ [])) (d ∷ ds) rest h)
      (ap (λ l. scan_fmt (l ++ (b'{' ∷ [])) l [] rest) (snoc-append all c (d ∷ ds)))

at_percent-scan :
    (c : ℕ) (cs : List ℕ) (p : Progress)
    → IsAlpha c
    → at_percent (c ∷ cs) p ≡ after_scan (scan_name [] (c ∷ cs)) (c ∷ cs) p
unfolding at_percent
at_percent-scan c cs p a = rw (alpha_percent c a, a) refl

-- `%name`, `%name{fmt}` and `%name{` with no closing brace behind it.
pub at_percent-plain :
    (c : ℕ) (cs rest : List ℕ) (p : Progress)
    → IsAlpha c
    → All IsAlpha cs
    → Ends rest
    → at_percent (c ∷ (cs ++ rest)) p ≡ (push (item (c ∷ cs) []) p, rest)
at_percent-plain c cs rest p a h e =
    at_percent-scan c (cs ++ rest) p a
    ∙ ap (λ s. after_scan s (c ∷ (cs ++ rest)) p) (scan_name-found [] c cs rest a h e)

pub at_percent-braced :
    (c : ℕ) (cs fmt rest : List ℕ) (p : Progress)
    → IsAlpha c
    → All IsAlpha cs
    → All IsPlain fmt
    → at_percent (c ∷ (cs ++ (b'{' ∷ (fmt ++ (b'}' ∷ rest))))) p
      ≡ (push (item (c ∷ cs) fmt) p, rest)
at_percent-braced c cs fmt rest p a h f =
    let later = fmt ++ (b'}' ∷ rest) in
    at_percent-scan c (cs ++ (b'{' ∷ later)) p a
    ∙ ap (λ s. after_scan s (c ∷ (cs ++ (b'{' ∷ later))) p)
        (scan_name-scan_fmt [] (c ∷ cs) later (a, h)
          ∙ scan_fmt-found ((c ∷ cs) ++ (b'{' ∷ [])) (c ∷ cs) [] fmt rest f)

pub at_percent-unclosed :
    (c : ℕ) (cs rest : List ℕ) (p : Progress)
    → IsAlpha c
    → All IsAlpha cs
    → All IsOpen rest
    → at_percent (c ∷ (cs ++ (b'{' ∷ rest))) p ≡ (failing p, [])
at_percent-unclosed c cs rest p a h f =
    at_percent-scan c (cs ++ (b'{' ∷ rest)) p a
    ∙ ap (λ s. after_scan s (c ∷ (cs ++ (b'{' ∷ rest))) p)
        (scan_name-scan_fmt [] (c ∷ cs) rest (a, h)
          ∙ scan_fmt-unclosed ((c ∷ cs) ++ (b'{' ∷ [])) (c ∷ cs) [] rest f)
