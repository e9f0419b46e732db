-- ===== src/Log/Format/Parse.antt =====
-- The loop of LogFormatter::init (sylar/log.cpp): its fuel, and what it reads behind a `%`.
use sylar_demo.Common.{
  ℕ, zero, suc, ◌≤◌, ◌≡◌, refl, not, List, [], ◌∷◌, ◌++◌, arith, length, ◌==◌, if_both,
}
use sylar_demo.Log.Format.{
  is_alpha, is_empty, Scan, found, unclosed, at_end, scan_fmt, scan_name, Progress, after_scan,
  at_percent, turn, loop, flush,
}

-- What a scan leaves is no longer than `n`.
abbrev IsWithin : ℕ → Scan → Type 0
IsWithin n (found str fmt rest) = length rest ≤ n
IsWithin n unclosed = Unit
IsWithin n at_end = Unit

scan_fmt-IsWithin :
    (n : ℕ) (all str fmt cs : List ℕ) → length cs ≤ n → IsWithin n (scan_fmt all str fmt cs)
unfolding scan_fmt
scan_fmt-IsWithin n all str fmt [] h = tt
scan_fmt-IsWithin n all str fmt (c ∷ cs) h =
    if_both (IsWithin n) (c == b'{') _ _
      (scan_fmt-IsWithin n (all ++ (c ∷ [])) all [] cs (omega arith))
      (if_both (IsWithin n) (c == b'}') _ _ (omega arith)
        (scan_fmt-IsWithin n (all ++ (c ∷ [])) str (fmt ++ (c ∷ [])) cs (omega arith)))

scan_name-IsWithin : (n : ℕ) (all cs : List ℕ) → length cs ≤ n → IsWithin n (scan_name all cs)
unfolding scan_name
scan_name-IsWithin n all [] h = tt
scan_name-IsWithin n all (c ∷ cs) h =
    if_both (IsWithin n) (c == b'{') _ _
      (scan_fmt-IsWithin n (all ++ (c ∷ [])) all [] cs (omega arith))
      (if_both (IsWithin n) (not (is_alpha c)) _ _ h (
        if_both (IsWithin n) (is_empty cs) _ _ (omega arith)
          (scan_name-IsWithin n (all ++ (c ∷ [])) cs (omega arith))))

abbrev Leaves : ℕ → Progress × List ℕ → Type 0
Leaves n r = length r.1 ≤ n

after_scan-Leaves :
    (n : ℕ) (s : Scan) (cs : List ℕ) (p : Progress)
    → IsWithin n s
    → length cs ≤ n
    → Leaves n (after_scan s cs p)
after_scan-Leaves n (found str fmt rest) cs p w h = w
after_scan-Leaves n unclosed cs p w h = omega arith
after_scan-Leaves n at_end cs p w h = h

at_percent-Leaves : (cs : List ℕ) (p : Progress) → Leaves (length cs) (at_percent cs p)
unfolding at_percent
at_percent-Leaves [] p = omega arith
at_percent-Leaves (c ∷ cs) p = if_both (Leaves (suc (length cs))) (c == b'%') _ _ (omega arith) (
    if_both (Leaves (suc (length cs))) (not (is_alpha c)) _ _ (omega arith) (
      after_scan-Leaves (suc (length cs)) (scan_name [] (c ∷ cs)) (c ∷ cs) p
        (scan_name-IsWithin (suc (length cs)) [] (c ∷ cs) (omega arith)) (omega arith)))

turn-Leaves : (c : ℕ) (cs : List ℕ) (p : Progress) → Leaves (length cs) (turn c cs p)
unfolding turn
turn-Leaves c cs p =
    if_both (Leaves (length cs)) (not (c == b'%')) _ _ (omega arith)
      (at_percent-Leaves cs (flush p))

-- With as much fuel as the pattern has characters, or more, the loop makes of it the same parts.
pub loop_enough :
    (n m : ℕ) (pattern : List ℕ) (p : Progress)
    → length pattern ≤ n
    → length pattern ≤ m
    → loop n pattern p ≡ loop m pattern p
unfolding loop
loop_enough n m [] p h k = refl
loop_enough zero m (c ∷ cs) p h k = absurd (omega arith)
loop_enough (suc n) zero (c ∷ cs) p h k = absurd (omega arith)
loop_enough (suc n) (suc m) (c ∷ cs) p h k =
    let shorter = turn-Leaves c cs p in
    loop_enough n m (turn c cs p).1 (turn c cs p).0 (omega arith) (omega arith)

-- The turns of the `for` loop from a pattern on until nothing of it is left: `Ends n pattern p q` is
-- that there are `n` of them, and that they make `q` of `p`.
pub data Ends : ℕ → List ℕ → Progress → Progress → Type 0 where
  finished : {p : Progress} → Ends 0 [] p p
  turned :
      {n c : ℕ} {cs : List ℕ} {p q : Progress}
      → Ends n (turn c cs p).1 (turn c cs p).0 q
      → Ends (suc n) (c ∷ cs) p q

-- The `for` loop of `init` ends: after no more turns than the pattern has characters nothing of the
-- pattern is left, and with that much fuel or more the model's loop is what those turns come to.
pub loop-Ends :
    (fuel : ℕ) (pattern : List ℕ) (p : Progress)
    → length pattern ≤ fuel
    → (n : ℕ) × (n ≤ length pattern) × Ends n pattern p (loop fuel pattern p)
unfolding loop
loop-Ends fuel [] p h = (0, omega arith, finished)
loop-Ends zero (c ∷ cs) p h = absurd (omega arith)
loop-Ends (suc fuel) (c ∷ cs) p h =
    let shorter = turn-Leaves c cs p in
    let (n, few, ends) = loop-Ends fuel (turn c cs p).1 (turn c cs p).0 (omega arith) in
    (suc n, omega arith, turned ends)

-- The loop with the fuel that `init` has, and a turn of it.
unfoldable pub run : List ℕ → Progress → Progress
run pattern p = loop (length pattern) pattern p

pub run-turn :
    (c : ℕ) (cs : List ℕ) (p : Progress) → run (c ∷ cs) p ≡ run (turn c cs p).1 (turn c cs p).0
unfolding run loop
run-turn c cs p =
    let shorter = turn-Leaves c cs p in
    loop_enough (length cs) (length (turn c cs p).1) (turn c cs p).1 (turn c cs p).0 shorter
      (omega arith)
