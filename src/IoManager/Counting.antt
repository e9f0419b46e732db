-- ===== src/IoManager/Counting.antt =====
-- Vectors of contexts (sylar/iomanager.cpp): a store to one place, and the number of events.
use sylar_demo.Common.{
  ℕ, zero, suc, ◌+◌, ◌*◌, ◌≤◌, ◌<◌, ◌≡◌, ◌≢◌, refl, sym, ap, ◌∙◌, List, [], ◌∷◌, some, Bool, true,
  false, arith, All, length, get_elem?, set,
}
use sylar_demo.IoManager.{Events, no_events, FdContext, new_context, context_resize}

abbrev pub bit : Bool → ℕ
bit true = 1
bit false = 0

abbrev pub count : Events → ℕ
count e = bit e.reading + bit e.writing

-- The events that the contexts have, together.
abbrev pub total : List FdContext → ℕ
total [] = 0
total (c ∷ cs) = count c.events + total cs

-- The contexts from place `i` on have the descriptors from `i` on.
abbrev pub Numbered : ℕ → List FdContext → Type 0
Numbered i [] = Unit {0}
Numbered i (c ∷ cs) = (c.fd ≡ i) × Numbered (i + 1) cs

pub total-set :
    (l : List FdContext) (i : ℕ) (c c' : FdContext)
    → get_elem? l i ≡ some c
    → total (set l i c') + count c.events ≡ total l + count c'.events
total-set [] i c c' e = absurd (cc)
total-set (x ∷ xs) zero c c' e =
    let same : x ≡ c = cc in omega (arith, ap (λ (k : FdContext). count k.events) same)
total-set (x ∷ xs) (suc i) c c' e = omega (arith, total-set xs i c c' e)

pub get-All :
    (P : FdContext → Type 0) (l : List FdContext) (i : ℕ) (c : FdContext)
    → get_elem? l i ≡ some c
    → All P l
    → P c
get-All P [] i c e h = absurd (cc)
get-All P (x ∷ xs) zero c e h = let same : x ≡ c = cc in rw same at h.0
get-All P (x ∷ xs) (suc i) c e h = get-All P xs i c e h.1

pub set-All :
    (P : FdContext → Type 0) (l : List FdContext) (i : ℕ) (c : FdContext)
    → P c
    → All P l
    → All P (set l i c)
set-All P [] i c p h = tt
set-All P (x ∷ xs) zero c p h = (p, h.1)
set-All P (x ∷ xs) (suc i) c p h = (h.0, set-All P xs i c p h.1)

pub set-Numbered :
    (l : List FdContext) (i n : ℕ) (c c' : FdContext)
    → get_elem? l i ≡ some c
    → c'.fd ≡ c.fd
    → Numbered n l
    → Numbered n (set l i c')
set-Numbered [] i n c c' e f h = tt
set-Numbered (x ∷ xs) zero n c c' e f h =
    let same : x ≡ c = cc in (f ∙ sym (ap (λ (k : FdContext). k.fd) same) ∙ h.0, h.1)
set-Numbered (x ∷ xs) (suc i) n c c' e f h = (h.0, set-Numbered xs i (n + 1) c c' e f h.1)

pub length-set_context :
    (l : List FdContext) (i : ℕ) (c : FdContext) → length (set l i c) ≡ length l
length-set_context [] i c = refl
length-set_context (x ∷ xs) zero c = refl
length-set_context (x ∷ xs) (suc i) c = ap suc (length-set_context xs i c)

pub total-le : (l : List FdContext) → total l ≤ 2 * length l
total-le [] = omega arith
total-le (c ∷ cs) = omega (arith, total-le cs, bit_le c.events.reading, bit_le c.events.writing)
  where
    bit_le : (b : Bool) → bit b ≤ 1
    bit_le true = omega arith
    bit_le false = omega arith

-- The vector grows by contexts with no events, and keeps those it has.
pub total-resize :
    (n i : ℕ) (l : List FdContext) → length l ≤ n → total (context_resize n i l) ≡ total l
unfolding context_resize
total-resize zero i [] h = refl
total-resize zero i (c ∷ cs) h = absurd (omega arith)
total-resize (suc n) i [] h = omega (arith, total-resize n (i + 1) [] (omega arith))
total-resize (suc n) i (c ∷ cs) h = omega (arith, total-resize n (i + 1) cs (omega arith))

pub length-resize : (n i : ℕ) (l : List FdContext) → length (context_resize n i l) ≡ n
unfolding context_resize
length-resize zero i l = refl
length-resize (suc n) i [] = ap suc (length-resize n (i + 1) [])
length-resize (suc n) i (c ∷ cs) = ap suc (length-resize n (i + 1) cs)

pub resize-Numbered :
    (n i : ℕ) (l : List FdContext) → Numbered i l → Numbered i (context_resize n i l)
unfolding context_resize
resize-Numbered zero i l h = tt
resize-Numbered (suc n) i [] h = (refl, resize-Numbered n (i + 1) [] tt)
resize-Numbered (suc n) i (c ∷ cs) h = (h.0, resize-Numbered n (i + 1) cs h.1)

pub resize-All :
    (P : FdContext → Type 0) (n i : ℕ) (l : List FdContext)
    → ((fd : ℕ) → P (new_context fd))
    → All P l
    → All P (context_resize n i l)
unfolding context_resize
resize-All P zero i l new h = tt
resize-All P (suc n) i [] new h = (new i, resize-All P n (i + 1) [] new tt)
resize-All P (suc n) i (c ∷ cs) new h = (h.0, resize-All P n (i + 1) cs new h.1)

pub resize_keeps :
    (n i k : ℕ) (l : List FdContext) (c : FdContext)
    → length l ≤ n
    → get_elem? l k ≡ some c
    → get_elem? (context_resize n i l) k ≡ some c
unfolding context_resize
resize_keeps n i k [] c h e = absurd (cc)
resize_keeps zero i k (x ∷ xs) c h e = absurd (omega arith)
resize_keeps (suc n) i zero (x ∷ xs) c h e = e
resize_keeps (suc n) i (suc k) (x ∷ xs) c h e = resize_keeps n (i + 1) k xs c (omega arith) e

pub get_some :
    (l : List FdContext) (i : ℕ) → i < length l → (c : FdContext) × (get_elem? l i ≡ some c)
get_some [] i h = absurd (omega arith)
get_some (x ∷ xs) zero h = (x, refl)
get_some (x ∷ xs) (suc i) h = get_some xs i (omega arith)

pub get-set :
    (l : List FdContext) (i : ℕ) (c c' : FdContext)
    → get_elem? l i ≡ some c
    → get_elem? (set l i c') i ≡ some c'
get-set [] i c c' e = absurd (cc)
get-set (x ∷ xs) zero c c' e = refl
get-set (x ∷ xs) (suc i) c c' e = get-set xs i c c' e

pub get-set_other :
    (l : List FdContext) (i j : ℕ) (c : FdContext) → j ≢ i → get_elem? (set l i c) j ≡ get_elem? l j
get-set_other [] i j c h = refl
get-set_other (x ∷ xs) zero zero c h = absurd (h refl)
get-set_other (x ∷ xs) zero (suc j) c h = refl
get-set_other (x ∷ xs) (suc i) zero c h = refl
get-set_other (x ∷ xs) (suc i) (suc j) c h = get-set_other xs i j c (λ e. h (ap suc e))

pub count-le-total :
    (l : List FdContext) (i : ℕ) (c : FdContext) → get_elem? l i ≡ some c → count c.events ≤ total l
count-le-total l i c e = omega (arith, total-set l i c (new_context 0) e)

-- The events of a descriptor: none where it has no context.
abbrev pub registered : List FdContext → ℕ → Events
registered [] i = no_events
registered (c ∷ cs) zero = c.events
registered (c ∷ cs) (suc i) = registered cs i

pub registered_at :
    (l : List FdContext) (i : ℕ) (c : FdContext)
    → get_elem? l i ≡ some c
    → registered l i ≡ c.events
registered_at [] i c e = absurd (cc)
registered_at (x ∷ xs) zero c e = let same : x ≡ c = cc in ap (λ (k : FdContext). k.events) same
registered_at (x ∷ xs) (suc i) c e = registered_at xs i c e

pub registered-set_other :
    (l : List FdContext) (i j : ℕ) (c : FdContext)
    → j ≢ i
    → registered (set l i c) j ≡ registered l j
registered-set_other [] i j c h = refl
registered-set_other (x ∷ xs) zero zero c h = absurd (h refl)
registered-set_other (x ∷ xs) zero (suc j) c h = refl
registered-set_other (x ∷ xs) (suc i) zero c h = refl
registered-set_other (x ∷ xs) (suc i) (suc j) c h =
    registered-set_other xs i j c (λ e. h (ap suc e))

pub registered-resize :
    (n i j : ℕ) (l : List FdContext)
    → length l ≤ n
    → registered (context_resize n i l) j ≡ registered l j
unfolding context_resize
registered-resize zero i j [] h = refl
registered-resize zero i j (c ∷ cs) h = absurd (omega arith)
registered-resize (suc n) i zero [] h = refl
registered-resize (suc n) i (suc j) [] h = registered-resize n (i + 1) j [] (omega arith)
registered-resize (suc n) i zero (c ∷ cs) h = refl
registered-resize (suc n) i (suc j) (c ∷ cs) h = registered-resize n (i + 1) j cs (omega arith)
