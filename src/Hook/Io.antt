-- ===== src/Hook/Io.antt =====
-- `do_io` (sylar/hook.cpp): what it returns, and its timers.
use sylar_demo.Common.{
  ℕ, zero, suc, ◌≡◌, ◌⊎◌, inl, inr, refl, sym, ap, ap₂, ◌∙◌, Bool, true, false, not, ◌&&◌, ◌||◌,
  List, [], ◌∷◌, ◌++◌, Option, none, some, arith, All, replicate, if◌then◌else◌, Bool-cases,
}
use sylar_demo.FdManager.{FdCtx, get_timeout}
use sylar_demo.Hook.{
  etimedout, Answer, failed, Effect, calls, adds_timer, adds_event, yields, cancels_timer, Attempt,
  Result, has_limit, is_eagain, wait, retry, do_io, choose, Connected, connect_wait, connect_tried,
  is_einprogress, connect_with_timeout,
}

-- The timers that are added, and those that are cancelled.
abbrev pub added : List Effect → ℕ
added [] = 0
added (adds_timer ms ∷ l) = suc (added l)
added (calls ∷ l) = added l
added (adds_event ∷ l) = added l
added (yields ∷ l) = added l
added (cancels_timer ∷ l) = added l

abbrev pub cancelled : List Effect → ℕ
cancelled [] = 0
cancelled (cancels_timer ∷ l) = suc (cancelled l)
cancelled (calls ∷ l) = cancelled l
cancelled (adds_event ∷ l) = cancelled l
cancelled (yields ∷ l) = cancelled l
cancelled (adds_timer ms ∷ l) = cancelled l

after_calls :
    (n : ℕ) (l : List Effect)
    → added l ≡ cancelled l
    → added (replicate n calls ++ l) ≡ cancelled (replicate n calls ++ l)
after_calls zero l e = e
after_calls (suc n) l e = after_calls n l e

wait_timers :
    (limit : ℕ) (a : Attempt) (rest : Result)
    → added rest.1 ≡ cancelled rest.1
    → added (wait limit a rest).1 ≡ cancelled (wait limit a rest).1
unfolding wait
wait_timers limit a rest e = elim (Bool-cases (has_limit limit)) [
  | inl h ↦ elim (Bool-cases a.added) [
    | inr d ↦ rw (h, d) refl
    | inl d ↦ elim (Bool-cases a.expired) [
      | inl x ↦ rw (h, d, x) refl
      | inr x ↦ rw (h, d, x) (ap suc e)
    ]
  ]
  | inr h ↦ elim (Bool-cases a.added) [
    | inr d ↦ rw (h, d) refl
    | inl d ↦ elim (Bool-cases a.expired) [ inl x ↦ rw (h, d, x) e | inr x ↦ rw (h, d, x) e ]
  ]
]

retry_timers :
    (limit : ℕ) (attempts : List Attempt)
    → added (retry limit attempts).1 ≡ cancelled (retry limit attempts).1
unfolding retry
retry_timers limit [] = refl
retry_timers limit (a ∷ rest) =
    let later = retry_timers limit rest in
    elim (Bool-cases (is_eagain a.answer)) [
      | inl e ↦ rw e (after_calls a.interrupts _ (wait_timers limit a (retry limit rest) later))
      | inr e ↦ rw e (after_calls a.interrupts _ refl)
    ]

choose_timers :
    (enabled is_closed passes : Bool) (direct : Answer) (tried : Result)
    → added tried.1 ≡ cancelled tried.1
    → added (choose enabled is_closed passes direct tried).1
      ≡ cancelled (choose enabled is_closed passes direct tried).1
choose_timers false c p direct tried e = refl
choose_timers true true p direct tried e = refl
choose_timers true false true direct tried e = refl
choose_timers true false false direct tried e = e

-- `do_io` cancels as many timers as it adds, whatever the descriptor is and however the calls, the
-- events and the timeouts go.
pub do_io_timers :
    (enabled : Bool) (ctx : Option FdCtx) (timeout_so : ℕ) (direct : Answer)
    (attempts : List Attempt)
    → (let effects = (do_io enabled ctx timeout_so direct attempts).1 in
        added effects ≡ cancelled effects)
unfolding do_io
do_io_timers enabled none timeout_so direct attempts = refl
do_io_timers enabled (some ctx) timeout_so direct attempts =
    choose_timers enabled ctx.is_closed (not ctx.is_socket || ctx.user_nonblock) direct
      (retry (get_timeout timeout_so ctx) attempts)
      (retry_timers (get_timeout timeout_so ctx) attempts)

connect_wait_timers :
    (limit : ℕ) (a : Attempt) (so_error : Connected)
    → added (connect_wait limit a so_error).1 ≡ cancelled (connect_wait limit a so_error).1
unfolding connect_wait
connect_wait_timers limit a so_error = elim (Bool-cases (has_limit limit)) [
  | inl h ↦ elim (Bool-cases a.added) [
    | inr d ↦ rw (h, d) refl
    | inl d ↦ elim (Bool-cases a.expired) [ inl x ↦ rw (h, d, x) refl | inr x ↦ rw (h, d, x) refl ]
  ]
  | inr h ↦ elim (Bool-cases a.added) [
    | inr d ↦ rw (h, d) refl
    | inl d ↦ elim (Bool-cases a.expired) [ inl x ↦ rw (h, d, x) refl | inr x ↦ rw (h, d, x) refl ]
  ]
]

-- So does `connect_with_timeout`.
pub connect_with_timeout_timers :
    (enabled : Bool) (ctx : Option FdCtx) (limit : ℕ) (direct : Answer) (a : Attempt)
    (so_error : Connected)
    → (let effects = (connect_with_timeout enabled ctx limit direct a so_error).1 in
        added effects ≡ cancelled effects)
unfolding connect_with_timeout
connect_with_timeout_timers false none limit direct a so_error = refl
connect_with_timeout_timers true none limit direct a so_error = refl
connect_with_timeout_timers enabled (some ctx) limit direct a so_error =
    choose_timers enabled ctx.is_closed (not ctx.is_socket || ctx.user_nonblock) direct
      (connect_tried limit direct a so_error)
      (elim (Bool-cases (is_einprogress direct)) [
        | inl e ↦ rw e (connect_wait_timers limit a so_error)
        | inr e ↦ rw e refl
      ])

-- A pass after which `do_io` calls again: the fiber has waited, and the time was not up.
abbrev pub IsWait : ℕ → Attempt → Type 0
IsWait limit a =
    (is_eagain a.answer ≡ true) × (a.added ≡ true) × ((a.expired && has_limit limit) ≡ false)

-- What a pass makes `do_io` return, if it is none of these.
abbrev pub outcome : Attempt → Answer
outcome a =
    if is_eagain a.answer
    then (if not a.added then failed a.add_errno else failed etimedout)
    else a.answer

-- A pass after which it returns.
abbrev pub IsLast : ℕ → Attempt → Type 0
IsLast limit a =
    (is_eagain a.answer ≡ false) ⊎ ((a.added ≡ false) ⊎ ((a.expired && has_limit limit) ≡ true))

retry-last :
    (limit : ℕ) (a : Attempt) (rest : List Attempt)
    → IsLast limit a
    → (retry limit (a ∷ rest)).0 ≡ some (outcome a)
unfolding retry wait
retry-last limit a rest (inl e) = rw e refl
retry-last limit a rest (inr l) = elim (Bool-cases (is_eagain a.answer)) [
  | inr e ↦ rw e refl
  | inl e ↦ elim (Bool-cases a.added) [
    | inr d ↦ rw (e, d) refl
    | inl d ↦ elim l [ inl n ↦ absurd (true_false (sym d ∙ n)) | inr x ↦ rw (e, d, x) refl ]
  ]
]
  where
    true_false : Path Bool true false → ⊥
    true_false p = absurd (ground (arith, p))

retry_waits :
    (limit : ℕ) (waits : List Attempt) (last : Attempt) (rest : List Attempt)
    → All (IsWait limit) waits
    → IsLast limit last
    → (retry limit (waits ++ (last ∷ rest))).0 ≡ some (outcome last)
unfolding retry wait
retry_waits limit [] last rest w l = retry-last limit last rest l
retry_waits limit (a ∷ waits) last rest ((e, y, n), w) l =
    rw (e, y, n) (retry_waits limit waits last rest w l)

-- A file descriptor whose calls `do_io` takes over.
abbrev pub IsHooked : FdCtx → Type 0
IsHooked ctx = (ctx.is_closed ≡ false) × (ctx.is_socket ≡ true) × (ctx.user_nonblock ≡ false)

-- `do_io` for such a descriptor returns after any number of waits, with what the first pass says that
-- is none: the call's own answer if it is not EAGAIN, the errno of addEvent if that fails, and else
-- ETIMEDOUT.
pub do_io_returns :
    (ctx : FdCtx) (timeout_so : ℕ) (direct : Answer) (waits : List Attempt) (last : Attempt)
    (rest : List Attempt)
    → IsHooked ctx
    → All (IsWait (get_timeout timeout_so ctx)) waits
    → IsLast (get_timeout timeout_so ctx) last
    → (do_io true (some ctx) timeout_so direct (waits ++ (last ∷ rest))).0 ≡ some (outcome last)
unfolding do_io
do_io_returns ctx timeout_so direct waits last rest (not_closed, socket, blocking) w l =
    ap (λ c. (choose true c (not ctx.is_socket || ctx.user_nonblock) direct tried).0) not_closed
    ∙ ap₂ (λ k b. (choose true false (not k || b) direct tried).0) socket blocking
    ∙ retry_waits (get_timeout timeout_so ctx) waits last rest w l
  where
    tried : Result
    tried = retry (get_timeout timeout_so ctx) (waits ++ (last ∷ rest))
