-- ===== src/IoManager/Valid.antt =====
-- The invariant of IOManager (sylar/iomanager.cpp), and `triggerEvent` under it.
use sylar_demo.Common.{
  ℕ, ◌+◌, ◌^◌, ◌≤◌, ◌<◌, ◌≡◌, ◌⊎◌, refl, ap, ◌∙◌, Bool, true, false, List, [], ◌∷◌, ◌++◌, none,
  some, arith, All, length, get_elem?, set, if◌then◌else◌, ok, assert_failed,
}
use sylar_demo.IoManager.{
  Event, nothing, read, write, has, without_event, EventContext, blank, FdContext, Work, IoManager,
  get_context, reset_context, work_of, trigger_on, trigger_with, trigger_event,
}
use sylar_demo.IoManager.Counting.{
  count, total, Numbered, total-set, set-All, set-Numbered, length-set_context, bit,
}

-- An event context that waits has a scheduler, and either a callback or a fiber.
abbrev pub IsWaiting : EventContext → Type 0
IsWaiting ec =
    ((scheduler : ℕ) × (ec.scheduler ≡ some scheduler))
    × (((cb : ℕ) × (ec.cb ≡ some cb) × (ec.fiber ≡ none))
        ⊎ ((f : ℕ) × (ec.fiber ≡ some f) × (ec.cb ≡ none)))

abbrev pub Fits : Bool → EventContext → Type 0
Fits true ec = IsWaiting ec
Fits false ec = ec ≡ blank

-- An event context waits just if its bit is set.
abbrev pub IsContext : FdContext → Type 0
IsContext c = Fits c.events.reading c.read × Fits c.events.writing c.write

-- The counter of pending events is the number of bits that are set.
pub record IsValid (s : IoManager) : Type 0 where
  pub fitting : All IsContext s.contexts
  pub numbered : Numbered 0 s.contexts
  pub counted : s.pending ≡ total s.contexts
  pub least : 32 ≤ length s.contexts
  pub int_size : length s.contexts < 2 ^ 31

pub Fits-true : (b : Bool) (ec : EventContext) → b ≡ true → Fits b ec → IsWaiting ec
Fits-true true ec h f = f
Fits-true false ec h f = absurd (ground (arith, h))

pub Fits-false : (b : Bool) (ec : EventContext) → b ≡ false → Fits b ec → ec ≡ blank
Fits-false true ec h f = absurd (ground (arith, h))
Fits-false false ec h f = f

-- The store of one context keeps the invariant, if the counter moves with it.
pub put-IsValid :
    (s : IoManager) (i : ℕ) (c c' : FdContext) (pending : ℕ) (scheduled : List (ℕ × Work))
    → IsValid s
    → get_elem? s.contexts i ≡ some c
    → IsContext c'
    → c'.fd ≡ c.fd
    → pending + count c.events ≡ s.pending + count c'.events
    → IsValid
        (record s { contexts = set s.contexts i c'; pending = pending; scheduled = scheduled })
put-IsValid s i c c' pending scheduled v e k f n = record {
  fitting = set-All IsContext s.contexts i c' k v.fitting;
  numbered = set-Numbered s.contexts i 0 c c' e f v.numbered;
  counted = omega (arith, n, v.counted, total-set s.contexts i c c' e);
  least = omega (arith, length-set_context s.contexts i c', v.least);
  int_size = omega (arith, length-set_context s.contexts i c', v.int_size);
}

-- A context after `triggerEvent`.
abbrev pub triggered : Event → FdContext → FdContext
triggered event c = reset_context event (record c { events = without_event event c.events })

pub triggered-IsContext :
    (event : Event) (c : FdContext) → IsContext c → IsContext (triggered event c)
triggered-IsContext nothing c v = v
triggered-IsContext read c v = (refl, v.1)
triggered-IsContext write c v = (v.0, refl)

pub count-triggered :
    (event : Event) (c : FdContext)
    → has event c.events ≡ true
    → count (triggered event c).events + 1 ≡ count c.events
count-triggered nothing c h = absurd (ground (arith, h))
count-triggered read c h = omega (arith, ap bit h)
count-triggered write c h = omega (arith, ap bit h)

-- What `triggerEvent` does to a context that has the event.
pub record Triggers (event : Event) (c : FdContext) (scheduled : List (ℕ × Work)) : Type 0 where
  pub waiting : EventContext
  pub scheduler : ℕ
  pub its_context : get_context event c ≡ some waiting
  pub its_scheduler : waiting.scheduler ≡ some scheduler
  pub returns :
      trigger_event event c scheduled
      ≡ ok (triggered event c, scheduled ++ ((scheduler, work_of waiting) ∷ []))

Triggers-waiting :
    (event : Event) (c : FdContext) (ec : EventContext) (scheduled : List (ℕ × Work))
    → has event c.events ≡ true
    → get_context event c ≡ some ec
    → IsWaiting ec
    → Triggers event c scheduled
unfolding trigger_event trigger_with trigger_on
Triggers-waiting event c ec scheduled h e w = record {
  waiting = ec;
  scheduler = w.0.0;
  its_context = e;
  its_scheduler = w.0.1;
  returns =
      ap (λ b. if b then trigger_with (get_context event c) event c scheduled else assert_failed) h
      ∙ ap (λ o. trigger_with o event c scheduled) e
      ∙ ap (λ o. trigger_on o (work_of ec) event c scheduled) w.0.1;
}

pub trigger_event-Triggers :
    (event : Event) (c : FdContext) (scheduled : List (ℕ × Work))
    → IsContext c
    → has event c.events ≡ true
    → Triggers event c scheduled
trigger_event-Triggers nothing c scheduled v h = absurd (ground (arith, h))
trigger_event-Triggers read c scheduled v h =
    Triggers-waiting read c c.read scheduled h refl (Fits-true c.events.reading c.read h v.0)
trigger_event-Triggers write c scheduled v h =
    Triggers-waiting write c c.write scheduled h refl (Fits-true c.events.writing c.write h v.1)
