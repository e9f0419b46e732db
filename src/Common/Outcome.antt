-- ===== src/Common/Outcome.antt =====
-- The result of a member function that changes an object `S` and returns an `A`.
-- `thrown` is `std::out_of_range` with the object as the call left it; `fault` is undefined
-- behaviour: a null pointer followed, or memory read or written outside an allocation.

pub data Step (S A : Type 0) : Type 0 where
  done : A → S → Step S A
  thrown : S → Step S A
  fault : Step S A

abbrev pub then_run : {S A B : Type 0} → Step S A → (A → S → Step S B) → Step S B
then_run (done a s) f = f a s
then_run (thrown s) f = thrown s
then_run fault f = fault

infixl 5 ◌>>=◌ ◌>>◌
abbrev pub ◌>>=◌ : {S A B : Type 0} → (S → Step S A) → (A → S → Step S B) → S → Step S B
◌>>=◌ m f s = then_run (m s) f

abbrev pub ◌>>◌ : {S A B : Type 0} → (S → Step S A) → (S → Step S B) → S → Step S B
◌>>◌ m k s = then_run (m s) (λ _ t. k t)

abbrev pub return : {S A : Type 0} → A → S → Step S A
return a s = done a s

-- The result of code that checks itself: a failed SYLAR_ASSERT ends the process, and `undefined` is
-- undefined behaviour.
pub data Checked (A : Type 0) : Type 0 where
  ok : A → Checked A
  assert_failed undefined : Checked A

abbrev pub and_then : {A B : Type 0} → Checked A → (A → Checked B) → Checked B
and_then (ok a) f = f a
and_then assert_failed f = assert_failed
and_then undefined f = undefined
