-- ===== src/Codec/Readers.antt =====
-- How the reading functions of `ByteArray` (sylar/bytearray.cpp) take bytes off the stream, one
-- after the other.
use sylar_demo.Common.{
  ℕ, ◌+◌, ◌≤◌, ◌<◌, ◌≡◌, refl, sym, ap, ◌∙◌, List, [], ◌∷◌, ◌++◌, arith, length, take, drop,
  length-append, drop-drop, take-append_le, take_all, drop-append_le, drop_all, Step, done, ◌>>=◌,
}
use sylar_demo.ByteArray.{ByteArray, read}
use sylar_demo.ByteArray.Valid.{IsValid, view, unread, length-unread}
use sylar_demo.ByteArray.Read.{read-Reads}
use sylar_demo.Codec.{read_fuint8}

-- The call returns `a`, leaves a valid object with the same content, and is `n` bytes further on.
pub record Gets {A : Type 0} (a : A) (n : ℕ) (b : ByteArray) (result : Step ByteArray A)
    : Type 0 where
  pub after : ByteArray
  pub returns : result ≡ done a after
  pub valid : IsValid after
  pub content : (view after).content ≡ (view b).content
  pub moved : after.position ≡ b.position + n
  pub same_base : after.base_size ≡ b.base_size
  pub same_endian : after.endian ≡ b.endian

pub Gets-bind :
    {A B : Type 0} (m : ByteArray → Step ByteArray A) (f : A → ByteArray → Step ByteArray B) (a : A)
    (c : B) (n k : ℕ) (b : ByteArray)
    → (g : Gets a n b (m b)) → Gets c k g.after (f a g.after)
    → Gets c (n + k) b ((m >>= f) b)
Gets-bind m f a c n k b g h = record {
  after = h.after;
  returns = rw (g.returns) h.returns;
  valid = h.valid;
  content = h.content ∙ g.content;
  moved = omega (arith, h.moved, g.moved);
  same_base = h.same_base ∙ g.same_base;
  same_endian = h.same_endian ∙ g.same_endian;
}

-- What is then left to read.
pub Gets-unread :
    {A : Type 0} (a : A) (b : ByteArray) (result : Step ByteArray A) (front rest : List ℕ)
    → (g : Gets a (length front) b result) → unread (view b) ≡ front ++ rest
    → unread (view g.after) ≡ rest
Gets-unread a b result front rest g e =
    ap (drop g.after.position) g.content
    ∙ sym (drop-drop b.position (length front) g.after.position (view b).content g.moved)
    ∙ ap (drop (length front)) e
    ∙ drop-append_le (length front) front rest (omega arith)
    ∙ ap (λ l. l ++ rest) (drop_all (length front) front (omega arith))

pub Gets-bytes :
    (n : ℕ) (b : ByteArray) (front rest : List ℕ)
    → IsValid b
    → unread (view b) ≡ front ++ rest
    → n ≡ length front
    → 0 < n
    → Gets front n b (read n b)
Gets-bytes n b front rest v e n_is pos =
    let size : b.position + n ≤ b.size =
      omega (arith, length-unread b v, ap length e, length-append front rest, v.within) in
    let r = read-Reads n b v pos size in
    record {
      after = r.after;
      returns = r.returns ∙ ap (λ l. done l r.after) (exact n_is);
      valid = r.valid;
      content = ap (λ s. s.content) r.viewed;
      moved = ap (λ s. s.at) r.viewed;
      same_base = r.same_base;
      same_endian = r.same_endian;
    }
  where
    exact : n ≡ length front → take n (unread (view b)) ≡ front
    exact h =
        ap (take n) e ∙ take-append_le n front rest (omega arith) ∙ take_all n front (omega arith)

pub Gets-byte :
    (x : ℕ) (b : ByteArray) (rest : List ℕ)
    → IsValid b
    → unread (view b) ≡ x ∷ rest
    → Gets x 1 b (read_fuint8 b)
unfolding read_fuint8
Gets-byte x b rest v e =
    let g = Gets-bytes 1 b (x ∷ []) rest v e refl (omega arith) in
    record {
      after = g.after;
      returns = rw (g.returns) refl;
      valid = g.valid;
      content = g.content;
      moved = g.moved;
      same_base = g.same_base;
      same_endian = g.same_endian;
    }
