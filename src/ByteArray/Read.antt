-- ===== src/ByteArray/Read.antt =====
-- `ByteArray::read(buf, size)` (sylar/bytearray.cpp): it reads the stream.
use sylar_demo.Common.{
  ℕ, ◌+◌, ◌-◌, ◌%◌, ◌^◌, ◌≤◌, ◌<◌, ◌≡◌, refl, sym, ap, ◌∙◌, List, [], ◌∷◌, ◌++◌, inl, inr, false,
  arith, length, take, drop, sub64, ltb, length-append, length-drop, All-take, All-drop, take-take,
  drop-take, take-add, take-append-drop, drop-append_add, Bool-cases, le→ltb_false, lt→ltb, ltb→lt,
  ltb_false→le, ◌⊎◌, Step, done, thrown, fault, none, some,
}
use sylar_demo.ByteArray.{Node, ByteArray, read_loop, read_chain, end_read, read, get_read_size}
use sylar_demo.ByteArray.Chain.{flat, flat-append, Sized}
use sylar_demo.ByteArray.Chain.ReadLoop.{Taken, read_loop-Taken}
use sylar_demo.ByteArray.Walk.{at_end}
use sylar_demo.ByteArray.Valid.{
  IsValid, view, unread, read_stream, aligned_by, npos-lt, rest_room, base-le-capacity,
  get_read_size_lem, length-unread,
}

-- What `read` does on a valid object that has the bytes.
pub record Reads (n : ℕ) (b : ByteArray) (result : Step ByteArray (List ℕ)) : Type 0 where
  pub after : ByteArray
  pub returns : result ≡ done (take n (unread (view b))) after
  pub valid : IsValid after
  pub viewed : view after ≡ record { content = (view b).content; at = b.position + n }
  pub same_base : after.base_size ≡ b.base_size
  pub same_endian : after.endian ≡ b.endian

-- The walk from a node with an offset in it, at any place of the chain.
pub chain_bytes :
    (n position npos : ℕ) (before : List ℕ) (rest whole : List ℕ)
    → whole ≡ before ++ rest
    → position ≡ length before + npos
    → take n (drop npos rest) ≡ take n (drop position whole)
chain_bytes n position npos before rest whole e p =
    ap (take n) (sym (ap (drop position) e ∙ drop-append_add before rest npos position p))

-- The stream's own bytes, where the read stays within the size.
pub within_size :
    (n position size : ℕ) (xs : List ℕ)
    → position + n ≤ size
    → take n (drop position xs) ≡ take n (drop position (take size xs))
within_size n position size xs h = sym (
    ap (take n) (drop-take position (size - position) size xs (omega arith))
    ∙ take-take n (size - position) (drop position xs) (omega arith))

pub read_chain_start :
    (base npos position n : ℕ) (chain : List Node)
    → Sized base chain
    → npos < base
    → base < 2 ^ 64
    → 0 < length (flat chain)
    → read_chain chain npos position n ≡ read_loop chain npos (base - npos) position n
unfolding read_chain
read_chain_start base npos position n [] s h small room = absurd (omega arith)
read_chain_start base npos position n (node ∷ rest) s h small room =
    let e : sub64 (length node) npos ≡ base - npos = omega (arith, s.0) in rw e refl

pub read-Reads :
    (n : ℕ) (b : ByteArray) → IsValid b → 0 < n → b.position + n ≤ b.size → Reads n b (read n b)
unfolding read
read-Reads n b v pos fits = record {
  after = record b { cur = b.cur + t.passed; position = b.position + n };
  returns = rw (enough) (
      ap (end_read b) (
        read_chain_start b.base_size npos b.position n chain chain_sized (npos-lt b v)
          (omega (arith, base-le-capacity b v, v.small)) (omega (arith, rest_room b v, v.held))
        ∙ t.returns)
      ∙ ap (λ l. done l after) bytes);
  valid = record {
    base_pos = v.base_pos;
    sized = v.sized;
    rooted = v.rooted;
    counted = v.counted;
    small = v.small;
    within = fits;
    held = v.held;
    aligned =
        aligned_by b.base_size (b.position + n) t.offset (take (b.cur + t.passed) b.nodes)
          (All-take _ (b.cur + t.passed) b.nodes v.sized) t.in_node pointer;
    cur_in = omega (arith, t.in_chain, length-drop b.cur b.nodes, v.cur_in);
  };
  viewed = refl;
  same_base = refl;
  same_endian = refl;
}
  where
    chain : List Node
    chain = drop b.cur b.nodes

    npos : ℕ
    npos = b.position % b.base_size

    chain_sized : Sized b.base_size chain
    chain_sized = All-drop _ b.cur b.nodes v.sized

    t :
        Taken b.base_size npos n b.position chain
          (read_loop chain npos (b.base_size - npos) b.position n)
    t =
        read_loop-Taken b.base_size npos b.position n chain chain_sized (npos-lt b v) pos
          (omega (arith, rest_room b v, v.held)) (omega (arith, v.held, v.small))

    after : ByteArray
    after = record b { cur = b.cur + t.passed; position = b.position + n }

    enough : ltb (get_read_size b) n ≡ false
    enough = rw (get_read_size_lem b v) (le→ltb_false (b.size - b.position) n (omega arith))

    bytes : take n (drop npos (flat chain)) ≡ take n (unread (view b))
    bytes =
        chain_bytes n b.position npos (flat (take b.cur b.nodes)) (flat chain) (flat b.nodes)
          (sym (
            sym (flat-append (take b.cur b.nodes) chain)
            ∙ ap flat (take-append-drop b.cur b.nodes)))
          v.aligned
        ∙ within_size n b.position b.size (flat b.nodes) fits

    pointer : b.position + n ≡ length (flat (take (b.cur + t.passed) b.nodes)) + t.offset
    pointer = omega (
      arith,
      ap (λ l. length (flat l)) (take-add b.cur t.passed (b.cur + t.passed) b.nodes refl),
      ap length (flat-append (take b.cur b.nodes) (take t.passed chain)),
      length-append (flat (take b.cur b.nodes)) (flat (take t.passed chain)),
      t.pointer,
      v.aligned,
    )

pub read_thrown :
    (n : ℕ) (b : ByteArray) → IsValid b → b.size < b.position + n → read n b ≡ thrown b
unfolding read
read_thrown n b v h =
    rw (get_read_size_lem b v, lt→ltb (b.size - b.position) n (omega (arith, v.within))) refl

-- `read` of at least one byte is a read of the stream: it throws, and changes nothing, exactly where
-- the stream is too short, and otherwise returns the stream's bytes and moves on by as many.
pub read_refines :
    (n : ℕ) (b : ByteArray)
    → IsValid b
    → 0 < n
    → ((read_stream n (view b) ≡ none) × (read n b ≡ thrown b))
      ⊎ ((bytes : List ℕ) × (after : ByteArray) × (read_stream n (view b)
            ≡ some (bytes, view after))
          × (read n b ≡ done bytes after)
          × IsValid after)
unfolding read_stream
read_refines n b v pos = elim (Bool-cases (ltb (length (unread (view b))) n)) [
  | inl short ↦ inl (
    rw short refl,
    read_thrown n b v (omega (arith, ltb→lt _ _ short, length-unread b v, v.within)),
  )
  | inr enough ↦
      let r =
        read-Reads n b v pos
          (omega (arith, ltb_false→le _ _ enough, length-unread b v, v.within)) in
      inr (
        take n (unread (view b)),
        r.after,
        rw enough (ap (λ s. some (take n (unread (view b)), s)) (sym r.viewed)),
        r.returns,
        r.valid,
      )
]

read_loop_zero :
    (chain : List Node) (npos ncap position : ℕ)
    → read_loop chain npos ncap position 0 ≡ some ([], 0, position)
unfolding read_loop
read_loop_zero [] npos ncap position = refl
read_loop_zero (node ∷ rest) npos ncap position = refl

-- A read of nothing follows the current pointer all the same, which is NULL at the end of the last
-- node: there it is undefined behaviour, and nowhere else.
pub read_nothing :
    (b : ByteArray)
    → IsValid b
    → ((b.position < b.capacity) × (read 0 b ≡ done [] b))
      ⊎ ((b.position ≡ b.capacity) × (read 0 b ≡ fault))
unfolding read
read_nothing b v =
    let enough : ltb (get_read_size b) 0 ≡ false = le→ltb_false (get_read_size b) 0 (omega arith) in
    elim (Bool-cases (ltb b.position b.capacity)) [
      | inl inside ↦ inl (
        ltb→lt _ _ inside,
        rw enough (
            ap (end_read b) (
              read_chain_start b.base_size (b.position % b.base_size) b.position 0
                (drop b.cur b.nodes) (All-drop _ b.cur b.nodes v.sized) (npos-lt b v)
                (omega (arith, base-le-capacity b v, v.small))
                (omega (arith, rest_room b v, ltb→lt _ _ inside))
              ∙ read_loop_zero (drop b.cur b.nodes) _ _ b.position)
            ∙ ap (λ k. done [] (record b { cur = k })) (omega arith)),
      )
      | inr past ↦
          let full : b.position ≡ b.capacity =
            omega (arith, ltb_false→le _ _ past, v.within, v.held) in
          inr (
            full,
            rw enough (
                unfold read_chain in
                ap (λ chain. end_read b (read_chain chain (b.position % b.base_size) b.position 0))
                  (at_end b v full)),
          )
    ]
