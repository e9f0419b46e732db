-- ===== src/ByteArray/Grow.antt =====
-- `ByteArray::addCapacity` (sylar/bytearray.cpp), the constructor and `clear`.
use native.Mathlib.Nat.{div-add-mod, mod-lt}
use mathlib.Core.List.{append-nil, append_assoc}
use sylar_demo.Common.{
  ℕ, zero, suc, ◌+◌, ◌-◌, ◌*◌, ◌/◌, ◌%◌, ◌^◌, ◌≤◌, ◌<◌, ◌≡◌, refl, sym, ap, ◌∙◌, ◌⊎◌, List, [], ◌∷◌,
  ◌++◌, inl, inr, true, false, arith, length, take, add64, leb, ◌==◌, if◌then◌else◌, length-append,
  All-append, take_all, take-append_le, Bool-cases, leb_false→lt, leb→le,
}
use sylar_demo.ByteArray.{Node, ByteArray, new_node, append_nodes, grow_by, add_capacity}
use sylar_demo.ByteArray.Chain.{flat, flat-append, Sized}
use sylar_demo.ByteArray.Valid.{IsValid, get_capacity_lem, offset-mod}

pub length-new_node : (fresh : ℕ → ℕ) (start s : ℕ) → length (new_node fresh start s) ≡ s
unfolding new_node
length-new_node fresh start zero = refl
length-new_node fresh start (suc s) = ap suc (length-new_node fresh (start + 1) s)

-- What the allocation loop leaves: `count` nodes more behind the old ones, and the capacity raised
-- by their bytes. `cur` is the current pointer that is wanted.
pub record Grown (count cur : ℕ) (b b' : ByteArray) : Type 0 where
  pub more : List Node
  pub appended : b'.nodes ≡ b.nodes ++ more
  pub more_sized : Sized b.base_size more
  pub more_count : length (flat more) ≡ count * b.base_size
  pub raised : b'.capacity ≡ b.capacity + count * b.base_size
  pub same_base : b'.base_size ≡ b.base_size
  pub same_position : b'.position ≡ b.position
  pub same_size : b'.size ≡ b.size
  pub same_endian : b'.endian ≡ b.endian
  pub new_cur : b'.cur ≡ cur

abbrev one_more : ByteArray → ByteArray
one_more b = record b {
  nodes = b.nodes ++ (new_node b.fresh b.capacity b.base_size ∷ []);
  capacity = add64 b.capacity b.base_size;
}

Grown-one_more :
    (count : ℕ) (b b' : ByteArray)
    → b.capacity + b.base_size < 2 ^ 64
    → Grown count b.cur (one_more b) b'
    → Grown (suc count) b.cur b b'
Grown-one_more count b b' h later = record {
  more = new_node b.fresh b.capacity b.base_size ∷ later.more;
  appended = later.appended ∙ append_assoc b.nodes _ later.more;
  more_sized = (length-new_node b.fresh b.capacity b.base_size, later.more_sized);
  more_count = omega (
    arith,
    length-append (new_node b.fresh b.capacity b.base_size) (flat later.more),
    later.more_count,
    length-new_node b.fresh b.capacity b.base_size,
  );
  raised = omega (arith, later.raised);
  same_base = later.same_base;
  same_position = later.same_position;
  same_size = later.same_size;
  same_endian = later.same_endian;
  new_cur = later.new_cur;
}

append_nodes-Grown :
    (count : ℕ) (b : ByteArray)
    → b.capacity + count * b.base_size < 2 ^ 64
    → Grown count b.cur b (append_nodes count b)
unfolding append_nodes
append_nodes-Grown zero b h = record {
  more = [];
  appended = sym (append-nil b.nodes);
  more_sized = tt;
  more_count = omega arith;
  raised = omega arith;
  same_base = refl;
  same_position = refl;
  same_size = refl;
  same_endian = refl;
  new_cur = refl;
}
append_nodes-Grown (suc count) b h =
    let small : b.capacity + b.base_size < 2 ^ 64 = omega arith in
    Grown-one_more count b _ small (append_nodes-Grown count (one_more b) (omega arith))

-- The number of nodes to allocate: their bytes cover what is missing, by less than one node.
node_count :
    (missing base : ℕ)
    → 0 < base
    → let count = missing / base + (if missing % base == 0 then 0 else 1) in
      (missing ≤ count * base) × (count * base < missing + base)
node_count missing base h = elim (Bool-cases (missing % base == 0)) [
  | inl even ↦ rw even (
    omega (arith, div-add-mod missing base, even_mod even),
    omega (arith, div-add-mod missing base),
  )
  | inr odd ↦ rw odd (
    omega (arith, div-add-mod missing base, mod-lt missing h),
    omega (arith, div-add-mod missing base, odd_mod odd),
  )
]
  where
    even_mod : (missing % base == 0) ≡ true → missing % base ≡ 0
    even_mod e = ground (arith, e)

    odd_mod : (missing % base == 0) ≡ false → 0 < missing % base
    odd_mod e = ground (arith, e)

-- What `addCapacity(n)` leaves: room for `n` bytes behind the position, at the cost of less than one
-- node more than that, and the stream and its bytes as they were.
pub record Roomy (n : ℕ) (b b' : ByteArray) : Type 0 where
  pub valid : IsValid b'
  pub extra : List ℕ
  pub content : flat b'.nodes ≡ flat b.nodes ++ extra
  pub room : b.position + n ≤ b'.capacity
  pub least : (b'.capacity ≡ b.capacity) ⊎ (b'.capacity < b.position + n + b.base_size)
  pub same_base : b'.base_size ≡ b.base_size
  pub same_position : b'.position ≡ b.position
  pub same_size : b'.size ≡ b.size
  pub same_endian : b'.endian ≡ b.endian

Roomy-same : (n : ℕ) (b : ByteArray) → IsValid b → b.position + n ≤ b.capacity → Roomy n b b
Roomy-same n b v h = record {
  valid = v;
  extra = [];
  content = sym (append-nil (flat b.nodes));
  room = h;
  least = inl refl;
  same_base = refl;
  same_position = refl;
  same_size = refl;
  same_endian = refl;
}

-- The pointer may stay where it is, or be set to the first new node from the end of the chain.
Grown-Roomy :
    (n count cur : ℕ) (b b' : ByteArray)
    → IsValid b
    → Grown count cur b b'
    → b.position + n ≤ b.capacity + count * b.base_size
    → b.capacity + count * b.base_size < b.position + n + b.base_size
    → b.position + n + b.base_size ≤ 2 ^ 64
    → cur ≤ length b.nodes
    → b.position ≡ length (flat (take cur b.nodes)) + b.position % b.base_size
    → Roomy n b b'
Grown-Roomy n count cur b b' v g enough least small in_chain aligned = record {
  valid = record {
    base_pos = rw g.same_base v.base_pos;
    sized = rw (g.same_base, g.appended) (All-append _ b.nodes g.more v.sized g.more_sized);
    rooted = omega (arith, count', v.rooted);
    counted = omega (arith, content', g.raised, v.counted, g.more_count);
    small = omega (arith, g.raised);
    within = rw (g.same_position, g.same_size) v.within;
    held = omega (arith, g.same_size, v.held, g.raised);
    aligned = rw (g.same_position, g.same_base, g.new_cur, kept) aligned;
    cur_in = omega (arith, g.new_cur, count');
  };
  extra = flat g.more;
  content = rw g.appended (flat-append b.nodes g.more);
  room = omega (arith, g.raised);
  least = inr (omega (arith, g.raised));
  same_base = g.same_base;
  same_position = g.same_position;
  same_size = g.same_size;
  same_endian = g.same_endian;
}
  where
    count' : length b'.nodes ≡ length b.nodes + length g.more
    count' = rw g.appended (length-append b.nodes g.more)

    content' : length (flat b'.nodes) ≡ length (flat b.nodes) + length (flat g.more)
    content' =
        rw (g.appended, flat-append b.nodes g.more) (length-append (flat b.nodes) (flat g.more))

    kept : take cur b'.nodes ≡ take cur b.nodes
    kept = rw g.appended (take-append_le cur b.nodes g.more in_chain)

Grown-at_cur :
    (count cur : ℕ) (b b' : ByteArray)
    → Grown count b.cur b b'
    → Grown count cur b (record b' { cur = cur })
Grown-at_cur count cur b b' g = record {
  more = g.more;
  appended = g.appended;
  more_sized = g.more_sized;
  more_count = g.more_count;
  raised = g.raised;
  same_base = g.same_base;
  same_position = g.same_position;
  same_size = g.same_size;
  same_endian = g.same_endian;
  new_cur = refl;
}

-- The number of new nodes for `missing` bytes.
abbrev nodes_for : ℕ → ℕ → ℕ
nodes_for missing base = missing / base + (if missing % base == 0 then 0 else 1)

-- `addCapacity(n)` where the room does not do.
grow_by-Roomy :
    (n missing : ℕ) (b : ByteArray)
    → IsValid b
    → missing + b.capacity ≡ b.position + n
    → b.position + n + b.base_size ≤ 2 ^ 64
    → Roomy n b (grow_by (b.capacity - b.position) missing b)
unfolding grow_by
grow_by-Roomy n missing b v e small = elim (Bool-cases (b.capacity - b.position == 0)) [
  | inl full ↦ rw full (
      Grown-Roomy n count (length b.nodes) b _ v (Grown-at_cur count (length b.nodes) b _ grown)
        (omega (arith, covers.0)) (omega (arith, covers.1)) small (omega arith) (at_end full))
  | inr room ↦ rw room (
      Grown-Roomy n count b.cur b _ v grown (omega (arith, covers.0)) (omega (arith, covers.1))
        small v.cur_in v.aligned)
]
  where
    count : ℕ
    count = nodes_for missing b.base_size

    covers : (missing ≤ count * b.base_size) × (count * b.base_size < missing + b.base_size)
    covers = node_count missing b.base_size v.base_pos

    grown : Grown count b.cur b (append_nodes count b)
    grown = append_nodes-Grown count b (omega (arith, covers.1))

    whole : length (flat (take (length b.nodes) b.nodes)) ≡ b.capacity
    whole = rw (take_all (length b.nodes) b.nodes (omega arith)) (sym v.counted)

    at_end :
        (b.capacity - b.position == 0) ≡ true
        → b.position ≡ length (flat (take (length b.nodes) b.nodes)) + b.position % b.base_size
    at_end full =
        let p : b.position ≡ length (flat b.nodes) + 0 =
          ground (arith, full, v.within, v.held, v.counted) in
        let r : b.position % b.base_size ≡ 0 =
          ap (λ x. x % b.base_size) p ∙ offset-mod b.base_size 0 b.nodes v.sized v.base_pos in
        omega (arith, whole, r, p, v.counted)

-- `addCapacity(n)` on a valid object, where position, n and a node more stay within 64 bits, makes
-- room for `n` bytes behind the position, and leaves the stream and the object's validity as they were.
pub add_capacity-Roomy :
    (n : ℕ) (b : ByteArray)
    → IsValid b
    → b.position + n + b.base_size ≤ 2 ^ 64
    → Roomy n b (add_capacity n b)
unfolding add_capacity
add_capacity-Roomy n b v small = elim (Bool-cases (n == 0)) [
  | inl none ↦ rw none (Roomy-same n b v (ground (arith, none, v.within, v.held)))
  | inr some ↦
      rw (some, get_capacity_lem b v)
        (elim (Bool-cases (leb n (b.capacity - b.position))) [
          | inl fits ↦ rw fits (Roomy-same n b v (omega (arith, leb→le _ _ fits, v.within, v.held)))
          | inr over ↦ rw over (
              grow_by-Roomy n (n - (b.capacity - b.position)) b v
                (omega (arith, leb_false→lt _ _ over, v.within, v.held)) small)
        ])
]
